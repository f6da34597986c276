-- ===== src/Udpgw/Serve.antt =====
-- internal/udpgw/udpgw.go: `Serve`, the loop that dials the gateway of the server and runs the two
-- loops of `runForwarder` until the first of them ends. Times are in nanoseconds.
use Prim.Native.Nat.{min}
use ssc.Base.{
  ℕ, suc, ◌-◌, ◌*◌, ◌≤◌, ◌≡◌, refl, Bool, true, false, List, [], ◌∷◌, arith, if◌then◌else◌,
  if_holds,
}

-- What the environment answers to one pass: whether the context is done before it, whether the dial
-- succeeds, and whether the context ends during the connection or during the delay. A connection is
-- used until one of the loops of `runForwarder` ends.
pub record Round : Type 0 where
  pub done_before : Bool
  pub dialled : Bool
  pub done_after : Bool

-- `backoff`, `conn`, and the connections that are open
pub record ServeState : Type 0 where
  pub backoff : ℕ
  pub conn : Bool
  pub open_conns : ℕ

abbrev pub second : ℕ
second = 1000000000

abbrev pub min_backoff : ℕ
min_backoff = 1 * second

abbrev pub max_backoff : ℕ
max_backoff = 30 * second

-- the factor and the cap of a delay
abbrev pub doubled : ServeState → ServeState
doubled s = record s { backoff = min (s.backoff * 2) max_backoff }

abbrev pub connect : ServeState → ServeState
connect s = record { backoff = min_backoff; conn = true; open_conns = suc s.open_conns }

abbrev pub disconnect : ServeState → ServeState
disconnect s = record s { conn = false; open_conns = s.open_conns - 1 }

pub data Pass : Type 0 where
  returns goes_on : ServeState → Pass

abbrev pub delay : Bool → ServeState → Pass
delay true s = returns s
delay false s = goes_on (doubled s)

abbrev pub after_dial : Bool → Bool → ServeState → Pass
after_dial false done s = delay done s
after_dial true done s = delay done (disconnect (connect s))

abbrev pub serve_pass : Round → ServeState → Pass
serve_pass r s = if r.done_before then returns s else after_dial r.dialled r.done_after s

abbrev pub serve_follow : (ServeState → Pass) → Pass → Pass
serve_follow next (goes_on s) = next s
serve_follow next (returns s) = returns s

-- the loop, for as many passes as the environment answers to
unfoldable pub serve_passes : List Round → ServeState → Pass
serve_passes [] s = goes_on s
serve_passes (r ∷ rs) s = serve_follow (serve_passes rs) (serve_pass r s)

abbrev pub serve_start : ServeState
serve_start = record { backoff = min_backoff; conn = false; open_conns = 0 }

-- `Serve`, from the point where the socket is open
unfoldable pub serve : List Round → Pass
unfolding serve_passes
serve rs = serve_passes rs serve_start

abbrev pub state_of : Pass → ServeState
state_of (returns s) = s
state_of (goes_on s) = s

-- between two passes, and at the end
pub record IsQuiet (s : ServeState) : Type 0 where
  pub no_conn : s.conn ≡ false
  pub none_open : s.open_conns ≡ 0
  pub at_least : min_backoff ≤ s.backoff
  pub at_most : s.backoff ≤ max_backoff

delay-IsQuiet : (done : Bool) (s : ServeState) → IsQuiet s → IsQuiet (state_of (delay done s))
delay-IsQuiet true s h = h
delay-IsQuiet false s h =
    let a = h.at_least in
    record {
      no_conn = h.no_conn;
      none_open = h.none_open;
      at_least = omega arith;
      at_most = omega arith;
    }

run-IsQuiet : (s : ServeState) → IsQuiet s → IsQuiet (disconnect (connect s))
run-IsQuiet s h = record {
  no_conn = refl;
  none_open = omega (arith, h.none_open);
  at_least = omega arith;
  at_most = omega arith;
}

after_dial-IsQuiet :
    (d done : Bool) (s : ServeState) → IsQuiet s → IsQuiet (state_of (after_dial d done s))
after_dial-IsQuiet false done s h = delay-IsQuiet done s h
after_dial-IsQuiet true done s h = delay-IsQuiet done _ (run-IsQuiet s h)

serve_pass-IsQuiet : (r : Round) (s : ServeState) → IsQuiet s → IsQuiet (state_of (serve_pass r s))
serve_pass-IsQuiet r s h =
    if_holds (λ p. IsQuiet (state_of p)) r.done_before _ _ h
      (after_dial-IsQuiet r.dialled r.done_after s h)

serve_follow-IsQuiet :
    (next : ServeState → Pass) (p : Pass)
    → ((s : ServeState) → IsQuiet s → IsQuiet (state_of (next s)))
    → IsQuiet (state_of p)
    → IsQuiet (state_of (serve_follow next p))
serve_follow-IsQuiet next (goes_on s) k h = k s h
serve_follow-IsQuiet next (returns s) k h = h

serve_passes-IsQuiet :
    (rs : List Round) (s : ServeState) → IsQuiet s → IsQuiet (state_of (serve_passes rs s))
unfolding serve_passes
serve_passes-IsQuiet [] s h = h
serve_passes-IsQuiet (r ∷ rs) s h =
    serve_follow-IsQuiet (serve_passes rs) (serve_pass r s) (serve_passes-IsQuiet rs)
      (serve_pass-IsQuiet r s h)

-- However the dials and the connections end, `Serve` leaves no connection open or in use between two
-- attempts or when it returns, and waits from 1 s to 30 s between them.
pub serve-IsQuiet : (rs : List Round) → IsQuiet (state_of (serve rs))
unfolding serve
serve-IsQuiet rs =
    serve_passes-IsQuiet rs serve_start
      (record { no_conn = refl; none_open = refl; at_least = omega arith; at_most = omega arith })
