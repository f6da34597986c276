-- ===== src/Daemon/Reconnect.antt =====
-- What the loop of the tunnel keeps from pass to pass, and what it leaves behind when it returns.
use ssc.Base.{
  zero, suc, ◌≤◌, ◌≡◌, refl, ap, ◌∙◌, Bool, true, false, List, [], ◌∷◌, none, some, Bytes, ℤ, pos,
  negsuc, arith, inl, inr, ◌⊎◌, if_holds, if_decided, leb,
}
use ssc.Config.{Config}
use ssc.Config.Types.{Profile}
use ssc.Iptables.{World, Log}
use ssc.Tunnel.{next_delay}
use ssc.Tunnel.Sizes.{next_delay-pos}
use ssc.Daemon.Rules.{torn_down_returns}
use mathlib.Core.Path.{subst}
use ssc.Daemon.Loop.{
  Status, Heard, context_done, wait_done, health, Round, LoopState, base_delay, max_delay, Waited,
  cancelled, still_waiting, ended, wait_loop, dial_failed, applied, bring_up, dial_worked, Pass,
  returns, goes_on, waits, after_wait, connection, after_dial, connecting, route_known, pass,
  follow, passes, teardown, tunnel_loop,
}

abbrev pub IsDelay : ℤ → Type 0
IsDelay (pos n) = n ≤ max_delay
IsDelay (negsuc n) = ⊥

-- the loop between two passes
pub record IsIdle (l : LoopState) : Type 0 where
  pub no_client : l.client ≡ false
  pub none_open : l.open_clients ≡ 0
  pub not_connected : l.status.is_connected ≡ false
  pub bounded : IsDelay l.delay
  pub served : l.iptables_up ≡ true → l.listeners ≡ true

-- the loop while it listens to a connection
pub record IsConnected (l : LoopState) : Type 0 where
  pub has_client : l.client ≡ true
  pub one_open : l.open_clients ≡ 1
  pub is_connected : l.status.is_connected ≡ true
  pub listening : l.listeners ≡ true

pub record IsClosed (l : LoopState) : Type 0 where
  pub no_client : l.client ≡ false
  pub none_open : l.open_clients ≡ 0
  pub served : l.iptables_up ≡ true → l.listeners ≡ true

abbrev pub Settled : Pass → Type 0
Settled (goes_on l) = IsIdle l
Settled (returns l) = IsClosed l
Settled (waits l) = IsIdle l ⊎ IsConnected l

next_delay-IsDelay : (d : ℤ) → IsDelay d → IsDelay (next_delay d base_delay max_delay)
unfolding next_delay
next_delay-IsDelay (pos zero) h = omega arith
next_delay-IsDelay (pos (suc n)) h =
    rw (next_delay-pos (suc n) base_delay max_delay (omega arith) h (omega arith)) (omega arith)
next_delay-IsDelay (negsuc n) h = absurd h

wait_loop_connected :
    (cfg : Config) (hs : List Heard) (st : Status)
    → (wait_loop cfg hs st).0.is_connected ≡ st.is_connected
unfolding wait_loop
wait_loop_connected cfg [] st = refl
wait_loop_connected cfg (context_done ∷ hs) st = refl
wait_loop_connected cfg (wait_done e ∷ hs) st = refl
wait_loop_connected cfg (health s te ∷ hs) st =
    if_holds (λ (p : Status × Waited). p.0.is_connected ≡ st.is_connected) (leb 5 te) _ _ refl
      (wait_loop_connected cfg hs _)

-- what bringing up the listeners keeps
abbrev IsUp : LoopState → LoopState → Type 0
IsUp l up =
    (up.client ≡ l.client)
    × (up.open_clients ≡ l.open_clients)
    × (up.status.is_connected ≡ l.status.is_connected)
    × (up.listeners ≡ true)

applied-IsUp :
    (cfg : Config) (r : Bool × Log) (l m : LoopState) → IsUp l m → IsUp l (applied cfg r m)
applied-IsUp cfg (true, log) l m h = h
applied-IsUp cfg (false, log) l m h = h

bring_up-IsUp :
    (w : World) (cfg : Config) (ips : List Bytes) (l : LoopState) → IsUp l (bring_up w cfg ips l)
unfolding bring_up
bring_up-IsUp w cfg ips l =
    if_decided (IsUp l) l.listeners _ _ (λ e. (refl, refl, refl, e))
      (λ e.
        if_holds (IsUp l) cfg.transparent_proxy.enabled _ _
          (applied-IsUp cfg _ l _ (refl, refl, refl, refl)) (refl, refl, refl, refl))

after_wait-Settled : (o : Waited) (l : LoopState) → IsConnected l → Settled (after_wait o l)
after_wait-Settled cancelled l h = record {
  no_client = refl;
  none_open = omega (arith, h.one_open);
  served = λ e. h.listening;
}
after_wait-Settled (ended e) l h = record {
  no_client = refl;
  none_open = omega (arith, h.one_open);
  not_connected = refl;
  bounded = omega arith;
  served = λ e. h.listening;
}
after_wait-Settled still_waiting l h = inr h

connection-Settled :
    (w : World) (cfg : Config) (hs : List Heard) (ips : List Bytes) (l : LoopState)
    → IsIdle l
    → Settled (connection w cfg hs ips l)
unfolding connection dial_worked
connection-Settled w cfg hs ips l h =
    let d = dial_worked l in
    let (a, b, c, e) = bring_up-IsUp w cfg ips d in
    let up = bring_up w cfg ips d in
    let k = wait_loop_connected cfg hs up.status in
    after_wait-Settled _ _ (record {
      has_client = a;
      one_open = b ∙ ap suc h.none_open;
      is_connected = k ∙ c;
      listening = e;
    })

pass-Settled :
    (w : World) (cfg : Config) (sp : Profile) (r : Round) (l : LoopState)
    → IsIdle l
    → Settled (pass w cfg sp r l)
unfolding pass dial_failed
pass-Settled w cfg sp r l h =
    let known = route_known r.online l in
    if_holds Settled r.done_before _ _
      (record { no_client = h.no_client; none_open = h.none_open; served = h.served })
      (if_holds Settled r.online _ _
        (elim r.dialled as (λ d. Settled (after_dial w cfg sp r.heard d (connecting known))) [
          | none ↦ record {
            no_client = h.no_client;
            none_open = h.none_open;
            not_connected = refl;
            bounded = next_delay-IsDelay l.delay h.bounded;
            served = h.served;
          }
          | some ips ↦ connection-Settled w cfg r.heard ips (connecting known) (record {
            no_client = h.no_client;
            none_open = h.none_open;
            not_connected = h.not_connected;
            bounded = h.bounded;
            served = h.served;
          })
        ])
        (record {
          no_client = h.no_client;
          none_open = h.none_open;
          not_connected = refl;
          bounded = omega arith;
          served = h.served;
        }))

follow-Settled :
    (next : LoopState → Pass)
    → ((l : LoopState) → IsIdle l → Settled (next l))
    → (p : Pass) → Settled p
    → Settled (follow next p)
follow-Settled next ih (goes_on l) h = ih l h
follow-Settled next ih (returns l) h = h
follow-Settled next ih (waits l) h = h

-- Between two passes no SSH connection is open, the dashboard shows none, the next attempt is at
-- most 30 s away, and rules are up only while the listeners they point to are; while the loop
-- listens there is exactly one connection; when it returns there is none.
pub passes-Settled :
    (w : World) (cfg : Config) (sp : Profile) (rs : List Round) (l : LoopState)
    → IsIdle l
    → Settled (passes w cfg sp rs l)
unfolding passes
passes-Settled w cfg sp [] l h = inl h
passes-Settled w cfg sp (r ∷ rs) l h =
    follow-Settled (passes w cfg sp rs) (passes-Settled w cfg sp rs) (pass w cfg sp r l)
      (pass-Settled w cfg sp r l h)

-- What `tunnelLoop` leaves behind.
abbrev pub IsReleased : LoopState → Type 0
IsReleased l =
    (l.client ≡ false) × (l.open_clients ≡ 0) × (l.listeners ≡ false) × (l.iptables_up ≡ false)

teardown-IsReleased :
    (w : World) (cfg : Config) (l : LoopState) → IsClosed l → IsReleased (teardown w cfg l)
unfolding teardown
teardown-IsReleased w cfg l h = (refl, h.none_open, refl, refl)

-- When `tunnelLoop` returns, the client's pointer is empty, every SSH connection it opened is
-- closed, and neither the listeners nor the rules are up.
pub tunnel_loop-IsReleased :
    (w : World) (cfg : Config) (sp : Profile) (rs : List Round) (l m : LoopState)
    → IsIdle (record l { delay = pos 0 })
    → tunnel_loop w cfg sp rs l ≡ returns m
    → IsReleased m
unfolding tunnel_loop
tunnel_loop-IsReleased w cfg sp rs l m h e =
    let start : LoopState = record l { delay = pos 0 } in
    let (n, p, q) = torn_down_returns w cfg (passes w cfg sp rs start) m e in
    rw q (teardown-IsReleased w cfg n (subst Settled p (passes-Settled w cfg sp rs start h)))
