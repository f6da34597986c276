-- ===== src/Transport/Closing.antt =====
-- `openPreparedConn` never leaks the connection that it dialled.
use ssc.Base.{
  ◌≤◌, if_holds, ℕ, suc, ◌+◌, ◌≡◌, refl, Bool, true, false, List, [], ◌∷◌, ◌++◌, Option, none, some,
  Bytes, ℤ, arith, if◌then◌else◌, any, index, drop,
}
use ssc.Config.Types.{Profile, HttpProxyCfg, TlsCfg}
use ssc.Transport.{Endpoint, endpoint, no_endpoint, dial_endpoint, uses_tls}
use ssc.Transport.Parsing.{extract_ssh_banner}
use ssc.Transport.Prepare.{
  Network, Action, dialled, sent_connect, wrapped_tls, sent_payload, evicted, closed, PrepareError,
  ConnectIo, connect_write_failed, connect_read_failed, connect_response, ProbeIo, probe_failed,
  probed, Prepared, Outcome, ok, err, M, continue, ◌>>=◌, pure, act, close_with, close_on,
  http_connect, wants_connect, wrap_tls, inject_payload, is_rate_limit, expose_banner,
  check_statuses, prepare, open_prepared_conn, start, tcp_dial_failed, tls_failed,
  tls_config_missing, payload_write_failed, sni_or_host, with_tls, probe_response, connect_answer,
  evict_proxy, await_banner, banner_prefix,
}
use ssc.Transport.Render.{MapOrder, render_payload}

-- how often the list holds a dial, and a closing
abbrev pub dials : List Action → ℕ
dials [] = 0
dials (dialled ∷ log) = suc (dials log)
dials (_ ∷ log) = dials log

abbrev pub closes : List Action → ℕ
closes [] = 0
closes (closed ∷ log) = suc (closes log)
closes (_ ∷ log) = closes log

-- an action that neither dials nor closes
abbrev Neutral : Action → Type 0
Neutral dialled = ⊥
Neutral closed = ⊥
Neutral _ = Unit

pub closes-closed : (log : List Action) → closes (log ++ closed ∷ []) ≡ suc (closes log)
closes-closed [] = refl
closes-closed (closed ∷ log) = omega (arith, closes-closed log)
closes-closed (dialled ∷ log) = closes-closed log
closes-closed (sent_connect _ ∷ log) = closes-closed log
closes-closed (wrapped_tls _ ∷ log) = closes-closed log
closes-closed (sent_payload _ ∷ log) = closes-closed log
closes-closed (evicted _ ∷ log) = closes-closed log

closes-Neutral : (a : Action) (log : List Action) → Neutral a → closes (log ++ a ∷ []) ≡ closes log
closes-Neutral (sent_connect _) [] h = refl
closes-Neutral (wrapped_tls _) [] h = refl
closes-Neutral (sent_payload _) [] h = refl
closes-Neutral (evicted _) [] h = refl
closes-Neutral dialled [] h = absurd h
closes-Neutral closed [] h = absurd h
closes-Neutral a (closed ∷ log) h = omega (arith, closes-Neutral a log h)
closes-Neutral a (dialled ∷ log) h = closes-Neutral a log h
closes-Neutral a (sent_connect _ ∷ log) h = closes-Neutral a log h
closes-Neutral a (wrapped_tls _ ∷ log) h = closes-Neutral a log h
closes-Neutral a (sent_payload _ ∷ log) h = closes-Neutral a log h
closes-Neutral a (evicted _ ∷ log) h = closes-Neutral a log h

pub dials-other :
    (a : Action) (log : List Action) → dials (a ∷ []) ≡ 0 → dials (log ++ a ∷ []) ≡ dials log
dials-other a [] h = h
dials-other a (dialled ∷ log) h = omega (arith, dials-other a log h)
dials-other a (closed ∷ log) h = dials-other a log h
dials-other a (sent_connect _ ∷ log) h = dials-other a log h
dials-other a (wrapped_tls _ ∷ log) h = dials-other a log h
dials-other a (sent_payload _ ∷ log) h = dials-other a log h
dials-other a (evicted _ ∷ log) h = dials-other a log h

-- Success closes nothing, an error closes once, and nothing is dialled.
abbrev Leaves : {A : Type 0} → Outcome A × List Action → List Action → Type 0
Leaves (ok a, after) log = (closes after ≡ closes log) × (dials after ≡ dials log)
Leaves (err e, after) log = (closes after ≡ suc (closes log)) × (dials after ≡ dials log)

record IsTidy {A : Type 0} (m : M A) : Type 0 where
  leaves : (log : List Action) → Leaves (m log) log

pure-IsTidy : {A : Type 0} (a : A) → IsTidy (pure a)
pure-IsTidy a = record { leaves = λ log. (refl, refl) }

close_with-IsTidy : {A : Type 0} (e : PrepareError) → IsTidy {A = A} (close_with e)
close_with-IsTidy e = record { leaves = λ log. (closes-closed log, dials-other closed log refl) }

act-IsTidy : (a : Action) → Neutral a → dials (a ∷ []) ≡ 0 → IsTidy (act a)
act-IsTidy a h k = record { leaves = λ log. (closes-Neutral a log h, dials-other a log k) }

bind-Leaves :
    {A B : Type 0} (r : Outcome A × List Action) (f : A → M B) (log : List Action)
    → Leaves r log
    → ((a : A) → IsTidy (f a))
    → Leaves (continue r.0 f r.1) log
bind-Leaves (err e, after) f log h k = h
bind-Leaves (ok a, after) f log (c, d) k = follow (f a after) ((k a).leaves after)
  where
    follow : {B : Type 0} (s : Outcome B × List Action) → Leaves s after → Leaves s log
    follow (ok b, last) (x, y) = (omega arith, omega arith)
    follow (err e, last) (x, y) = (omega arith, omega arith)

bind-IsTidy :
    {A B : Type 0} (m : M A) (f : A → M B) → IsTidy m → ((a : A) → IsTidy (f a)) → IsTidy (m >>= f)
bind-IsTidy m f h k = record { leaves = λ log. bind-Leaves (m log) f log (h.leaves log) k }

if-IsTidy : {A : Type 0} (b : Bool) (m n : M A) → IsTidy m → IsTidy n → IsTidy (if b then m else n)
if-IsTidy true m n h k = h
if-IsTidy false m n h k = k

close_on-IsTidy : (o : Option PrepareError) → IsTidy (close_on o)
close_on-IsTidy none = pure-IsTidy tt
close_on-IsTidy (some e) = close_with-IsTidy e

http_connect-IsTidy : (net : Network) (p : Profile) → IsTidy (http_connect net p)
unfolding http_connect
http_connect-IsTidy net p = bind-IsTidy _ _ (act-IsTidy _ tt refl) (λ _. answer net.connect)
  where
    answer : (io : ConnectIo) → IsTidy (connect_answer io)
    answer connect_write_failed = close_with-IsTidy _
    answer connect_read_failed = close_with-IsTidy _
    answer (connect_response b) = close_on-IsTidy _

wrap_tls-IsTidy : (net : Network) (p : Profile) → IsTidy (wrap_tls net p)
unfolding wrap_tls
wrap_tls-IsTidy net p = if-IsTidy (uses_tls p) _ _ (wrap p.transport.tls) (pure-IsTidy tt)
  where
    wrap : (t : Option TlsCfg) → IsTidy (with_tls t net p)
    wrap none = close_with-IsTidy tls_config_missing
    wrap (some t) =
        bind-IsTidy (act (wrapped_tls (sni_or_host t p)))
          (λ _. if net.tls_handshake then pure tt else close_with tls_failed)
          (act-IsTidy (wrapped_tls (sni_or_host t p)) tt refl)
          (λ _.
            if-IsTidy net.tls_handshake (pure tt) (close_with tls_failed) (pure-IsTidy tt)
              (close_with-IsTidy tls_failed))

inject_payload-IsTidy :
    (order : MapOrder) (net : Network) (p : Profile) → IsTidy (inject_payload order net p)
unfolding inject_payload
inject_payload-IsTidy order net p =
    if-IsTidy p.transport.payload.enabled _ _
      (bind-IsTidy _ _
        (act-IsTidy (sent_payload (render_payload order p.transport.payload.template p)) tt refl)
        (λ _.
          bind-IsTidy _ _
            (if-IsTidy net.payload_written _ _ (pure-IsTidy tt)
              (close_with-IsTidy payload_write_failed))
            (λ _.
              if-IsTidy p.transport.payload.read_response _ _ (read net.probe) (pure-IsTidy []))))
      (pure-IsTidy [])
  where
    read : (io : ProbeIo) → IsTidy (probe_response io)
    read probe_failed = close_with-IsTidy _
    read (probed b) = pure-IsTidy b

check_statuses-IsTidy : (p : Profile) (statuses : List ℤ) → IsTidy (check_statuses p statuses)
unfolding check_statuses
check_statuses-IsTidy p statuses = if-IsTidy _ _ _ (close_with-IsTidy _) (pure-IsTidy tt)

evict_proxy-IsTidy : (h : Option HttpProxyCfg) → IsTidy (evict_proxy h)
evict_proxy-IsTidy none = pure-IsTidy tt
evict_proxy-IsTidy (some h) = act-IsTidy _ tt refl

await_banner-IsTidy : (p : Profile) (statuses : List ℤ) → IsTidy (await_banner p statuses)
await_banner-IsTidy p [] = close_with-IsTidy _
await_banner-IsTidy p (n ∷ more) =
    if-IsTidy (any is_rate_limit (n ∷ more)) _ _
      (bind-IsTidy _ _
        (bind-IsTidy _ _ (act-IsTidy _ tt refl) (λ _. evict_proxy-IsTidy p.transport.http_proxy))
        (λ _. pure-IsTidy []))
      (pure-IsTidy [])

expose_banner-IsTidy :
    (p : Profile) (all : Bytes) (statuses : List ℤ) → IsTidy (expose_banner p all statuses)
unfolding expose_banner
expose_banner-IsTidy p all statuses =
    if-IsTidy _ _ _ (banner (extract_ssh_banner all) (index all _)) (pure-IsTidy [])
  where
    banner : (b : Bytes) (idx : Option ℕ) → IsTidy (banner_prefix b idx all p statuses)
    banner [] idx = await_banner-IsTidy p statuses
    banner (c ∷ b) none = await_banner-IsTidy p statuses
    banner (c ∷ b) (some i) = pure-IsTidy (drop i all)

prepare-IsTidy : (order : MapOrder) (net : Network) (p : Profile) → IsTidy (prepare order net p)
unfolding prepare
prepare-IsTidy order net p =
    bind-IsTidy _ _ (if-IsTidy (wants_connect p) _ _ (http_connect-IsTidy net p) (pure-IsTidy tt))
      (λ _. bind-IsTidy _ _ (wrap_tls-IsTidy net p) (λ _.
        bind-IsTidy _ _ (inject_payload-IsTidy order net p) (λ all.
          bind-IsTidy _ _ (check_statuses-IsTidy p _)
            (λ _. bind-IsTidy _ _ (expose_banner-IsTidy p all _) (λ first. pure-IsTidy _)))))

-- the connections that the caller holds afterwards
abbrev pub held : Outcome Prepared → ℕ
held (ok c) = 1
held (err e) = 0

balance :
    (r : Outcome Prepared × List Action)
    → Leaves r (dialled ∷ [])
    → dials r.1 ≡ closes r.1 + held r.0
balance (ok c, log) (x, y) = omega (arith, x, y)
balance (err e, log) (x, y) = omega (arith, x, y)

if-balance :
    (b : Bool) (r : Outcome Prepared × List Action)
    → dials r.1 ≡ closes r.1 + held r.0
    → dials (if b then r else (err tcp_dial_failed, [])).1
      ≡ closes (if b then r else (err tcp_dial_failed, [])).1
        + held (if b then r else (err tcp_dial_failed, [])).0
if-balance true r h = h
if-balance false r h = refl

-- Every connection that is dialled is either returned or closed, exactly once: on each error path
-- after the dial the connection is closed, and on success it is open.
pub open_prepared_conn-closes :
    (order : MapOrder) (net : Network) (p : Profile)
    → dials (open_prepared_conn order net p).1
      ≡ closes (open_prepared_conn order net p).1 + held (open_prepared_conn order net p).0
unfolding open_prepared_conn
open_prepared_conn-closes order net p = from (dial_endpoint p)
  where
    from :
        (e : Endpoint)
        → dials (start e order net p).1
          ≡ closes (start e order net p).1 + held (start e order net p).0
    from (no_endpoint e) = refl
    from (endpoint host port) =
        if-balance net.dial.connected _
          (balance _ ((prepare-IsTidy order net p).leaves (dialled ∷ [])))

one_dial : (r : Outcome Prepared × List Action) → Leaves r (dialled ∷ []) → dials r.1 ≤ 1
one_dial (ok c, log) (x, y) = omega (arith, y)
one_dial (err e, log) (x, y) = omega (arith, y)

-- At most one connection is dialled.
pub dials-open_prepared_conn :
    (order : MapOrder) (net : Network) (p : Profile) → dials (open_prepared_conn order net p).1 ≤ 1
unfolding open_prepared_conn
dials-open_prepared_conn order net p = from (dial_endpoint p)
  where
    from : (e : Endpoint) → dials (start e order net p).1 ≤ 1
    from (no_endpoint e) = omega arith
    from (endpoint host port) =
        if_holds (λ (r : Outcome Prepared × List Action). dials r.1 ≤ 1) net.dial.connected _ _
          (one_dial _ ((prepare-IsTidy order net p).leaves (dialled ∷ []))) (omega arith)
