-- ===== src/Transport/Order.antt =====
-- `openPreparedConn` acts on the connection in a fixed order: CONNECT, TLS, payload, and at last the
-- eviction of DNS entries or the closing.
use ssc.Base.{
  ℕ, ◌≤◌, Bool, true, false, List, [], ◌∷◌, ◌++◌, Option, none, some, Bytes, ℤ, arith,
  if◌then◌else◌, any, index, drop,
}
use ssc.Config.Types.{Profile, HttpProxyCfg, TlsCfg}
use ssc.Transport.{Endpoint, endpoint, no_endpoint, dial_endpoint, uses_tls}
use ssc.Transport.Parsing.{extract_ssh_banner}
use ssc.Transport.Prepare.{
  Network, Action, dialled, sent_connect, wrapped_tls, sent_payload, evicted, closed, PrepareError,
  ConnectIo, connect_write_failed, connect_read_failed, connect_response, ProbeIo, probe_failed,
  probed, Prepared, Outcome, ok, err, M, continue, ◌>>=◌, pure, act, close_with, close_on,
  http_connect, connect_answer, wants_connect, wrap_tls, with_tls, sni_or_host, inject_payload,
  probe_response, is_rate_limit, expose_banner, banner_prefix, await_banner, evict_proxy,
  check_statuses, prepare, open_prepared_conn, start, tcp_dial_failed, connect_failed, tls_failed,
  tls_config_missing, payload_write_failed, payload_read_failed, no_banner,
}
use ssc.Transport.Render.{MapOrder, render_payload}

-- the place of an action in the order
abbrev pub rank : Action → ℕ
rank dialled = 1
rank (sent_connect _) = 2
rank (wrapped_tls _) = 3
rank (sent_payload _) = 4
rank (evicted _) = 5
rank closed = 6

-- The ranks never fall, starting from `lo` and ending at `hi` at most.
abbrev pub InOrder : ℕ → List Action → ℕ → Type 0
InOrder lo [] hi = lo ≤ hi
InOrder lo (a ∷ log) hi = (lo ≤ rank a) × InOrder (rank a) log hi

InOrder-append :
    (lo : ℕ) (log : List Action) (hi : ℕ) (a : Action)
    → hi ≤ rank a
    → InOrder lo log hi
    → InOrder lo (log ++ a ∷ []) (rank a)
InOrder-append lo [] hi a h k = (omega (arith, h, k), omega arith)
InOrder-append lo (b ∷ log) hi a h (k, ks) = (k, InOrder-append (rank b) log hi a h ks)

InOrder-weaken :
    (lo : ℕ) (log : List Action) (hi top : ℕ) → hi ≤ top → InOrder lo log hi → InOrder lo log top
InOrder-weaken lo [] hi top h k = omega (arith, h, k)
InOrder-weaken lo (a ∷ log) hi top h (k, ks) = (k, InOrder-weaken (rank a) log hi top h ks)

abbrev Ends : {A : Type 0} → Outcome A × List Action → ℕ → Type 0
Ends (ok a, log) hi = InOrder 0 log hi
Ends (err e, log) hi = InOrder 0 log 6

-- After actions of at most rank `lo`, the code adds actions of at most rank `hi`.
record IsStage {A : Type 0} (m : M A) (lo hi : ℕ) : Type 0 where
  ends : (log : List Action) → InOrder 0 log lo → Ends (m log) hi

pure-IsStage : {A : Type 0} (a : A) (lo hi : ℕ) → lo ≤ hi → IsStage (pure a) lo hi
pure-IsStage a lo hi h = record { ends = λ log k. InOrder-weaken 0 log lo hi h k }

close_with-IsStage :
    {A : Type 0} (e : PrepareError) (lo hi : ℕ) → lo ≤ 6 → IsStage {A = A} (close_with e) lo hi
close_with-IsStage e lo hi h = record { ends = λ log k. InOrder-append 0 log lo closed h k }

act-IsStage : (a : Action) (lo hi : ℕ) → lo ≤ rank a → rank a ≤ hi → IsStage (act a) lo hi
act-IsStage a lo hi h k = record {
  ends = λ log o. InOrder-weaken 0 (log ++ a ∷ []) (rank a) hi k (InOrder-append 0 log lo a h o);
}

bind-IsStage :
    {A B : Type 0} (m : M A) (f : A → M B) (lo mid hi : ℕ)
    → IsStage m lo mid
    → ((a : A) → IsStage (f a) mid hi)
    → IsStage (m >>= f) lo hi
bind-IsStage {A = A} m f lo mid hi h k = record { ends = λ log o. follow (m log) (h.ends log o) }
  where
    follow : (r : Outcome A × List Action) → Ends r mid → Ends (continue r.0 f r.1) hi
    follow (ok a, log) o = (k a).ends log o
    follow (err e, log) o = o

if-IsStage :
    {A : Type 0} (b : Bool) (m n : M A) (lo hi : ℕ)
    → IsStage m lo hi
    → IsStage n lo hi
    → IsStage (if b then m else n) lo hi
if-IsStage true m n lo hi h k = h
if-IsStage false m n lo hi h k = k

http_connect-IsStage : (net : Network) (p : Profile) → IsStage (http_connect net p) 1 2
unfolding http_connect
http_connect-IsStage net p =
    bind-IsStage _ _ 1 2 2 (act-IsStage _ 1 2 (omega arith) (omega arith)) (λ _. reply net.connect)
  where
    status : (o : Option PrepareError) → IsStage (close_on o) 2 2
    status none = pure-IsStage tt 2 2 (omega arith)
    status (some e) = close_with-IsStage e 2 2 (omega arith)

    reply : (io : ConnectIo) → IsStage (connect_answer io) 2 2
    reply connect_write_failed = close_with-IsStage connect_failed 2 2 (omega arith)
    reply connect_read_failed = close_with-IsStage connect_failed 2 2 (omega arith)
    reply (connect_response b) = status _

wrap_tls-IsStage : (net : Network) (p : Profile) → IsStage (wrap_tls net p) 2 3
unfolding wrap_tls
wrap_tls-IsStage net p =
    if-IsStage (uses_tls p) _ _ 2 3 (wrap p.transport.tls) (pure-IsStage tt 2 3 (omega arith))
  where
    wrap : (t : Option TlsCfg) → IsStage (with_tls t net p) 2 3
    wrap none = close_with-IsStage tls_config_missing 2 3 (omega arith)
    wrap (some t) =
        bind-IsStage (act (wrapped_tls (sni_or_host t p)))
          (λ _. if net.tls_handshake then pure tt else close_with tls_failed) 2 3 3
          (act-IsStage (wrapped_tls (sni_or_host t p)) 2 3 (omega arith) (omega arith))
          (λ _.
            if-IsStage net.tls_handshake (pure tt) (close_with tls_failed) 3 3
              (pure-IsStage tt 3 3 (omega arith)) (close_with-IsStage tls_failed 3 3 (omega arith)))

inject_payload-IsStage :
    (order : MapOrder) (net : Network) (p : Profile) → IsStage (inject_payload order net p) 3 4
unfolding inject_payload
inject_payload-IsStage order net p =
    if-IsStage p.transport.payload.enabled _ _ 3 4
      (bind-IsStage _ _ 3 4 4
        (act-IsStage (sent_payload (render_payload order p.transport.payload.template p)) 3 4
          (omega arith) (omega arith))
        (λ _.
          bind-IsStage _ _ 4 4 4
            (if-IsStage net.payload_written _ _ 4 4 (pure-IsStage tt 4 4 (omega arith))
              (close_with-IsStage payload_write_failed 4 4 (omega arith)))
            (λ _.
              if-IsStage p.transport.payload.read_response _ _ 4 4 (read net.probe)
                (pure-IsStage [] 4 4 (omega arith)))))
      (pure-IsStage [] 3 4 (omega arith))
  where
    read : (io : ProbeIo) → IsStage (probe_response io) 4 4
    read probe_failed = close_with-IsStage payload_read_failed 4 4 (omega arith)
    read (probed b) = pure-IsStage b 4 4 (omega arith)

check_statuses-IsStage : (p : Profile) (statuses : List ℤ) → IsStage (check_statuses p statuses) 4 4
unfolding check_statuses
check_statuses-IsStage p statuses =
    if-IsStage _ _ _ 4 4 (close_with-IsStage _ 4 4 (omega arith))
      (pure-IsStage tt 4 4 (omega arith))

evict_proxy-IsStage : (h : Option HttpProxyCfg) → IsStage (evict_proxy h) 5 5
evict_proxy-IsStage none = pure-IsStage tt 5 5 (omega arith)
evict_proxy-IsStage (some h) = act-IsStage (evicted h.host) 5 5 (omega arith) (omega arith)

await_banner-IsStage : (p : Profile) (statuses : List ℤ) → IsStage (await_banner p statuses) 4 5
await_banner-IsStage p [] = close_with-IsStage no_banner 4 5 (omega arith)
await_banner-IsStage p (n ∷ more) =
    if-IsStage (any is_rate_limit (n ∷ more)) _ _ 4 5
      (bind-IsStage _ _ 4 5 5
        (bind-IsStage _ _ 4 5 5 (act-IsStage (evicted p.ssh.host) 4 5 (omega arith) (omega arith))
          (λ _. evict_proxy-IsStage p.transport.http_proxy))
        (λ _. pure-IsStage [] 5 5 (omega arith)))
      (pure-IsStage [] 4 5 (omega arith))

expose_banner-IsStage :
    (p : Profile) (all : Bytes) (statuses : List ℤ) → IsStage (expose_banner p all statuses) 4 5
unfolding expose_banner
expose_banner-IsStage p all statuses =
    if-IsStage _ _ _ 4 5 (banner (extract_ssh_banner all) (index all _))
      (pure-IsStage [] 4 5 (omega arith))
  where
    banner : (b : Bytes) (idx : Option ℕ) → IsStage (banner_prefix b idx all p statuses) 4 5
    banner [] idx = await_banner-IsStage p statuses
    banner (c ∷ b) none = await_banner-IsStage p statuses
    banner (c ∷ b) (some i) = pure-IsStage (drop i all) 4 5 (omega arith)

prepare-IsStage :
    (order : MapOrder) (net : Network) (p : Profile) → IsStage (prepare order net p) 1 5
unfolding prepare
prepare-IsStage order net p =
    bind-IsStage _ _ 1 2 5
      (if-IsStage (wants_connect p) _ _ 1 2 (http_connect-IsStage net p)
        (pure-IsStage tt 1 2 (omega arith)))
      (λ _. bind-IsStage _ _ 2 3 5 (wrap_tls-IsStage net p) (λ _.
        bind-IsStage _ _ 3 4 5 (inject_payload-IsStage order net p) (λ all.
          bind-IsStage _ _ 4 4 5 (check_statuses-IsStage p _) (λ _.
            bind-IsStage _ _ 4 5 5 (expose_banner-IsStage p all _)
              (λ first. pure-IsStage _ 5 5 (omega arith))))))

Ends-InOrder : (r : Outcome Prepared × List Action) → Ends r 5 → InOrder 0 r.1 6
Ends-InOrder (ok c, log) h = InOrder-weaken 0 log 5 6 (omega arith) h
Ends-InOrder (err e, log) h = h

if-InOrder :
    (b : Bool) (r : Outcome Prepared × List Action)
    → InOrder 0 r.1 6
    → InOrder 0 (if b then r else (err tcp_dial_failed, [])).1 6
if-InOrder true r h = h
if-InOrder false r h = omega arith

-- However the network behaves, the actions come in the order dial, CONNECT, TLS, payload, eviction of
-- DNS entries, closing: the payload is never sent before TLS is asked for, and nothing but a closing
-- follows a closing.
pub open_prepared_conn-InOrder :
    (order : MapOrder) (net : Network) (p : Profile)
    → InOrder 0 (open_prepared_conn order net p).1 6
unfolding open_prepared_conn
open_prepared_conn-InOrder order net p = from (dial_endpoint p)
  where
    from : (e : Endpoint) → InOrder 0 (start e order net p).1 6
    from (no_endpoint e) = omega arith
    from (endpoint host port) = if-InOrder net.dial.connected (prepare order net p (dialled ∷ [])) (
        Ends-InOrder (prepare order net p (dialled ∷ []))
          ((prepare-IsStage order net p).ends (dialled ∷ []) (omega arith, omega arith)))
