-- ===== src/Transport/Prepare.antt =====
-- internal/transport/transport.go: `httpCONNECT` and `openPreparedConn`. What the
-- network does is a record of outcomes; what the code does to the connection is a list of actions.
use ssc.Base.{
  ℕ, Bool, false, List, [], ◌∷◌, ◌++◌, Option, none, some, if◌then◌else◌, Bytes, codes, ℤ, pos,
  int_eq, lt_nat, gt_nat, is_empty, any, ◌||◌, ◌&&◌, not, index, drop,
}
use ssc.Base.Decimal.{int_text}
use ssc.Config.Types.{Profile, HttpProxyCfg, TlsCfg}
use ssc.Socks5.Server.{join_host_port}
use ssc.Transport.{
  uses_http_proxy, uses_tls, dial_endpoint, Endpoint, endpoint, no_endpoint, DialError, equal_fold,
}
use ssc.Transport.Render.{MapOrder, render_payload, preview}
use ssc.Transport.Parsing.{
  extract_http_statuses, extract_ssh_banner, allowed_statuses, effective_allowed,
}

pub data ConnectIo : Type 0 where
  connect_write_failed connect_read_failed : ConnectIo
  connect_response : Bytes → ConnectIo

pub data ProbeIo : Type 0 where
  probe_failed : ProbeIo
  probed : Bytes → ProbeIo

-- What `dialTCPResolved` returns beside the connection or the error.
pub record Resolved : Type 0 where
  pub connected : Bool
  pub address : Bytes
  pub method : Bytes
  pub ips : List Bytes

pub record Network : Type 0 where
  pub dial : Resolved
  pub connect : ConnectIo
  pub tls_handshake : Bool
  pub payload_written : Bool
  pub probe : ProbeIo

pub data Action : Type 0 where
  dialled : Action
  sent_connect : Bytes → Action
  wrapped_tls : Bytes → Action
  sent_payload : Bytes → Action
  evicted : Bytes → Action
  closed : Action

pub data PrepareError : Type 0 where
  bad_endpoint : DialError → PrepareError
  tcp_dial_failed connect_failed no_connect_status tls_config_missing tls_failed : PrepareError
  bad_connect_status : ℤ → PrepareError
  payload_write_failed payload_read_failed no_banner : PrepareError
  status_not_allowed : List ℤ → PrepareError

-- The connection that `openPreparedConn` returns: the bytes that are read before those of the
-- socket, and the probe's result.
pub record Prepared : Type 0 where
  pub prefix : Bytes
  pub banner : Bytes
  pub statuses : List ℤ
  pub preview_text : Bytes
  pub resolved : Resolved

pub data Outcome (A : Type 0) : Type 0 where
  ok : A → Outcome A
  err : PrepareError → Outcome A

-- Code that acts on the connection; the actions are collected in order.
abbrev pub M : Type 0 → Type 0
M A = List Action → Outcome A × List Action

abbrev pub continue : {A B : Type 0} → Outcome A → (A → M B) → M B
continue (ok a) f log = f a log
continue (err e) f log = (err e, log)

infixl 5 ◌>>=◌ ◌>>◌
abbrev pub ◌>>=◌ : {A B : Type 0} → M A → (A → M B) → M B
◌>>=◌ m f log = let r = m log in continue r.0 f r.1

abbrev pub ◌>>◌ : {B : Type 0} → M (Unit {0}) → M B → M B
m >> k = m >>= λ _. k

abbrev pub pure : {A : Type 0} → A → M A
pure a log = (ok a, log)

abbrev pub act : Action → M (Unit {0})
act a log = (ok tt, log ++ a ∷ [])

-- `conn.Close()` and the return of an error
abbrev pub close_with : {A : Type 0} → PrepareError → M A
close_with e log = (err e, log ++ closed ∷ [])

-- the error of an answer's first status, if there is one
unfoldable pub connect_status : List ℤ → Option PrepareError
connect_status [] = some no_connect_status
connect_status (n ∷ more) =
    if lt_nat n 200 || gt_nat n 299 then some (bad_connect_status n) else none

abbrev pub close_on : Option PrepareError → M (Unit {0})
close_on none = pure tt
close_on (some e) = close_with e

abbrev pub connect_answer : ConnectIo → M (Unit {0})
connect_answer connect_write_failed = close_with connect_failed
connect_answer connect_read_failed = close_with connect_failed
connect_answer (connect_response data_read) =
    close_on (connect_status (extract_http_statuses data_read))

-- the request of `httpCONNECT`
unfoldable pub connect_text : Bytes → Bytes
connect_text target =
    let crlf = b'\r' ∷ b'\n' ∷ [] in
    codes "CONNECT "
    ++ target
    ++ codes " HTTP/1.1"
    ++ crlf
    ++ codes "Host: "
    ++ target
    ++ crlf
    ++ codes "Proxy-Connection: Keep-Alive"
    ++ crlf
    ++ crlf

-- `httpCONNECT`, and the closing on its error
unfoldable pub http_connect : Network → Profile → M (Unit {0})
unfolding connect_status connect_text
http_connect net p = do
  act (sent_connect (connect_text (join_host_port p.ssh.host (int_text p.ssh.port))))
  connect_answer net.connect

abbrev is_connect : Option HttpProxyCfg → Bool
is_connect none = false
is_connect (some h) = equal_fold h.connect_method (codes "connect")

unfoldable pub wants_connect : Profile → Bool
wants_connect p = uses_http_proxy p && is_connect p.transport.http_proxy

abbrev pub sni_or_host : TlsCfg → Profile → Bytes
sni_or_host t p = if is_empty t.server_name then p.ssh.host else t.server_name

abbrev pub with_tls : Option TlsCfg → Network → Profile → M (Unit {0})
with_tls none net p = close_with tls_config_missing
with_tls (some t) net p = do
  act (wrapped_tls (sni_or_host t p))
  if net.tls_handshake then pure tt else close_with tls_failed

-- the TLS part
unfoldable pub wrap_tls : Network → Profile → M (Unit {0})
wrap_tls net p = if uses_tls p then with_tls p.transport.tls net p else pure tt

abbrev pub probe_response : ProbeIo → M Bytes
probe_response probe_failed = close_with payload_read_failed
probe_response (probed b) = pure b

-- the payload part: the bytes that were read
unfoldable pub inject_payload : MapOrder → Network → Profile → M Bytes
inject_payload order net p =
    if p.transport.payload.enabled
    then (do
      act (sent_payload (render_payload order p.transport.payload.template p))
      if net.payload_written then pure tt else close_with payload_write_failed
      if p.transport.payload.read_response then probe_response net.probe else pure [])
    else pure []

-- `DNS cache evicted` for one of the statuses that a CDN's rate limit gives
unfoldable pub is_rate_limit : ℤ → Bool
is_rate_limit n = int_eq n (pos 302) || int_eq n (pos 301) || int_eq n (pos 503)

abbrev pub evict_proxy : Option HttpProxyCfg → M (Unit {0})
evict_proxy none = pure tt
evict_proxy (some h) = act (evicted h.host)

abbrev pub evict_hosts : Profile → M (Unit {0})
evict_hosts p = do act (evicted p.ssh.host); evict_proxy p.transport.http_proxy

abbrev pub await_banner : Profile → List ℤ → M Bytes
await_banner p [] = close_with no_banner
await_banner p (n ∷ more) =
    if any is_rate_limit (n ∷ more) then evict_hosts p >> pure [] else pure []

abbrev pub banner_prefix : Bytes → Option ℕ → Bytes → Profile → List ℤ → M Bytes
banner_prefix [] idx all p statuses = await_banner p statuses
banner_prefix (c ∷ banner) none all p statuses = await_banner p statuses
banner_prefix (c ∷ banner) (some idx) all p statuses = pure (drop idx all)

-- the bytes that the SSH handshake reads first
unfoldable pub expose_banner : Profile → Bytes → List ℤ → M Bytes
expose_banner p all statuses =
    if p.transport.payload.enabled && p.transport.payload.read_response
    then banner_prefix (extract_ssh_banner all) (index all (codes "SSH-")) all p statuses
    else pure []

unfoldable pub check_statuses : Profile → List ℤ → M (Unit {0})
check_statuses p statuses =
    if not (is_empty statuses)
      && not (allowed_statuses statuses (effective_allowed p.transport.payload.allow_statuses))
    then close_with (status_not_allowed statuses)
    else pure tt

-- what follows a successful dial
unfoldable pub prepare : MapOrder → Network → Profile → M Prepared
prepare order net p = do
  if wants_connect p then http_connect net p else pure tt
  wrap_tls net p
  all ← inject_payload order net p
  let statuses = extract_http_statuses all
  check_statuses p statuses
  first ← expose_banner p all statuses
  pure (record {
    prefix = first;
    banner = extract_ssh_banner all;
    statuses = statuses;
    preview_text = preview all;
    resolved = net.dial;
  })

abbrev pub start : Endpoint → MapOrder → Network → Profile → Outcome Prepared × List Action
start (no_endpoint e) order net p = (err (bad_endpoint e), [])
start (endpoint host port) order net p =
    if net.dial.connected then prepare order net p (dialled ∷ []) else (err tcp_dial_failed, [])

-- `openPreparedConn`
unfoldable pub open_prepared_conn : MapOrder → Network → Profile → Outcome Prepared × List Action
open_prepared_conn order net p = start (dial_endpoint p) order net p
