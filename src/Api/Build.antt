-- ===== src/Api/Build.antt =====
-- internal/api/api.go: `buildTransport`, which completes the transport of a saved profile.
use ssc.Base.{
  Bool, true, List, [], ◌∷◌, ◌++◌, Option, none, some, if◌then◌else◌, Bytes, codes, ℤ, pos, non_pos,
  int_eq, is_empty, ◌||◌, ◌&&◌, text_eq,
}
use ssc.Config.Types.{Ssh, HttpProxyCfg, TlsCfg, PayloadCfg, Transport}

abbrev pub needs_proxy : Bytes → Bool
needs_proxy mode = text_eq mode (codes "http_proxy") || text_eq mode (codes "http_proxy_tls_sni")

abbrev pub needs_tls : Bytes → Bool
needs_tls mode = text_eq mode (codes "tls_sni") || text_eq mode (codes "http_proxy_tls_sni")

unfoldable pub send_timing : Bytes → Bytes
send_timing mode =
    if text_eq mode (codes "http_proxy")
    then codes "after_proxy_socket_before_ssh"
    else if needs_tls mode
    then codes "after_tls_before_ssh"
    else codes "before_ssh"

unfoldable pub build_payload : Bytes → PayloadCfg → PayloadCfg
unfolding send_timing
build_payload mode payload = record payload {
  send_timing = if is_empty payload.send_timing then send_timing mode else payload.send_timing;
  allow_statuses =
      if is_empty payload.allow_statuses
      then pos 101 ∷ pos 200 ∷ pos 204 ∷ pos 301 ∷ pos 302 ∷ []
      else payload.allow_statuses;
}

abbrev pub given_proxy : Option HttpProxyCfg → Ssh → HttpProxyCfg
given_proxy none ssh = record {
  host = ssh.host;
  port = ssh.port;
  connect_method = codes "socket";
  fallback_ips = [];
}
given_proxy (some hp) ssh = hp

abbrev pub tls_port : Bytes → ℤ → ℤ
tls_port mode port =
    if text_eq mode (codes "http_proxy_tls_sni") && int_eq port (pos 80) then pos 443 else port

unfoldable pub build_proxy : Bytes → Option HttpProxyCfg → Ssh → HttpProxyCfg
build_proxy mode hp ssh =
    let proxy = given_proxy hp ssh in
    record proxy {
      host = if is_empty proxy.host then ssh.host else proxy.host;
      port = tls_port mode (if non_pos proxy.port then ssh.port else proxy.port);
      connect_method =
          if is_empty proxy.connect_method then codes "socket" else proxy.connect_method;
    }

abbrev pub given_tls : Option TlsCfg → Ssh → TlsCfg
given_tls none ssh = record {
  enabled = true;
  server_name = ssh.host;
  insecure_skip_verify = true;
  alpn = codes "http/1.1" ∷ [];
}
given_tls (some t) ssh = t

unfoldable pub build_tls : Option TlsCfg → Ssh → TlsCfg
build_tls tls_cfg ssh =
    let tc = given_tls tls_cfg ssh in
    record tc {
      enabled = true;
      server_name = if is_empty tc.server_name then ssh.host else tc.server_name;
      alpn = if is_empty tc.alpn then codes "http/1.1" ∷ [] else tc.alpn;
    }

abbrev pub part : Bool → Bytes → List Bytes
part b name = if b then name ∷ [] else []

unfoldable pub build_chain : Bytes → Bool → List Bytes
build_chain mode payload_enabled =
    codes "tcp" ∷ part (needs_proxy mode) (codes "http_proxy")
    ++ part (needs_tls mode) (codes "tls")
    ++ part payload_enabled (codes "payload")
    ++ codes "ssh" ∷ []

-- `buildTransport`
unfoldable pub build_transport :
    Bytes → PayloadCfg → Option HttpProxyCfg → Option TlsCfg → Ssh → Transport
unfolding build_payload build_proxy build_tls build_chain
build_transport mode payload hp tls_cfg ssh = record {
  mode = mode;
  chain = build_chain mode payload.enabled;
  http_proxy = if needs_proxy mode then some (build_proxy mode hp ssh) else none;
  tls = if needs_tls mode then some (build_tls tls_cfg ssh) else none;
  payload = build_payload mode payload;
}
