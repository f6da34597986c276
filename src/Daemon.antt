-- ===== src/Daemon.antt =====
-- cmd/sshcustomd/main.go: the helpers on the configuration and on the arguments. The loop of the
-- tunnel and the life of the tunnel are in the modules below.
pub mod Loop
pub mod Reconnect
pub mod Returns
pub mod Rules
pub mod Lifecycle
pub mod DnsForward
pub mod Address
pub mod Target
pub mod Released
pub mod Transparent
pub mod Answers
pub mod OneLoop
pub mod Route
pub mod ModuleProp
pub mod Described
pub mod Shown
mod Examples
mod ServiceExamples
mod RouteExamples
use Prim.Native.String.{String}
use ssc.Base.{
  Bool, true, false, List, [], ◌∷◌, ◌++◌, Bytes, codes, ℤ, pos, non_pos, is_empty, ◌&&◌,
  if◌then◌else◌, text_eq,
}
use ssc.Base.Decimal.{int_text}
use ssc.Config.{Config}
use ssc.Iptables.Rules.{RulesConfig}

-- `flagArg`
unfoldable pub flag_arg : List Bytes → Bytes → Bytes → Bytes
flag_arg [] flag def = def
flag_arg (a ∷ []) flag def = def
flag_arg (a ∷ b ∷ args) flag def =
    let rest = flag_arg (b ∷ args) flag def in if text_eq a flag then b else rest

-- `hasFlag`
unfoldable pub has_flag : List Bytes → Bytes → Bool
has_flag [] flag = false
has_flag (a ∷ args) flag = let rest = has_flag args flag in if text_eq a flag then true else rest

-- `socksAddr`
unfoldable pub socks_addr : Config → Bytes
socks_addr cfg =
    let host = cfg.local_proxy.socks_host in
    let port = cfg.local_proxy.socks_port in
    (if is_empty host then codes "127.0.0.1" else host)
    ++ b':' ∷ int_text (if non_pos port then pos 1080 else port)

-- `transparentAddr`
unfoldable pub transparent_addr : Config → Bytes
transparent_addr cfg =
    let port = cfg.transparent_proxy.tcp_port in
    codes "0.0.0.0:" ++ int_text (if non_pos port then pos 10810 else port)

abbrev pub dns_forward_port : ℤ
dns_forward_port = pos 5353

-- `iptablesCfg`
unfoldable pub iptables_cfg : Config → RulesConfig
iptables_cfg cfg = record {
  chains_prefix = cfg.transparent_proxy.chains_prefix;
  tcp_port = cfg.transparent_proxy.tcp_port;
  api_port = cfg.api.port;
  socks_port = cfg.local_proxy.socks_port;
  dns_forward_port = dns_forward_port;
  dns_hijack = cfg.dns.enabled && cfg.dns.hijack;
  hotspot = cfg.hotspot.enabled && cfg.hotspot.tcp;
  hotspot_dns = cfg.hotspot.enabled && cfg.hotspot.dns;
  hotspot_ifaces = cfg.hotspot.interfaces;
}
