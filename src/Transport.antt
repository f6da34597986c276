-- ===== src/Transport.antt =====
-- internal/transport/transport.go: the modes of a profile, the endpoint to dial, the texts that are
-- parsed, and the preparation of the connection. The proofs are in the modules below.
pub mod Probe
pub mod Stream
pub mod Prefix
pub mod Parsing
pub mod Render
pub mod Prepare
pub mod Modes
pub mod Dialing
pub mod Closing
pub mod Client
pub mod Order
mod Examples
mod StreamExamples
use Prim.Native.String.{String}
use ssc.Base.{
  ℕ, Bool, true, false, List, [], ◌∷◌, ◌++◌, Option, none, some, if◌then◌else◌, Bytes, codes, ℤ,
  pos, non_pos, is_empty, any, ◌||◌, text_eq, one_of, trim_space, to_lower, trim_by, lower,
}
use ssc.Config.Types.{Profile, Ssh, HttpProxyCfg, TlsCfg}

abbrev pub direct_names : List Bytes
direct_names = codes "direct" ∷ codes "ssh" ∷ codes "ssh_payload" ∷ codes "ssh+pl" ∷ []

abbrev pub proxy_names : List Bytes
proxy_names =
    codes "http_proxy"
    ∷ codes "ssh_http_proxy"
    ∷ codes "ssh+http"
    ∷ codes "ssh+http_proxy"
    ∷ codes "ssh+pl+http"
    ∷ []

abbrev pub tls_names : List Bytes
tls_names = codes "tls_sni" ∷ codes "sni" ∷ codes "ssh+sni" ∷ codes "ssh+pl+sni" ∷ []

abbrev pub proxy_tls_names : List Bytes
proxy_tls_names =
    codes "http_proxy_tls_sni"
    ∷ codes "http_tls"
    ∷ codes "ssh+http+sni"
    ∷ codes "ssh+pl+http+sni"
    ∷ []

-- `NormalizeMode`; the empty text is its answer to an unknown mode.
unfoldable pub normalize_mode : Bytes → Bytes
normalize_mode mode =
    let m = trim_space (to_lower mode) in
    if one_of m direct_names
    then codes "direct"
    else if one_of m proxy_names
    then codes "http_proxy"
    else if one_of m tls_names
    then codes "tls_sni"
    else if one_of m proxy_tls_names
    then codes "http_proxy_tls_sni"
    else []

abbrev pub device_names : List Bytes
device_names = [] ∷ codes "system" ∷ codes "device" ∷ codes "default" ∷ []

abbrev pub resolver_names : List Bytes
resolver_names = codes "google" ∷ codes "cloudflare" ∷ codes "custom" ∷ []

-- `NormalizeDNSMode`
unfoldable pub normalize_dns_mode : Bytes → Bytes
normalize_dns_mode mode =
    let m = to_lower (trim_space mode) in
    if one_of m device_names
    then codes "device"
    else if one_of m resolver_names
    then m
    else codes "device"

-- `contains`
unfoldable pub chain_has : List Bytes → Bytes → Bool
chain_has [] v = false
chain_has (x ∷ xs) v = text_eq x v || chain_has xs v

-- `UsesHTTPProxy`
unfoldable pub uses_http_proxy : Profile → Bool
unfolding chain_has
uses_http_proxy p =
    text_eq p.transport.mode (codes "http_proxy")
    || text_eq p.transport.mode (codes "http_proxy_tls_sni")
    || chain_has p.transport.chain (codes "http_proxy")

-- `UsesTLS`
unfoldable pub uses_tls : Profile → Bool
unfolding chain_has
uses_tls p =
    text_eq p.transport.mode (codes "tls_sni")
    || text_eq p.transport.mode (codes "http_proxy_tls_sni")
    || chain_has p.transport.chain (codes "tls")

pub data DialError : Type 0 where
  proxy_config_missing : DialError
  invalid_endpoint : Bytes → ℤ → DialError

pub data Endpoint : Type 0 where
  endpoint : Bytes → ℤ → Endpoint
  no_endpoint : DialError → Endpoint

abbrev pub check_endpoint : Bytes → ℤ → Endpoint
check_endpoint host port =
    if is_empty host || non_pos port
    then no_endpoint (invalid_endpoint host port)
    else endpoint host port

abbrev pub proxy_endpoint : Option HttpProxyCfg → Endpoint
proxy_endpoint none = no_endpoint proxy_config_missing
proxy_endpoint (some proxy) = check_endpoint proxy.host proxy.port

-- `dialEndpoint`
unfoldable pub dial_endpoint : Profile → Endpoint
dial_endpoint p =
    if uses_http_proxy p
    then proxy_endpoint p.transport.http_proxy
    else check_endpoint p.ssh.host p.ssh.port

-- `strings.EqualFold`
unfoldable pub equal_fold : Bytes → Bytes → Bool
equal_fold a b = text_eq (to_lower a) (to_lower b)
