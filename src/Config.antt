-- ===== src/Config.antt =====
-- internal/config/config.go: the daemon's configuration, its defaults and its normalisation. An
-- `int` whose sign the source tests is a ℤ. The proofs are in the modules below.
pub mod Types
pub mod Normal
pub mod Samples
mod Examples
pub mod Profiles
pub mod Slug
pub mod Files
use ssc.Base.{
  ℕ, ◌*◌, Bool, true, false, List, [], ◌∷◌, if◌then◌else◌, is_empty, Bytes, codes, ℤ, pos, non_pos,
}

pub record ModuleSection : Type 0 where
  pub name : Bytes
  pub work_dir : Bytes
  pub log_dir : Bytes
  pub manual_start : Bool

pub record ApiSection : Type 0 where
  pub enabled : Bool
  pub host : Bytes
  pub port : ℤ

pub record DnsSection : Type 0 where
  pub enabled : Bool
  pub mode : Bytes
  pub hijack : Bool
  pub doh : Bool
  pub servers : List Bytes
  pub timeout_sec : ℤ
  pub note : Bytes

pub record TransportSection : Type 0 where
  pub supported_modes : List Bytes
  pub payload_is_core : Bool

pub record LocalProxySection : Type 0 where
  pub socks_enabled : Bool
  pub socks_host : Bytes
  pub socks_port : ℤ

pub record TransparentSection : Type 0 where
  pub enabled : Bool
  pub tcp_port : ℤ
  pub chains_prefix : Bytes
  pub apply_after_ssh : Bool

pub record HotspotSection : Type 0 where
  pub enabled : Bool
  pub tcp : Bool
  pub dns : Bool
  pub interfaces : List Bytes

pub record PerformanceSection : Type 0 where
  pub buffer_size : ℤ
  pub connect_timeout_sec : ℤ
  pub keep_alive_sec : ℤ
  pub ssh_pool_size : ℤ
  pub max_streams_per_ssh : ℤ
  pub stream_idle_timeout_sec : ℤ
  pub verbose_transparent_logs : Bool
  pub memory_limit_mb : ℤ

pub record Config : Type 0 where
  pub module_info : ModuleSection
  pub api : ApiSection
  pub dns : DnsSection
  pub transport : TransportSection
  pub local_proxy : LocalProxySection
  pub transparent_proxy : TransparentSection
  pub hotspot : HotspotSection
  pub performance : PerformanceSection

abbrev pub default_interfaces : List Bytes
default_interfaces =
    codes "wlan+"
    ∷ codes "swlan+"
    ∷ codes "ap+"
    ∷ codes "rndis+"
    ∷ codes "ncm+"
    ∷ codes "bt-pan+"
    ∷ []

-- What `DefaultConfig` does not set is Go's zero value.
unfoldable pub default_config : Config
default_config = record {
  module_info = record {
    name = codes "SSHCustom-Magisk";
    work_dir = codes "/data/adb/sshcustom";
    log_dir = codes "/data/adb/sshcustom/run";
    manual_start = true;
  };
  api = record { enabled = true; host = codes "127.0.0.1"; port = pos 9190 };
  dns = record {
    enabled = false;
    mode = codes "device";
    hijack = false;
    doh = false;
    servers = [];
    timeout_sec = pos 4;
    note = [];
  };
  transport = record {
    supported_modes =
        codes "direct" ∷ codes "http_proxy" ∷ codes "tls_sni" ∷ codes "http_proxy_tls_sni" ∷ [];
    payload_is_core = true;
  };
  local_proxy = record {
    socks_enabled = true;
    socks_host = codes "127.0.0.1";
    socks_port = pos 1080;
  };
  transparent_proxy = record {
    enabled = true;
    tcp_port = pos 10810;
    chains_prefix = codes "SSHC";
    apply_after_ssh = true;
  };
  hotspot = record { enabled = true; tcp = true; dns = false; interfaces = default_interfaces };
  performance = record {
    buffer_size = pos 131072;
    connect_timeout_sec = pos 25;
    keep_alive_sec = pos 15;
    ssh_pool_size = pos 1;
    max_streams_per_ssh = pos 256;
    stream_idle_timeout_sec = pos 120;
    verbose_transparent_logs = false;
    memory_limit_mb = pos 0;
  };
}

-- `if x <= 0 { x = d }`
unfoldable pub or_default : ℤ → ℕ → ℤ
or_default x d = if non_pos x then pos d else x

-- `if x == "" { x = d }`
unfoldable pub or_text : Bytes → Bytes → Bytes
or_text x d = if is_empty x then d else x

unfoldable pub or_list : List Bytes → List Bytes → List Bytes
or_list x d = if is_empty x then d else x

-- `Normalize`
unfoldable pub normalize : Config → Config
unfolding or_default or_text or_list
normalize c = record c {
  dns = record c.dns {
    mode = or_text c.dns.mode (codes "device");
    timeout_sec = or_default c.dns.timeout_sec 4;
  };
  hotspot = record c.hotspot { interfaces = or_list c.hotspot.interfaces default_interfaces };
  transparent_proxy = record c.transparent_proxy {
    tcp_port = or_default c.transparent_proxy.tcp_port 10810;
    chains_prefix = or_text c.transparent_proxy.chains_prefix (codes "SSHC");
  };
  performance = record c.performance {
    buffer_size = or_default c.performance.buffer_size (128 * 1024);
    keep_alive_sec = or_default c.performance.keep_alive_sec 15;
    connect_timeout_sec = or_default c.performance.connect_timeout_sec 20;
    max_streams_per_ssh = or_default c.performance.max_streams_per_ssh 256;
    stream_idle_timeout_sec = or_default c.performance.stream_idle_timeout_sec 120;
  };
  local_proxy = record c.local_proxy { socks_port = or_default c.local_proxy.socks_port 1080 };
}

-- `SecondsDefault`
unfoldable pub seconds_default : ℤ → ℕ → ℤ
seconds_default v d = if non_pos v then pos d else v
