-- ===== src/Config/Normal.antt =====
-- What `Normalize` guarantees.
use ssc.Base.{
  ℕ, suc, ◌≡◌, refl, false, List, [], ◌∷◌, is_empty, arith, Bytes, ℤ, pos, negsuc, zero, non_pos,
}
use ssc.Config.{Config, normalize, or_default, or_text, or_list}

-- Every field that the daemon divides by, listens on or waits for is set.
pub record IsNormal (c : Config) : Type 0 where
  pub dns_mode : is_empty c.dns.mode ≡ false
  pub dns_timeout : non_pos c.dns.timeout_sec ≡ false
  pub interfaces : is_empty c.hotspot.interfaces ≡ false
  pub tcp_port : non_pos c.transparent_proxy.tcp_port ≡ false
  pub prefix : is_empty c.transparent_proxy.chains_prefix ≡ false
  pub buffer : non_pos c.performance.buffer_size ≡ false
  pub keep_alive : non_pos c.performance.keep_alive_sec ≡ false
  pub connect : non_pos c.performance.connect_timeout_sec ≡ false
  pub streams : non_pos c.performance.max_streams_per_ssh ≡ false
  pub idle : non_pos c.performance.stream_idle_timeout_sec ≡ false
  pub socks_port : non_pos c.local_proxy.socks_port ≡ false

non_pos-or_default : (x : ℤ) (d : ℕ) → non_pos (or_default x (suc d)) ≡ false
unfolding or_default
non_pos-or_default (pos zero) d = refl
non_pos-or_default (pos (suc n)) d = refl
non_pos-or_default (negsuc n) d = refl

is_empty-or_text : (x : Bytes) (c : ℕ) (d : Bytes) → is_empty (or_text x (c ∷ d)) ≡ false
unfolding or_text
is_empty-or_text [] c d = refl
is_empty-or_text (_ ∷ _) c d = refl

is_empty-or_list :
    (x : List Bytes) (c : Bytes) (d : List Bytes) → is_empty (or_list x (c ∷ d)) ≡ false
unfolding or_list
is_empty-or_list [] c d = refl
is_empty-or_list (_ ∷ _) c d = refl

-- Whatever the file held, the normalised configuration has a positive value or a non-empty text in
-- each field that `Normalize` looks at.
pub normalize-IsNormal : (c : Config) → IsNormal (normalize c)
unfolding normalize
normalize-IsNormal c = record {
  dns_mode = is_empty-or_text c.dns.mode _ _;
  dns_timeout = non_pos-or_default c.dns.timeout_sec _;
  interfaces = is_empty-or_list c.hotspot.interfaces _ _;
  tcp_port = non_pos-or_default c.transparent_proxy.tcp_port _;
  prefix = is_empty-or_text c.transparent_proxy.chains_prefix _ _;
  buffer = non_pos-or_default c.performance.buffer_size _;
  keep_alive = non_pos-or_default c.performance.keep_alive_sec _;
  connect = non_pos-or_default c.performance.connect_timeout_sec _;
  streams = non_pos-or_default c.performance.max_streams_per_ssh _;
  idle = non_pos-or_default c.performance.stream_idle_timeout_sec _;
  socks_port = non_pos-or_default c.local_proxy.socks_port _;
}

-- A normal configuration is left as it is.
pub normalize-eq_self : (c : Config) → IsNormal c → normalize c ≡ c
unfolding normalize
normalize-eq_self c h = ground arith

-- Normalising twice is normalising once.
pub normalize_idempotent : (c : Config) → normalize (normalize c) ≡ normalize c
normalize_idempotent c = normalize-eq_self (normalize c) (normalize-IsNormal c)
