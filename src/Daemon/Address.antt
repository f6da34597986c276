-- ===== src/Daemon/Address.antt =====
-- cmd/sshcustomd/platform_linux.go and transparent.go: the original destination of a redirected
-- connection as a text, and the test for a local target.
use ssc.Base.{
  ℕ, zero, suc, ◌+◌, ◌*◌, ◌/◌, ◌%◌, Bool, true, false, [], ◌∷◌, Option, none, some, Bytes, ◌==◌,
  ◌||◌, any, if◌then◌else◌, ℤ, pos, negsuc,
}
use ssc.Base.Decimal.{itoa, atoi}
use ssc.Config.{Config}
use ssc.Net.{split_host_port, IpFacts, parse_ip}
use ssc.Socks5.Server.{ipv4_text, join_host_port}

-- `p > 0 && port == p`
abbrev pub is_port : ℕ → ℤ → Bool
is_port port (pos zero) = false
is_port port (pos (suc n)) = port == suc n
is_port port (negsuc n) = false

-- the ports that the daemon itself listens on
abbrev pub is_own_port : ℕ → Config → Bool
is_own_port port cfg =
    any (is_port port)
      (cfg.api.port ∷ cfg.local_proxy.socks_port ∷ cfg.transparent_proxy.tcp_port ∷ [])

abbrev pub by_ip : Option IpFacts → ℕ → Config → Bool
by_ip none port cfg = false
by_ip (some ip) port cfg = is_own_port port cfg || ip.loopback || ip.unspecified || ip.multicast

-- the number of `Atoi`, 0 for a text that is none; a port as `originalDst` writes it has no sign
abbrev pub or_zero : Option ℕ → ℕ
or_zero none = 0
or_zero (some n) = n

-- The parsing of an IPv6 address is a parameter.
module _ (parse_ipv6 : Bytes → Option IpFacts) where
  abbrev pub by_parts : Option (Bytes × Bytes) → Config → Bool
  by_parts none cfg = true
  by_parts (some (host, port)) cfg = by_ip (parse_ip parse_ipv6 host) (or_zero (atoi port)) cfg

  -- `isLocalTarget`
  unfoldable pub is_local_target : Bytes → Config → Bool
  is_local_target target cfg = by_parts (split_host_port target) cfg

-- The answer of the kernel: the family, the port with its bytes swapped, and the address.
pub record RawSockaddr : Type 0 where
  pub family : ℕ
  pub port : ℕ
  pub addr : Bytes

abbrev pub af_inet : ℕ
af_inet = 2

-- `originalDst`, of the answer if there is one
unfoldable pub original_dst : Option RawSockaddr → Option Bytes
original_dst none = none
original_dst (some raw) =
    if raw.family == af_inet
    then some (join_host_port (ipv4_text raw.addr) (itoa (raw.port % 256 * 256 + raw.port / 256)))
    else none
