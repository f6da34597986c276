-- ===== src/Daemon/Target.antt =====
-- That the test for a local target reads back the address that the kernel reported.
use ssc.Base.{
  ℕ, ◌+◌, ◌*◌, ◌/◌, ◌%◌, ◌<◌, ◌≡◌, refl, [], ◌∷◌, Option, some, Bytes, ◌==◌, ◌||◌, ◌&&◌, arith,
}
use ssc.Base.Decimal.{itoa, atoi-itoa}
use ssc.Config.{Config}
use ssc.Socks5.Server.{ipv4_text, join_host_port}
use ssc.Net.{IpFacts}
use ssc.Net.Numeric.{
  itoa-IsNumeric, ipv4_text-IsNumeric, split_host_port-numeric, parse_ip-ipv4_text,
}
use ssc.Daemon.Address.{is_own_port, is_local_target, RawSockaddr, af_inet, original_dst}

abbrev pub sockaddr : ℕ → ℕ → ℕ → ℕ → ℕ → RawSockaddr
sockaddr a b c d port = record {
  family = af_inet;
  port = port % 256 * 256 + port / 256;
  addr = a ∷ b ∷ c ∷ d ∷ [];
}

-- The destination that the kernel reports, with its port's bytes swapped, goes through text and is
-- read back: it counts as local exactly if the port is one of the daemon's own, or the address is in
-- 127.0.0.0/8, is 0.0.0.0, or is in 224.0.0.0/4.
pub is_local_target-original_dst :
    (v6 : Bytes → Option IpFacts) (cfg : Config) (a b c d port : ℕ)
    → a < 256
    → b < 256
    → c < 256
    → d < 256
    → port < 65536
    → (target : Bytes) × (original_dst (some (sockaddr a b c d port)) ≡ some target)
      × (is_local_target v6 target cfg ≡ (
          is_own_port port cfg
          || a == 127
          || ((a == 0) && (b == 0) && (c == 0) && (d == 0))
          || a / 16 == 14))
unfolding original_dst is_local_target
is_local_target-original_dst v6 cfg a b c d port h k l m p =
    let host = ipv4_text (a ∷ b ∷ c ∷ d ∷ []) in
    let e : (port % 256 * 256 + port / 256) % 256 * 256 + (port % 256 * 256 + port / 256) / 256
        ≡ port =
      omega arith in
    (
      join_host_port host (itoa port),
      rw e refl,
      rw
          (
            split_host_port-numeric host (itoa port) (ipv4_text-IsNumeric _) (itoa-IsNumeric port),
            parse_ip-ipv4_text v6 a b c d h k l m,
            atoi-itoa port,
          )
          refl,
    )
