-- ===== src/Dnsx/SourceExamples.antt =====
-- The theorems on the sources of addresses at concrete inputs, and tests.
use ssc.Base.{
  ◌≡◌, refl, true, false, ℕ, List, [], ◌∷◌, ◌++◌, Option, none, some, Bytes, codes, ℤ, pos, arith,
  text_eq, if◌then◌else◌,
}
use ssc.Socks5.Server.{ipv4_text}
use ssc.Net.{IpFacts}
use ssc.Dnsx.{Entries, Splits, ResolverConfig, resolve_host}
use ssc.Dnsx.Sources.{
  PropCache, ToolRun, parse_numeric, answer_of, resolve_via_direct_dns, extract_ipv4s,
  android_carrier_dns,
}
use ssc.Dnsx.Extracting.{parse_numeric-Ipv4Or}
use ssc.Dnsx.Resolving.{System, lookups_of, IsResolved, resolve_host-IsResolved}

abbrev no_ipv6 : Bytes → Option IpFacts
no_ipv6 s = none

-- one server fails and the other gives an address twice
abbrev ask : Bytes → Option (List Bytes)
ask s =
    if text_eq s (codes "9.9.9.9:53")
    then some (codes "1.2.3.4" ∷ codes "::1" ∷ codes "1.2.3.4" ∷ [])
    else none

abbrev two_servers : List Bytes
two_servers = codes "8.8.8.8:53" ∷ codes "9.9.9.9:53" ∷ []

abbrev system : System
system = record {
  getprop = λ p. some (codes " 10.0.0.1 ");
  ask = ask;
  arrival = λ servers. servers;
  tools = λ t. record { failed = false; out = codes "PING a.b (5.6.7.8)" } ∷ [];
}

abbrev custom : ResolverConfig
custom = record { mode = codes "custom"; servers = codes "9.9.9.9:53" ∷ []; timeout_sec = pos 4 }

abbrev whole : Splits
whole s = true

abbrev empty_props : PropCache
empty_props = record { servers = []; expires = 0 }

resolve_host-IsResolved_example : IsResolved (
    resolve_host whole
      (lookups_of no_ipv6 parse_numeric system 7 empty_props)
      custom
      (codes "a.b")
      7
      [])
resolve_host-IsResolved_example =
    resolve_host-IsResolved no_ipv6 parse_numeric parse_numeric-Ipv4Or whole custom system 7
      empty_props (codes "a.b") [] tt

carrier_is_read :
    (android_carrier_dns no_ipv6 system.getprop 7 empty_props).0 ≡ codes "10.0.0.1:53" ∷ []
unfolding android_carrier_dns ssc.Dnsx.Sources.scan_props ssc.Net.parse_ip ssc.Net.octets
    ssc.Base.Decimal.is_digit ssc.Base.trim_by ssc.Base.is_space ssc.Base.drop_while
    ssc.Base.trim_end text_eq ssc.Socks5.Server.join_host_port
carrier_is_read = refl
