-- ===== src/Dnsx/Sources.antt =====
-- internal/dnsx/dnsx.go: where addresses come from, the carrier's properties, the servers that are
-- asked at once, and the shell tools.
use ssc.Base.{
  ℕ, ◌+◌, ◌*◌, Bool, true, false, List, [], ◌∷◌, ◌++◌, Option, none, some, map, Bytes, codes,
  is_empty, ◌&&◌, ◌||◌, not, ltb, leb, ◌==◌, text_eq, trim_space, if◌then◌else◌,
}
use ssc.Socks5.Server.{ipv4_text, join_host_port}
use ssc.Net.{octets, IpFacts, parse_ip}
use ssc.Dnsx.{append_unique, ParseIpv4, keep_parsed}

-- `androidPropCache`
pub record PropCache : Type 0 where
  pub servers : List Bytes
  pub expires : ℕ

abbrev pub props : List Bytes
props = map codes (
    "net.dns1" ∷ "net.dns2" ∷ "net.dns3" ∷ "net.dns4" ∷ "net.rmnet0.dns1" ∷ "net.rmnet0.dns2"
    ∷ "net.rmnet_data0.dns1" ∷ "net.rmnet_data0.dns2" ∷ "net.rmnet_data1.dns1"
    ∷ "net.rmnet_data1.dns2" ∷ "net.rmnet_data2.dns1" ∷ "net.rmnet_data2.dns2"
    ∷ "dhcp.rmnet_data0.dns1" ∷ "dhcp.rmnet_data0.dns2" ∷ "dhcp.wlan0.dns1" ∷ "dhcp.wlan0.dns2"
    ∷ [])

abbrev pub is_some {ℓ} : {A : Type ℓ} → Option A → Bool
is_some none = false
is_some (some a) = true

-- What `net.ParseIP` makes of an IPv6 address is a parameter, and so is what `getprop` prints.
module _ (parse_ipv6 : Bytes → Option IpFacts) (getprop : Bytes → Option Bytes) where
  -- whether a property that was printed is passed over
  abbrev pub is_skipped : Bytes → Bool
  is_skipped ip =
      is_empty ip || text_eq ip (codes "0.0.0.0") || not (is_some (parse_ip parse_ipv6 ip))

  -- the loop over the properties, which ends with the first address
  unfoldable pub scan_props : List Bytes → List Bytes
  scan_props [] = []
  scan_props (p ∷ ps) = elim (getprop p) [
    | none ↦ scan_props ps
    | some out ↦
        let rest = scan_props ps in
        if is_skipped (trim_space out)
        then rest
        else join_host_port (trim_space out) (codes "53") ∷ []
  ]

  abbrev pub keep_servers : List Bytes → ℕ → PropCache → List Bytes × PropCache
  keep_servers [] now c = ([], c)
  keep_servers (s ∷ ss) now c =
      (s ∷ ss, record { servers = s ∷ ss; expires = now + 120 * 1000000000 })

  -- `AndroidCarrierDNS`
  unfoldable pub android_carrier_dns : ℕ → PropCache → List Bytes × PropCache
  unfolding scan_props
  android_carrier_dns now c =
      if ltb now c.expires && not (is_empty c.servers)
      then (c.servers, c)
      else keep_servers (scan_props props) now c

-- the loop over the addresses of one answer
unfoldable pub keep_all : ParseIpv4 → List Bytes → List Bytes → List Bytes
unfolding append_unique
keep_all parse [] out = out
keep_all parse (a ∷ as_) out = keep_all parse as_ (keep_parsed (parse a) out)

abbrev pub answer_of : ParseIpv4 → Option (List Bytes) → List Bytes
answer_of parse none = []
answer_of parse (some addrs) = keep_all parse addrs []

-- the loop that receives the results, in the order in which they arrive
unfoldable pub first_answer : List (List Bytes) → List Bytes
first_answer [] = []
first_answer ([] ∷ rs) = first_answer rs
first_answer ((ip ∷ ips) ∷ rs) = ip ∷ ips

-- `resolveViaDirectDNS`: the servers in the order in which their results arrive, and what each
-- answers
unfoldable pub resolve_via_direct_dns :
    ParseIpv4 → (Bytes → Option (List Bytes)) → List Bytes → List Bytes
unfolding keep_all first_answer
resolve_via_direct_dns parse ask arrival = first_answer (map (λ s. answer_of parse (ask s)) arrival)

abbrev pub is_numeric : ℕ → Bool
is_numeric c = (c == b'.') || (leb b'0' c && leb c b'9')

-- `strings.FieldsFunc` of the runs of digits and dots
unfoldable pub numeric_fields : Bytes → Bytes → List Bytes
numeric_fields word [] = if is_empty word then [] else word ∷ []
numeric_fields word (c ∷ s) =
    let longer = numeric_fields (word ++ c ∷ []) s in
    let next = numeric_fields [] s in
    if is_numeric c then longer else if is_empty word then next else word ∷ next

abbrev pub text_of : Option Bytes → Option Bytes
text_of none = none
text_of (some b) = some (ipv4_text b)

-- `net.ParseIP` of digits and dots, as a text again
unfoldable pub parse_numeric : ParseIpv4
unfolding octets
parse_numeric s = text_of (octets s 0 false [])

-- `ExtractIPv4s`
unfoldable pub extract_ipv4s : Bytes → List Bytes
unfolding numeric_fields keep_all parse_numeric
extract_ipv4s s = keep_all parse_numeric (numeric_fields [] s) []

-- What a tool printed, and whether it failed.
pub record ToolRun : Type 0 where
  pub failed : Bool
  pub out : Bytes

-- `shellResolve`, over the runs of its three commands
unfoldable pub shell_resolve : List ToolRun → List Bytes
unfolding extract_ipv4s
shell_resolve [] = []
shell_resolve (r ∷ rs) =
    let rest = shell_resolve rs in
    let ips = extract_ipv4s r.out in
    if r.failed && is_empty r.out then rest else if is_empty ips then rest else ips
