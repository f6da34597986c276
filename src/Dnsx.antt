-- ===== src/Dnsx.antt =====
-- internal/dnsx/dnsx.go: the cache of resolved hosts, and the lists of servers and addresses. Times
-- are in nanoseconds; the lookups, and Go's `net.SplitHostPort`, are parameters.
pub mod Cache
pub mod Lists
pub mod Sources
pub mod Extracting
pub mod Finding
pub mod Racing
pub mod Resolving
mod Examples
mod SourceExamples
use Prim.Native.String.{String}
use ssc.Base.{
  ℕ, zero, suc, ◌+◌, ◌*◌, ◌%◌, Bool, true, false, List, [], ◌∷◌, ◌++◌, Option, none, some,
  if◌then◌else◌, Bytes, codes, ℤ, non_pos, is_empty, ◌||◌, ◌&&◌, not, ltb, leb, text_eq, one_of,
  length, take, drop, trim_space, to_lower, ◌-◌, pos,
}
use ssc.Socks5.Server.{join_host_port}

-- `cacheEntry`
pub record Entry : Type 0 where
  pub ips : List Bytes
  pub method : Bytes
  pub expires : ℕ

abbrev pub Entries : Type 0
Entries = List (Bytes × Entry)

unfoldable pub lookup : Bytes → Entries → Option Entry
lookup key [] = none
lookup key ((k, e) ∷ es) = if text_eq k key then some e else lookup key es

unfoldable pub delete : Bytes → Entries → Entries
delete key [] = []
delete key ((k, e) ∷ es) = let rest = delete key es in if text_eq k key then rest else (k, e) ∷ rest

unfoldable pub set : Bytes → Entry → Entries → Entries
unfolding delete
set key e es = (key, e) ∷ delete key es

-- the loop that looks for the oldest entry, from the key and the time that were found so far
unfoldable pub oldest_from : Bytes → ℕ → Entries → Bytes
oldest_from key time [] = key
oldest_from key time ((k, e) ∷ es) =
    let taken = oldest_from k e.expires es in
    let kept = oldest_from key time es in if is_empty key || ltb e.expires time then taken else kept

abbrev pub cache_limit : ℕ
cache_limit = 2000

abbrev pub cache_ttl : ℕ
cache_ttl = 300 * 1000000000

unfoldable pub make_room : Entries → Entries
unfolding oldest_from delete
make_room es = if leb cache_limit (length es) then delete (oldest_from [] 0 es) es else es

-- `cache`
unfoldable pub cache : Bytes → List Bytes → Bytes → ℕ → Entries → Entries
unfolding make_room set
cache key ips method now es =
    set key (record { ips = ips; method = method; expires = now + cache_ttl }) (make_room es)

-- `strings.HasSuffix`
unfoldable pub has_suffix : Bytes → Bytes → Bool
has_suffix s suffix =
    leb (length suffix) (length s) && text_eq (drop (length s - length suffix) s) suffix

unfoldable pub without_suffix : Bytes → Entries → Entries
unfolding has_suffix
without_suffix suffix [] = []
without_suffix suffix ((k, e) ∷ es) =
    let rest = without_suffix suffix es in if has_suffix k suffix then rest else (k, e) ∷ rest

abbrev pub clean_host : Bytes → Bytes
clean_host host = to_lower (trim_space host)

-- `EvictHost`
unfoldable pub evict_host : Bytes → Entries → Entries
unfolding without_suffix
evict_host host es =
    if is_empty (clean_host host) then es else without_suffix (b'|' ∷ clean_host host) es

-- `Config` of the resolver
pub record ResolverConfig : Type 0 where
  pub mode : Bytes
  pub servers : List Bytes
  pub timeout_sec : ℤ

-- Whether `net.SplitHostPort` takes the text.
abbrev pub Splits : Type 0
Splits = Bytes → Bool

abbrev pub with_port : Splits → Bytes → Bytes
with_port splits s = if splits s then s else join_host_port s (codes "53")

-- the loop of `NormalizeServers`; `seen` is what is in the result already
unfoldable pub servers_from : Splits → List Bytes → List Bytes → List Bytes
servers_from splits [] seen = []
servers_from splits (x ∷ xs) seen =
    let s = with_port splits (trim_space x) in
    let skipped = servers_from splits xs seen in
    let added = s ∷ servers_from splits xs (s ∷ seen) in
    if is_empty (trim_space x) || one_of s seen then skipped else added

-- `NormalizeServers`
unfoldable pub normalize_servers : Splits → List Bytes → List Bytes
unfolding servers_from
normalize_servers splits xs = servers_from splits xs []

-- `strings.Join` with commas
unfoldable pub join_commas : List Bytes → Bytes
join_commas [] = []
join_commas (x ∷ []) = x
join_commas (x ∷ y ∷ xs) = x ++ b',' ∷ join_commas (y ∷ xs)

-- `cacheKey`
unfoldable pub cache_key : Splits → ResolverConfig → Bytes → Bytes
unfolding normalize_servers join_commas
cache_key splits cfg host =
    cfg.mode ++ b'|' ∷ join_commas (normalize_servers splits cfg.servers) ++ b'|' ∷ host

-- What the lookups give: the carrier's servers, the answers of servers, and of the shell.
pub record Lookups : Type 0 where
  pub carrier : List Bytes
  pub direct : List Bytes → ℤ → List Bytes
  pub shell : ℤ → List Bytes

-- `configuredServers`
unfoldable pub configured_servers : Splits → Lookups → ResolverConfig → List Bytes × Bytes
unfolding normalize_servers
configured_servers splits net cfg =
    if text_eq cfg.mode (codes "google")
    then (normalize_servers splits (codes "8.8.8.8" ∷ codes "8.8.4.4" ∷ []), codes "google_dns")
    else if text_eq cfg.mode (codes "cloudflare")
    then (normalize_servers splits (codes "1.1.1.1" ∷ codes "1.0.0.1" ∷ []), codes "cloudflare_dns")
    else if text_eq cfg.mode (codes "custom")
    then (normalize_servers splits cfg.servers, codes "custom_dns")
    else (net.carrier, codes "android_real_dns")

-- The addresses, the method, and the cache as it is left.
pub record Resolution : Type 0 where
  pub ips : List Bytes
  pub method : Bytes
  pub entries : Entries

abbrev pub found : Bytes → List Bytes → Bytes → ℕ → Entries → Resolution
found key ips method now es = record {
  ips = ips;
  method = method;
  entries = cache key ips method now es;
}

abbrev pub from_shell : Bytes → List Bytes → ℕ → Entries → Resolution
from_shell key [] now es = record { ips = []; method = codes "dns_failed"; entries = es }
from_shell key (ip ∷ ips) now es = found key (ip ∷ ips) (codes "android_shell_dns") now es

abbrev pub from_servers : Bytes → List Bytes → Bytes → List Bytes → ℕ → Entries → Resolution
from_servers key [] method shell now es = from_shell key shell now es
from_servers key (ip ∷ ips) method shell now es = found key (ip ∷ ips) method now es

abbrev pub default_timeout : ℤ → ℤ
default_timeout t = if non_pos t then pos 4 else t

abbrev pub resolve_anew : Splits → Lookups → ResolverConfig → Bytes → ℕ → Entries → Resolution
resolve_anew splits net cfg key now es =
    let chosen = configured_servers splits net cfg in
    let timeout = default_timeout cfg.timeout_sec in
    from_servers key (if is_empty chosen.0 then [] else net.direct chosen.0 timeout) chosen.1
      (net.shell timeout) now es

abbrev pub from_cache :
    Option Entry → Splits → Lookups → ResolverConfig → Bytes → ℕ → Entries → Resolution
from_cache none splits net cfg key now es = resolve_anew splits net cfg key now es
from_cache (some e) splits net cfg key now es =
    if ltb now e.expires
    then record { ips = e.ips; method = codes "dns_cached_" ++ e.method; entries = es }
    else resolve_anew splits net cfg key now es

-- `ResolveHost`
unfoldable pub resolve_host : Splits → Lookups → ResolverConfig → Bytes → ℕ → Entries → Resolution
unfolding configured_servers cache cache_key lookup
resolve_host splits net cfg host now es =
    let key = cache_key splits cfg (clean_host host) in
    from_cache (lookup key es) splits net cfg key now es

-- `appendUnique`
unfoldable pub append_unique : List Bytes → Bytes → List Bytes
append_unique xs v = if one_of v xs then xs else xs ++ v ∷ []

-- `net.ParseIP` with `To4`: the text of an IPv4 address, `none` for anything else.
abbrev pub ParseIpv4 : Type 0
ParseIpv4 = Bytes → Option Bytes

abbrev pub keep_parsed : Option Bytes → List Bytes → List Bytes
keep_parsed none out = out
keep_parsed (some ip) out = append_unique out ip

unfoldable pub sanitize_from : ParseIpv4 → List Bytes → List Bytes → List Bytes
unfolding append_unique
sanitize_from parse [] out = out
sanitize_from parse (s ∷ ss) out = sanitize_from parse ss (keep_parsed (parse (trim_space s)) out)

-- `SanitizeIPv4List`
unfoldable pub sanitize_ipv4_list : ParseIpv4 → List Bytes → List Bytes
unfolding sanitize_from
sanitize_ipv4_list parse xs = sanitize_from parse xs []

-- `RotateIPs`; `nanos` is the clock
unfoldable pub rotate_ips : ℕ → List Bytes → List Bytes
rotate_ips nanos xs =
    if leb (length xs) 1 then xs else drop (nanos % length xs) xs ++ take (nanos % length xs) xs
