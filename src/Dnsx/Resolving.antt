-- ===== src/Dnsx/Resolving.antt =====
-- What a resolution gives and keeps, when its lookups are those of the program.
use ssc.Base.{
  ℕ, List, [], ◌∷◌, Option, none, some, map, Bytes, ℤ, is_empty, leb, ltb, length, text_eq, ◌&&◌,
  All, if_holds,
}
use ssc.Net.{IpFacts}
use ssc.Dnsx.{
  Resolution, Entry, Entries, Splits, Lookups, ResolverConfig, ParseIpv4, lookup, delete, set,
  make_room, oldest_from, cache_limit, cache, from_shell, from_servers, resolve_anew, from_cache,
  configured_servers, default_timeout, cache_key, clean_host, resolve_host,
}
use ssc.Dnsx.Sources.{
  PropCache, android_carrier_dns, answer_of, first_answer, resolve_via_direct_dns, ToolRun,
  shell_resolve, extract_ipv4s,
}
use ssc.Dnsx.Extracting.{IsAddressList, Ipv4Or, keep_all-IsAddressList, extract_ipv4s-IsAddressList}

-- What the resolver asks of the system: properties, servers and the order in which their results
-- arrive, and the shell tools.
pub record System : Type 0 where
  pub getprop : Bytes → Option Bytes
  pub ask : Bytes → Option (List Bytes)
  pub arrival : List Bytes → List Bytes
  pub tools : ℤ → List ToolRun

-- the lookups of `ResolveHost`
abbrev pub lookups_of : (Bytes → Option IpFacts) → ParseIpv4 → System → ℕ → PropCache → Lookups
lookups_of parse_ipv6 parse sys now c = record {
  carrier = (android_carrier_dns parse_ipv6 sys.getprop now c).0;
  direct = λ servers timeout. resolve_via_direct_dns parse sys.ask (sys.arrival servers);
  shell = λ timeout. shell_resolve (sys.tools timeout);
}

-- every entry of the cache holds texts of IPv4 addresses
abbrev pub IsClean : Entries → Type 0
IsClean es = All (λ e. IsAddressList e.1.ips) es

first_answer-IsAddressList :
    (rs : List (List Bytes)) → All IsAddressList rs → IsAddressList (first_answer rs)
unfolding first_answer
first_answer-IsAddressList [] h = (tt, tt)
first_answer-IsAddressList ([] ∷ rs) (h, hs) = first_answer-IsAddressList rs hs
first_answer-IsAddressList ((ip ∷ ips) ∷ rs) (h, hs) = h

module _ (parse : ParseIpv4) (parses : (s : Bytes) → Ipv4Or (parse s)) where
  answer_of-IsAddressList : (o : Option (List Bytes)) → IsAddressList (answer_of parse o)
  answer_of-IsAddressList none = (tt, tt)
  answer_of-IsAddressList (some addrs) = keep_all-IsAddressList parse addrs [] parses (tt, tt)

  resolve_via_direct_dns-IsAddressList :
      (ask : Bytes → Option (List Bytes)) (arrival : List Bytes)
      → IsAddressList (resolve_via_direct_dns parse ask arrival)
  unfolding resolve_via_direct_dns
  resolve_via_direct_dns-IsAddressList ask arrival = first_answer-IsAddressList _ (all arrival)
    where
      all : (ss : List Bytes) → All IsAddressList (map (λ s. answer_of parse (ask s)) ss)
      all [] = tt
      all (s ∷ ss) = (answer_of-IsAddressList (ask s), all ss)

shell_resolve-IsAddressList : (rs : List ToolRun) → IsAddressList (shell_resolve rs)
unfolding shell_resolve
shell_resolve-IsAddressList [] = (tt, tt)
shell_resolve-IsAddressList (r ∷ rs) =
    let rest = shell_resolve-IsAddressList rs in
    if_holds IsAddressList (r.failed && is_empty r.out) _ _ rest (
      if_holds IsAddressList (is_empty (extract_ipv4s r.out)) _ _ rest
        (extract_ipv4s-IsAddressList r.out))

delete-IsClean : (key : Bytes) (es : Entries) → IsClean es → IsClean (delete key es)
unfolding delete
delete-IsClean key [] h = tt
delete-IsClean key ((k, e) ∷ es) (h, hs) =
    let rest = delete-IsClean key es hs in if_holds IsClean (text_eq k key) _ _ rest (h, rest)

cache-IsClean :
    (key : Bytes) (ips : List Bytes) (method : Bytes) (now : ℕ) (es : Entries)
    → IsAddressList ips
    → IsClean es
    → IsClean (cache key ips method now es)
unfolding cache set make_room
cache-IsClean key ips method now es h k = (
  h,
  delete-IsClean key _ (
      if_holds IsClean (leb cache_limit (length es)) _ _ (delete-IsClean (oldest_from [] 0 es) es k)
        k),
)

abbrev IsFound : Entry → Type 0
IsFound e = IsAddressList e.ips

abbrev FoundOr : Option Entry → Type 0
FoundOr none = Unit
FoundOr (some e) = IsFound e

lookup-FoundOr : (key : Bytes) (es : Entries) → IsClean es → FoundOr (lookup key es)
unfolding lookup
lookup-FoundOr key [] h = tt
lookup-FoundOr key ((k, e) ∷ es) (h, hs) =
    if_holds FoundOr (text_eq k key) _ _ h (lookup-FoundOr key es hs)

abbrev pub IsResolved : Resolution → Type 0
IsResolved r = IsAddressList r.ips × IsClean r.entries

from_shell-IsResolved :
    (key : Bytes) (ips : List Bytes) (now : ℕ) (es : Entries)
    → IsAddressList ips
    → IsClean es
    → IsResolved (from_shell key ips now es)
from_shell-IsResolved key [] now es h k = ((tt, tt), k)
from_shell-IsResolved key (ip ∷ ips) now es h k = (h, cache-IsClean key (ip ∷ ips) _ now es h k)

from_servers-IsResolved :
    (key : Bytes) (ips : List Bytes) (method : Bytes) (shell : List Bytes) (now : ℕ) (es : Entries)
    → IsAddressList ips
    → IsAddressList shell
    → IsClean es
    → IsResolved (from_servers key ips method shell now es)
from_servers-IsResolved key [] method shell now es h s k =
    from_shell-IsResolved key shell now es s k
from_servers-IsResolved key (ip ∷ ips) method shell now es h s k =
    (h, cache-IsClean key (ip ∷ ips) method now es h k)

module _ (v6 : Bytes → Option IpFacts) (parse : ParseIpv4) (parses : (s : Bytes) → Ipv4Or (parse s))
    (splits : Splits) (cfg : ResolverConfig) (sys : System) (now : ℕ) (c : PropCache) where
  resolve_anew-IsResolved :
      (key : Bytes) (es : Entries)
      → IsClean es
      → IsResolved (resolve_anew splits (lookups_of v6 parse sys now c) cfg key now es)
  resolve_anew-IsResolved key es h =
      let net = lookups_of v6 parse sys now c in
      let servers = (configured_servers splits net cfg).0 in
      let timeout = default_timeout cfg.timeout_sec in
      from_servers-IsResolved key _ _ _ now es
        (if_holds IsAddressList (is_empty servers) [] (net.direct servers timeout) (tt, tt)
          (resolve_via_direct_dns-IsAddressList parse parses sys.ask (sys.arrival servers)))
        (shell_resolve-IsAddressList (sys.tools timeout)) h

  from_cache-IsResolved :
      (o : Option Entry) (key : Bytes) (es : Entries)
      → FoundOr o
      → IsClean es
      → IsResolved (from_cache o splits (lookups_of v6 parse sys now c) cfg key now es)
  from_cache-IsResolved none key es o h = resolve_anew-IsResolved key es h
  from_cache-IsResolved (some e) key es o h =
      if_holds IsResolved (ltb now e.expires) _ _ (o, h) (resolve_anew-IsResolved key es h)

  -- Whatever the system answers, a resolution gives texts of IPv4 addresses, none of them twice, and
  -- leaves only such in the cache.
  pub resolve_host-IsResolved :
      (host : Bytes) (es : Entries)
      → IsClean es
      → IsResolved (resolve_host splits (lookups_of v6 parse sys now c) cfg host now es)
  unfolding resolve_host
  resolve_host-IsResolved host es h =
      let key = cache_key splits cfg (clean_host host) in
      from_cache-IsResolved (lookup key es) key es (lookup-FoundOr key es h) h
