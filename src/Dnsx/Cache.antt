-- ===== src/Dnsx/Cache.antt =====
-- internal/dnsx/dnsx.go: the bound of the cache, its hits, and what `EvictHost` makes of it.
use mathlib.Core.Path.{subst}
use ssc.Base.{
  ℕ, ◌+◌, ◌-◌, ◌<◌, ◌≤◌, ◌≡◌, ◌⊎◌, inl, inr, refl, ap, Bool, true, false, List, [], ◌∷◌, ◌++◌, none,
  some, if◌then◌else◌, Bytes, codes, is_empty, ◌||◌, ltb, leb, text_eq, text_eq_iff, text_eq_refl,
  length, length-append, drop-length-append, arith, Bool-cases,
}
use ssc.Dnsx.{
  Entry, Entries, lookup, delete, set, oldest_from, cache_limit, cache_ttl, make_room, cache,
  has_suffix, without_suffix, clean_host, evict_host, ResolverConfig, Splits, Lookups, cache_key,
  join_commas, normalize_servers, resolve_anew, resolve_host,
}

unfoldable listed : Bytes → Entries → Bool
listed key [] = false
listed key ((k, e) ∷ es) = text_eq k key || listed key es

length-delete : (key : Bytes) (es : Entries) → length (delete key es) ≤ length es
unfolding delete
length-delete key [] = ground arith
length-delete key ((k, e) ∷ es) = ground (arith, length-delete key es)

length-delete-listed :
    (key : Bytes) (es : Entries) → listed key es ≡ true → length (delete key es) < length es
unfolding delete listed
length-delete-listed key [] h = cc
length-delete-listed key ((k, e) ∷ es) h =
    ground (arith, length-delete key es, length-delete-listed key es)

oldest_from-listed :
    (key : Bytes) (time : ℕ) (es : Entries)
    → (oldest_from key time es ≡ key) ⊎ (listed (oldest_from key time es) es ≡ true)
unfolding oldest_from listed
oldest_from-listed key time [] = inl refl
oldest_from-listed key time ((k, e) ∷ es) =
    step (is_empty key || ltb e.expires time) (oldest_from-listed k e.expires es)
      (oldest_from-listed key time es)
  where
    step :
        (b : Bool)
        → (oldest_from k e.expires es ≡ k) ⊎ (listed (oldest_from k e.expires es) es ≡ true)
        → (oldest_from key time es ≡ key) ⊎ (listed (oldest_from key time es) es ≡ true)
        → ((if b then oldest_from k e.expires es else oldest_from key time es) ≡ key)
          ⊎ (listed
                (if b then oldest_from k e.expires es else oldest_from key time es)
                ((k, e) ∷ es)
              ≡ true)
    step true (inl this) more = inr (rw (this, text_eq_refl k))
    step true (inr there) more = inr (ground (arith, there))
    step false more (inl this) = inl this
    step false more (inr there) = inr (ground (arith, there))

first_oldest-listed : (es : Entries) → 0 < length es → listed (oldest_from [] 0 es) es ≡ true
unfolding oldest_from listed
first_oldest-listed [] h = absurd (omega (arith, h))
first_oldest-listed ((k, e) ∷ es) h = elim (oldest_from-listed k e.expires es) [
  | inl this ↦ rw (this, text_eq_refl k)
  | inr there ↦ ground (arith, there)
]

length-make_room : (es : Entries) → length es ≤ cache_limit → length (make_room es) < cache_limit
unfolding make_room
length-make_room es h = elim (Bool-cases (leb cache_limit (length es))) [
  | inl full ↦ rw full (
      ground (
        arith,
        length-delete-listed (oldest_from [] 0 es) es (first_oldest-listed es (ground arith)),
      ))
  | inr room ↦ rw room (ground arith)
]

-- The cache never holds more than 2000 entries: if it holds no more, then the same is true after an
-- entry is stored, under a new key or under one that it has.
pub length-cache :
    (key : Bytes) (ips : List Bytes) (method : Bytes) (now : ℕ) (es : Entries)
    → length es ≤ cache_limit
    → length (cache key ips method now es) ≤ cache_limit
unfolding cache set
length-cache key ips method now es h =
    omega (arith, length-make_room es h, length-delete key (make_room es))

lookup-set : (key : Bytes) (e : Entry) (es : Entries) → lookup key (set key e es) ≡ some e
unfolding lookup set
lookup-set key e es = rw (text_eq_refl key)

-- For five minutes after addresses are stored for a host, a lookup with the same settings returns
-- them, marked as cached, and leaves the cache as it is.
pub resolve_host-cache :
    (splits : Splits) (net : Lookups) (cfg : ResolverConfig) (host : Bytes) (ips : List Bytes)
    (method : Bytes) (now later : ℕ) (es : Entries)
    → later < now + cache_ttl
    → resolve_host splits net cfg host later
        (cache (cache_key splits cfg (clean_host host)) ips method now es)
      ≡ record {
        ips = ips;
        method = codes "dns_cached_" ++ method;
        entries = cache (cache_key splits cfg (clean_host host)) ips method now es;
      }
unfolding resolve_host cache
resolve_host-cache splits net cfg host ips method now later es h =
    let key = cache_key splits cfg (clean_host host) in
    let fresh : ltb later (now + cache_ttl) ≡ true = ground arith in
    rw
      (lookup-set key (record { ips = ips; method = method; expires = now + cache_ttl })
        (make_room es))
      (rw fresh)

append_assoc : (xs ys zs : Bytes) → (xs ++ ys) ++ zs ≡ xs ++ ys ++ zs
append_assoc [] ys zs = refl
append_assoc (x ∷ xs) ys zs = ap (λ r. x ∷ r) (append_assoc xs ys zs)

has_suffix-append : (xs s : Bytes) → has_suffix (xs ++ s) s ≡ true
unfolding has_suffix
has_suffix-append xs s =
    let fits : leb (length s) (length (xs ++ s)) ≡ true = ground (arith, length-append xs s) in
    let rest : length (xs ++ s) - length s ≡ length xs = omega (arith, length-append xs s) in
    rw (fits, rest, drop-length-append xs s, text_eq_refl s)

lookup-without_suffix :
    (key s : Bytes) (es : Entries)
    → lookup key (without_suffix s es) ≡ (if has_suffix key s then none else lookup key es)
unfolding lookup without_suffix
lookup-without_suffix key s [] = ground arith
lookup-without_suffix key s ((k, e) ∷ es) = elim (Bool-cases (text_eq k key)) [
  | inl q ↦
      let same : has_suffix k s ≡ has_suffix key s =
        ap (λ t. has_suffix t s) ((text_eq_iff k key).0 q) in
      ground (arith, same, lookup-without_suffix key s es)
  | inr q ↦ ground (arith, lookup-without_suffix key s es)
]

cache_key-has_suffix :
    (splits : Splits) (cfg : ResolverConfig) (host : Bytes)
    → has_suffix (cache_key splits cfg host) (b'|' ∷ host) ≡ true
unfolding cache_key
cache_key-has_suffix splits cfg host =
    let servers = join_commas (normalize_servers splits cfg.servers) in
    subst (λ t. has_suffix t (b'|' ∷ host) ≡ true)
      (append_assoc cfg.mode (b'|' ∷ servers) (b'|' ∷ host))
      (has_suffix-append (cfg.mode ++ b'|' ∷ servers) (b'|' ∷ host))

-- After a host that is not blank is evicted, a lookup of it is made anew with whatever settings,
-- and the entries of keys that do not end with the host are as they were.
pub resolve_host-evict_host :
    (splits : Splits) (net : Lookups) (cfg : ResolverConfig) (host other : Bytes) (now : ℕ)
    (es : Entries)
    → is_empty (clean_host host) ≡ false
    → has_suffix other (b'|' ∷ clean_host host) ≡ false
    → (resolve_host splits net cfg host now (evict_host host es)
        ≡ resolve_anew splits net cfg
            (cache_key splits cfg (clean_host host))
            now
            (evict_host host es))
      × (lookup other (evict_host host es) ≡ lookup other es)
unfolding resolve_host evict_host
resolve_host-evict_host splits net cfg host other now es h k =
    let key = cache_key splits cfg (clean_host host) in
    let gone = without_suffix (b'|' ∷ clean_host host) es in
    let missing : lookup key gone ≡ none =
      rw (lookup-without_suffix key (b'|' ∷ clean_host host) es)
        (rw (cache_key-has_suffix splits cfg (clean_host host))) in
    (rw (h, missing), rw h (rw (lookup-without_suffix other (b'|' ∷ clean_host host) es) (rw k)))
