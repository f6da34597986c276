-- ===== src/Daemon/Route.antt =====
-- cmd/sshcustomd/route.go: the active route and its cache. A call comes with the two readings of
-- the clock, in nanoseconds, and with what the system answers.
use ssc.Base.{
  ℕ, ◌+◌, ◌≤◌, ◌<◌, ◌≡◌, refl, ◌⊎◌, inl, inr, Bool, true, false, List, [], ◌∷◌, ◌++◌, Option, none,
  some, Bytes, arith, All, ltb, ltb→lt, if◌then◌else◌, if_decided, any, ◌||◌, has_prefix, is_empty,
}
use ssc.Net.{split_host_port}

pub record RouteInfo : Type 0 where
  pub online : Bool
  pub raw : Bytes
  pub iface : Bytes
  pub gw : Bytes
  pub src : Bytes

pub record CachedRoute : Type 0 where
  pub ri : RouteInfo
  pub expires : ℕ

-- `local_address` is `none` when the dial fails; an interface has its name and its addresses.
pub record Call : Type 0 where
  pub now : ℕ
  pub later : ℕ
  pub local_address : Option Bytes
  pub interfaces : List (Bytes × List Bytes)

-- five seconds
abbrev pub lifetime : ℕ
lifetime = 5000000000

abbrev host_of : Option (Bytes × Bytes) → Bytes
host_of none = []
host_of (some (host, port)) = host

unfoldable pub is_own : Bytes → Bytes → Bool
is_own src addr = has_prefix addr (src ++ b'/' ∷ []) || has_prefix addr src

-- the name of the first interface with such an address
unfoldable pub iface_of : Bytes → List (Bytes × List Bytes) → Bytes
unfolding is_own
iface_of src [] = []
iface_of src ((name, addrs) ∷ ifaces) =
    let rest = iface_of src ifaces in
    if any (is_own src) addrs then (if is_empty name then rest else name) else rest

unfoldable pub route_at : Bytes → Bytes → List (Bytes × List Bytes) → RouteInfo
unfolding iface_of
route_at laddr src ifaces = record {
  online = true;
  raw = laddr;
  iface = if is_empty src then [] else iface_of src ifaces;
  gw = [];
  src = src;
}

abbrev no_route : RouteInfo
no_route = record { online = false; raw = []; iface = []; gw = []; src = [] }

-- the route that a call finds without the cache
unfoldable pub discover : Call → RouteInfo
unfolding route_at
discover c = elim c.local_address [
  | none ↦ no_route
  | some laddr ↦ route_at laddr (host_of (split_host_port laddr)) c.interfaces
]

-- `routeInfo`
unfoldable pub route_info : Call → CachedRoute → RouteInfo × CachedRoute
unfolding discover
route_info c cached =
    if ltb c.now cached.expires
    then (cached.ri, cached)
    else (discover c, record { ri = discover c; expires = c.later + lifetime })

-- A call of the list found this route, less than five seconds before it is given out.
abbrev pub Recent : ℕ → RouteInfo → List Call → Type 0
Recent now r [] = ⊥
Recent now r (k ∷ log) = ((discover k ≡ r) × (now < k.later + lifetime)) ⊎ Recent now r log

-- what calls are answered, each with the calls up to it
abbrev pub AllRecent : List Call → CachedRoute → List Call → Type 0
AllRecent [] cached log = Unit
AllRecent (c ∷ calls) cached log =
    let r = route_info c cached in Recent c.now r.0 (c ∷ log) × AllRecent calls r.1 (c ∷ log)

-- Until it expires, the cached route is recent.
Holds : CachedRoute → List Call → Type 0
Holds cached log = (now : ℕ) → now < cached.expires → Recent now cached.ri log

route_info-Recent :
    (c : Call) (cached : CachedRoute) (log : List Call)
    → c.now ≤ c.later
    → Holds cached log
    → Recent c.now (route_info c cached).0 (c ∷ log) × Holds (route_info c cached).1 (c ∷ log)
unfolding route_info Holds
route_info-Recent c cached log h k =
    if_decided (λ (r : RouteInfo × CachedRoute). Recent c.now r.0 (c ∷ log) × Holds r.1 (c ∷ log))
      (ltb c.now cached.expires) _ _
      (λ fresh. (inr (k c.now (ltb→lt c.now cached.expires fresh)), λ now l. inr (k now l)))
      (λ _. (inl (refl, omega (arith, h)), λ now l. inl (refl, l)))

calls-AllRecent :
    (calls : List Call) (cached : CachedRoute) (log : List Call)
    → All (λ c. c.now ≤ c.later) calls
    → Holds cached log
    → AllRecent calls cached log
calls-AllRecent [] cached log h k = tt
calls-AllRecent (c ∷ calls) cached log (h, hs) k =
    let r = route_info-Recent c cached log h k in
    (r.0, calls-AllRecent calls (route_info c cached).1 (c ∷ log) hs r.1)

-- Beginning with a cache that has expired at once, and with a clock that does not go back within a
-- call, every call of `routeInfo` in a sequence returns what it or an earlier call found without
-- the cache, and that was found less than five seconds before.
pub route_info-AllRecent :
    (calls : List Call) (ri : RouteInfo)
    → All (λ c. c.now ≤ c.later) calls
    → AllRecent calls (record { ri = ri; expires = 0 }) []
unfolding Holds
route_info-AllRecent calls ri h =
    calls-AllRecent calls (record { ri = ri; expires = 0 }) [] h
      (λ now l. absurd (omega (arith, l)))
