-- ===== src/Transport/Dialing.antt =====
-- internal/transport/transport.go: `dialTCPResolved` and `dialFallbackIPs`, the addresses that are
-- tried and their order. Whether a dial succeeds is a function of the address.
use ssc.Base.{
  ℕ, ◌≡◌, refl, Bool, true, false, ◌⊎◌, inl, inr, List, [], ◌∷◌, ◌++◌, Option, none, some,
  if◌then◌else◌, Bytes, codes, ℤ, is_empty, text_eq, ◌||◌, arith, Bool-cases, Option-cases,
}
use ssc.Base.Decimal.{int_text}
use ssc.Config.Types.{Profile, HttpProxyCfg}
use ssc.Dnsx.{ParseIpv4, sanitize_ipv4_list, rotate_ips}
use ssc.Socks5.Server.{join_host_port}
use ssc.Transport.{normalize_dns_mode, equal_fold}
use ssc.Transport.Prepare.{Resolved}

abbrev proxy_ips : Option HttpProxyCfg → Bytes → List Bytes
proxy_ips none host = []
proxy_ips (some h) host = if equal_fold host h.host then h.fallback_ips else []

-- `dialFallbackIPs`
unfoldable pub dial_fallback_ips : ParseIpv4 → Profile → Bytes → List Bytes
dial_fallback_ips parse p host = sanitize_ipv4_list parse (
    (if equal_fold host p.ssh.host then p.ssh.fallback_ips else [])
    ++ proxy_ips p.transport.http_proxy host)

-- What the code asks the network and the clock.
pub record Dialer : Type 0 where
  -- `net.ParseIP`, the canonical text
  pub parse_ip : Bytes → Option Bytes
  -- whether the address can be dialled, before and after the second resolution
  pub dials : Bytes → Bool
  pub dials_again : Bytes → Bool
  -- `dnsx.ResolveHost`, the first and the second time
  pub resolve : List Bytes × Bytes
  pub resolve_again : List Bytes × Bytes
  pub clock : ℕ
  pub clock_again : ℕ

-- the loop over addresses: the first that can be dialled
unfoldable pub first_dialled : (Bytes → Bool) → Bytes → List Bytes → Option Bytes
first_dialled dials port [] = none
first_dialled dials port (ip ∷ ips) =
    let rest = first_dialled dials port ips in
    if dials (join_host_port ip port) then some (join_host_port ip port) else rest

abbrev pub made : Bytes → Bytes → List Bytes → Resolved
made addr method ips = record { connected = true; address = addr; method = method; ips = ips }

abbrev pub not_made : Bytes → Bytes → List Bytes → Resolved
not_made addr method ips = record { connected = false; address = addr; method = method; ips = ips }

-- the outcome of a loop: an address, or what follows the loop
abbrev pub made_or : Option Bytes → Bytes → List Bytes → Resolved → Resolved
made_or none method ips other = other
made_or (some addr) method ips other = made addr method ips

-- the part after a failed dial by the system's resolver
abbrev pub last_resort : Dialer → Bytes → Bytes → List Bytes → Resolved
last_resort d addr port fallback =
    if is_empty d.resolve_again.0
    then made_or (first_dialled d.dials_again port (rotate_ips d.clock_again fallback))
        (codes "profile_fallback_ip") fallback (not_made addr (codes "dns_failed") [])
    else made_or (first_dialled d.dials_again port (rotate_ips d.clock_again d.resolve_again.0))
        d.resolve_again.1 d.resolve_again.0 (not_made addr d.resolve_again.1 d.resolve_again.0)

abbrev pub by_system : Dialer → Bytes → Bytes → List Bytes → Resolved
by_system d addr port fallback =
    if d.dials addr
    then made addr (codes "device_system_dns") []
    else last_resort d addr port fallback

abbrev pub by_name : Dialer → Bytes → Bytes → Bytes → List Bytes → Resolved
by_name d mode host port fallback =
    let addr = join_host_port host port in
    let rotated = rotate_ips d.clock d.resolve.0 in
    if text_eq (normalize_dns_mode mode) (codes "device")
    then by_system d addr port fallback
    else made_or (first_dialled d.dials port rotated) d.resolve.1 rotated
        (by_system d addr port fallback)

abbrev pub by_literal : Option Bytes → Dialer → Bytes → Bytes → Bytes → List Bytes → Resolved
by_literal (some ip) d mode host port fallback = record {
  connected = d.dials (join_host_port host port);
  address = join_host_port host port;
  method = codes "literal_ip";
  ips = ip ∷ [];
}
by_literal none d mode host port fallback = by_name d mode host port fallback

-- `dialTCPResolved`; the mode is the configured one
unfoldable pub dial_tcp_resolved : Dialer → Bytes → Bytes → ℤ → List Bytes → Resolved
unfolding first_dialled
dial_tcp_resolved d mode host port fallback =
    by_literal (d.parse_ip host) d mode host (int_text port) fallback

-- The connection is there and its reported address could be dialled, or it is not there and the
-- target itself could not be dialled.
abbrev pub Reached : Dialer → Bytes → Resolved → Type 0
Reached d target r =
    ((r.connected ≡ true) × ((d.dials r.address || d.dials_again r.address) ≡ true))
    ⊎ ((r.connected ≡ false) × (d.dials target ≡ false))

first_dialled-dials :
    (dials : Bytes → Bool) (port : Bytes) (ips : List Bytes) (addr : Bytes)
    → first_dialled dials port ips ≡ some addr
    → dials addr ≡ true
unfolding first_dialled
first_dialled-dials dials port [] addr e = cc
first_dialled-dials dials port (ip ∷ ips) addr e =
    elim (Bool-cases (dials (join_host_port ip port))) [
      | inl q ↦ ground (arith, q)
      | inr q ↦ first_dialled-dials dials port ips addr (ground (arith, q))
    ]

||_left : (a b : Bool) → a ≡ true → (a || b) ≡ true
||_left a b h = rw h

||_right : (a b : Bool) → b ≡ true → (a || b) ≡ true
||_right true b h = refl
||_right false b h = h

made_or-Reached :
    (d : Dialer) (target : Bytes) (o : Option Bytes) (method : Bytes) (ips : List Bytes)
    (other : Resolved)
    → (o ≡ none) ⊎ ((a : Bytes) × (o ≡ some a) × ((d.dials a || d.dials_again a) ≡ true))
    → Reached d target other
    → Reached d target (made_or o method ips other)
made_or-Reached d target o method ips other (inl e) k = rw e k
made_or-Reached d target o method ips other (inr (a, e, h)) k = rw e (inl (refl, h))

loop_now :
    (d : Dialer) (port : Bytes) (ips : List Bytes)
    → (first_dialled d.dials port ips ≡ none)
      ⊎ ((a : Bytes) × (first_dialled d.dials port ips ≡ some a)
          × ((d.dials a || d.dials_again a) ≡ true))
loop_now d port ips = elim (Option-cases (first_dialled d.dials port ips)) [
  | inl e ↦ inl e
  | inr (a, e) ↦ inr (a, e, ||_left _ _ (first_dialled-dials d.dials port ips a e))
]

loop_again :
    (d : Dialer) (port : Bytes) (ips : List Bytes)
    → (first_dialled d.dials_again port ips ≡ none)
      ⊎ ((a : Bytes) × (first_dialled d.dials_again port ips ≡ some a)
          × ((d.dials a || d.dials_again a) ≡ true))
loop_again d port ips = elim (Option-cases (first_dialled d.dials_again port ips)) [
  | inl e ↦ inl e
  | inr (a, e) ↦ inr (a, e, ||_right (d.dials a) _ (first_dialled-dials d.dials_again port ips a e))
]

if-Reached :
    (d : Dialer) (target : Bytes) (b : Bool) (x y : Resolved)
    → Reached d target x
    → Reached d target y
    → Reached d target (if b then x else y)
if-Reached d target true x y h k = h
if-Reached d target false x y h k = k

if_decided :
    (d : Dialer) (target : Bytes) (b : Bool) (x y : Resolved)
    → (b ≡ true → Reached d target x)
    → (b ≡ false → Reached d target y)
    → Reached d target (if b then x else y)
if_decided d target true x y h k = h refl
if_decided d target false x y h k = k refl

last_resort-Reached :
    (d : Dialer) (addr port : Bytes) (fallback : List Bytes)
    → d.dials addr ≡ false
    → Reached d addr (last_resort d addr port fallback)
last_resort-Reached d addr port fallback h =
    if-Reached d addr (is_empty d.resolve_again.0) _ _
      (made_or-Reached d addr _ _ _ _ (loop_again d port (rotate_ips d.clock_again fallback))
        (inr (refl, h)))
      (made_or-Reached d addr _ _ _ _
        (loop_again d port (rotate_ips d.clock_again d.resolve_again.0)) (inr (refl, h)))

by_system-Reached :
    (d : Dialer) (addr port : Bytes) (fallback : List Bytes)
    → Reached d addr (by_system d addr port fallback)
by_system-Reached d addr port fallback =
    if_decided d addr (d.dials addr) _ _ (λ e. inl (refl, ||_left _ _ e))
      (last_resort-Reached d addr port fallback)

by_literal-Reached :
    (o : Option Bytes) (d : Dialer) (mode host port : Bytes) (fallback : List Bytes)
    → Reached d (join_host_port host port) (by_literal o d mode host port fallback)
by_literal-Reached (some ip) d mode host port fallback =
    elim (Bool-cases (d.dials (join_host_port host port))) [
      | inl e ↦ inl (e, ||_left _ _ e)
      | inr e ↦ inr (e, e)
    ]
by_literal-Reached none d mode host port fallback =
    let addr = join_host_port host port in
    if-Reached d addr (text_eq (normalize_dns_mode mode) (codes "device")) _ _
      (by_system-Reached d addr port fallback)
      (made_or-Reached d addr _ _ _ _ (loop_now d port (rotate_ips d.clock d.resolve.0))
        (by_system-Reached d addr port fallback))

-- With any answers of the resolvers and any addresses that can be dialled: the result is a connection
-- to the address that is reported, or there is none and the host could not be dialled by its name
-- either.
pub dial_tcp_resolved-Reached :
    (d : Dialer) (mode host : Bytes) (port : ℤ) (fallback : List Bytes)
    → Reached d (join_host_port host (int_text port)) (dial_tcp_resolved d mode host port fallback)
unfolding dial_tcp_resolved
dial_tcp_resolved-Reached d mode host port fallback =
    by_literal-Reached (d.parse_ip host) d mode host (int_text port) fallback
