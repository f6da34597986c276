-- ===== src/Transport/Modes.antt =====
-- The normal forms of the modes of internal/transport/transport.go.
use ssc.Base.{
  ◌≡◌, refl, Bool, true, false, ◌⊎◌, inl, inr, List, [], ◌∷◌, Bytes, codes, if◌then◌else◌, text_eq,
  text_eq_iff, text_eq_refl, ◌||◌, one_of, trim_space, to_lower, Bool-cases,
}
use ssc.Transport.{
  normalize_mode, normalize_dns_mode, direct_names, proxy_names, tls_names, proxy_tls_names,
  device_names, resolver_names,
}

pick : Bool → Bool → Bool → Bool → Bytes
pick a b c d =
    if a
    then codes "direct"
    else if b
    then codes "http_proxy"
    else if c
    then codes "tls_sni"
    else if d
    then codes "http_proxy_tls_sni"
    else []

pick-normal : (a b c d : Bool) → normalize_mode (pick a b c d) ≡ pick a b c d
unfolding pick normalize_mode one_of ssc.Base.trim_by ssc.Base.is_space ssc.Base.lower
pick-normal true b c d = refl
pick-normal false true c d = refl
pick-normal false false true d = refl
pick-normal false false false true = refl
pick-normal false false false false = refl

-- A mode that is normalised stays as it is, also when it is unknown.
pub normalize_mode_idempotent : (m : Bytes) → normalize_mode (normalize_mode m) ≡ normalize_mode m
unfolding normalize_mode pick
normalize_mode_idempotent m =
    let t = trim_space (to_lower m) in
    pick-normal (one_of t direct_names) (one_of t proxy_names) (one_of t tls_names)
      (one_of t proxy_tls_names)

-- the modes of the resolver in their normal form
abbrev pub dns_modes : List Bytes
dns_modes = codes "device" ∷ resolver_names

||_right : (a b : Bool) → b ≡ true → (a || b) ≡ true
||_right true b h = refl
||_right false b h = h

dns_pick :
    (a b : Bool) (m : Bytes)
    → (one_of m resolver_names ≡ b)
    → one_of (if a then codes "device" else if b then m else codes "device") dns_modes ≡ true
unfolding one_of text_eq
dns_pick true b m h = refl
dns_pick false true m h = ||_right _ _ h
dns_pick false false m h = refl

-- Every text, known or not, is normalised to one of the four modes of the resolver.
pub normalize_dns_mode_known : (m : Bytes) → one_of (normalize_dns_mode m) dns_modes ≡ true
unfolding normalize_dns_mode
normalize_dns_mode_known m =
    let t = to_lower (trim_space m) in
    dns_pick (one_of t device_names) (one_of t resolver_names) t refl
