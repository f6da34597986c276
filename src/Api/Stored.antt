-- ===== src/Api/Stored.antt =====
-- internal/api/api.go with internal/config/config.go: the operations on the profiles keep every
-- stored profile complete.
use ssc.Base.{
  ◌≡◌, ◌↔◌, refl, ℕ, Bool, true, false, List, [], ◌∷◌, ◌++◌, Option, none, some, if◌then◌else◌,
  Bytes, non_pos, gt_nat, is_empty, ◌||◌, text_eq, trim_space, All, All-append, inl, inr, arith,
  any,
}
use ssc.Config.Types.{
  Profile, ProfilesFile, SaveProfileRequest, mark, select_by_id, delete_profile, ProfileError,
}
use ssc.Config.Profiles.{delete_profile_cases}
use ssc.Transport.{dial_endpoint, uses_tls, normalize_mode, uses_http_proxy}
use ssc.Api.Upsert.{
  check_request, new_profile, place, store, choose, stored_id, upsert_profile, creating_new,
  SaveError, finish,
}
use ssc.Api.Complete.{Complete, build_transport-Complete}

-- A request passes the checks exactly if it has a host, a port from 1 to 65535, a user name and a
-- known mode.
pub check_request-none_iff :
    (req : SaveProfileRequest)
    → (check_request req ≡ none) ↔ (
        (is_empty (trim_space req.ssh.host) ≡ false)
        × ((non_pos req.ssh.port || gt_nat req.ssh.port 65535) ≡ false)
        × (is_empty (trim_space req.ssh.username) ≡ false)
        × (is_empty (normalize_mode req.mode) ≡ false))
unfolding check_request
check_request-none_iff req = ground arith

new_profile-Complete :
    (pf : ProfilesFile) (req : SaveProfileRequest) (id : Bytes)
    → check_request req ≡ none
    → Complete (new_profile pf req id)
unfolding new_profile
new_profile-Complete pf req id h =
    let (host, port, user, mode) = (check_request-none_iff req).0 h in
    build_transport-Complete (new_profile pf req id) req.payload req.http_proxy req.tls
      (normalize_mode req.mode) host port user mode

selected-Complete : (p : Profile) (b : Bool) → Complete p → Complete (record p { selected = b })
unfolding dial_endpoint uses_tls uses_http_proxy
selected-Complete p b c = record {
  ssh_host = c.ssh_host;
  ssh_port = c.ssh_port;
  ssh_user = c.ssh_user;
  has_mode = c.has_mode;
  host = c.host;
  port = c.port;
  dials = c.dials;
  has_tls = c.has_tls;
}

mark-Complete : (id : Bytes) (ps : List Profile) → All Complete ps → All Complete (mark id ps)
unfolding mark
mark-Complete id [] h = h
mark-Complete id (p ∷ ps) (c, h) = (selected-Complete p (text_eq p.id id) c, mark-Complete id ps h)

if-All :
    (b : Bool) (ps qs : List Profile)
    → All Complete ps
    → All Complete qs
    → All Complete (if b then ps else qs)
if-All true ps qs h k = h
if-All false ps qs h k = k

place-Complete :
    (q : Profile) (ps : List Profile) → Complete q → All Complete ps → All Complete (place q ps)
unfolding place
place-Complete q [] c h = (c, h)
place-Complete q (p ∷ ps) c (d, h) =
    if-All (text_eq p.id q.id) (q ∷ ps) (p ∷ place q ps) (c, h) (d, place-Complete q ps c h)

if_profiles :
    (b : Bool) (x y : ProfilesFile × Option ProfileError)
    → All Complete x.0.profiles
    → All Complete y.0.profiles
    → All Complete (if b then x else y).0.profiles
if_profiles true x y h k = h
if_profiles false x y h k = k

-- Selecting a profile, also one that does not exist, keeps every stored profile complete.
pub select_by_id-Complete :
    (id : Bytes) (pf : ProfilesFile)
    → All Complete pf.profiles
    → All Complete (select_by_id id pf).0.profiles
unfolding select_by_id
select_by_id-Complete id pf h =
    let key = trim_space id in
    let k = mark-Complete key pf.profiles h in
    if_profiles (is_empty key) _ _ h
      (if_profiles (any (λ p. p.selected) (mark key pf.profiles)) _ _ k k)

if_file :
    (b : Bool) (x y : ProfilesFile)
    → All Complete x.profiles
    → All Complete y.profiles
    → All Complete (if b then x else y).profiles
if_file true x y h k = h
if_file false x y h k = k

store-Complete :
    (pf : ProfilesFile) (req : SaveProfileRequest) (id : Bytes)
    → check_request req ≡ none
    → All Complete pf.profiles
    → All Complete (store pf req id).profiles
unfolding store
store-Complete pf req id e h =
    let q = new_profile pf req id in
    let c = new_profile-Complete pf req id e in
    if-All (creating_new req) (pf.profiles ++ q ∷ []) (place q pf.profiles)
      (All-append Complete pf.profiles (q ∷ []) h (c, tt)) (place-Complete q pf.profiles c h)

choose-Complete :
    (pf : ProfilesFile) (select : Bool) (id : Bytes)
    → All Complete pf.profiles
    → All Complete (choose pf select id).profiles
unfolding choose
choose-Complete pf select id h =
    if_file (select || is_empty pf.selected_id || text_eq pf.selected_id id) _ _
      (select_by_id-Complete id pf h) h

-- Saving a profile, whether the request is accepted or refused, keeps every stored profile
-- complete.
pub upsert_profile-Complete :
    (pf : ProfilesFile) (req : SaveProfileRequest) (nanos : ℕ)
    → All Complete pf.profiles
    → All Complete (upsert_profile pf req nanos).0.profiles
unfolding upsert_profile
upsert_profile-Complete pf req nanos h = upsert (check_request req) refl
  where
    upsert :
        (r : Option SaveError)
        → check_request req ≡ r
        → All Complete (finish r pf req nanos).0.profiles
    upsert (some x) e = h
    upsert none e =
        choose-Complete (store pf req (stored_id pf req nanos)) req.select (stored_id pf req nanos)
          (store-Complete pf req (stored_id pf req nanos) e h)

All-split :
    (xs : List Profile) (p : Profile) (ys : List Profile)
    → All Complete (xs ++ p ∷ ys)
    → All Complete (xs ++ ys)
All-split [] p ys (c, h) = h
All-split (x ∷ xs) p ys (c, h) = (c, All-split xs p ys h)

-- Deleting a profile, also one that does not exist, keeps every stored profile complete.
pub delete_profile-Complete :
    (id : Bytes) (pf : ProfilesFile)
    → All Complete pf.profiles
    → All Complete (delete_profile id pf).0.profiles
delete_profile-Complete id pf h = elim (delete_profile_cases id pf) [
  | inl (_, (before, after, p, rm, kept, _)) ↦
      rw kept (All-split before p after (rw (← rm.split) h))
  | inr (e, _) ↦ rw e h
]
