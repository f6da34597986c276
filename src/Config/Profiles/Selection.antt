-- ===== src/Config/Profiles/Selection.antt =====
-- What `SelectByID` does to the profiles, and what `SelectedProfile` returns after it.
use ssc.Base.{
  ◌≡◌, refl, ◌↔◌, true, false, List, [], ◌∷◌, none, some, arith, Bytes, is_empty, any, All, text_eq,
  text_eq_iff, trim_space, Bool-cases, inl, inr,
}
use ssc.Config.Types.{Profile, ProfilesFile, find, has_id, mark, select_by_id, selected_profile}

any-mark :
    (key : Bytes) (ps : List Profile) → any (λ p. p.selected) (mark key ps) ≡ any (has_id key) ps
unfolding mark
any-mark key [] = refl
any-mark key (p ∷ ps) = ground (arith, any-mark key ps)

-- The profile that a search by identifier finds after the marking loop.
find-mark :
    (key : Bytes) (ps : List Profile)
    → any (has_id key) ps ≡ true
    → (p : Profile) × (find (has_id key) (mark key ps) ≡ some p)
      × (p.id ≡ key)
      × (p.selected ≡ true)
unfolding mark find
find-mark key [] h = cc
find-mark key (p ∷ ps) h = elim (Bool-cases (text_eq p.id key)) [
  | inl this ↦
      (record p { selected = text_eq p.id key }, rw this, (text_eq_iff p.id key).0 this, this)
  | inr other ↦ rw other (find-mark key ps (ground arith))
]

-- `SelectByID` fails exactly when the trimmed identifier is empty or no profile has it.
pub select_by_id-none_iff :
    (id : Bytes) (pf : ProfilesFile)
    → ((select_by_id id pf).1 ≡ none)
      ↔ ((is_empty (trim_space id) ≡ false) × (any (has_id (trim_space id)) pf.profiles ≡ true))
unfolding select_by_id
select_by_id-none_iff id pf = ground (arith, any-mark (trim_space id) pf.profiles)

select_by_id-done :
    (id : Bytes) (pf : ProfilesFile)
    → is_empty (trim_space id) ≡ false
    → any (has_id (trim_space id)) pf.profiles ≡ true
    → (select_by_id id pf).0
      ≡ record { selected_id = trim_space id; profiles = mark (trim_space id) pf.profiles }
unfolding select_by_id
select_by_id-done id pf h k = rw (h, any-mark (trim_space id) pf.profiles, k)

selected_profile-mark :
    (key : Bytes) (ps : List Profile)
    → is_empty key ≡ false
    → any (has_id key) ps ≡ true
    → (p : Profile) × (selected_profile (record { selected_id = key; profiles = mark key ps })
        ≡ some p)
      × (p.id ≡ key)
      × (p.selected ≡ true)
unfolding selected_profile
selected_profile-mark key ps h k =
    let (p, found, same, flag) = find-mark key ps k in (p, rw (h, found), same, flag)

-- After `SelectByID` succeeds, `SelectedProfile` returns a profile whose identifier is the trimmed
-- one, and its flag is set.
pub selected_profile-select_by_id :
    (id : Bytes) (pf : ProfilesFile)
    → (select_by_id id pf).1 ≡ none
    → (p : Profile) × (selected_profile (select_by_id id pf).0 ≡ some p)
      × (p.id ≡ trim_space id)
      × (p.selected ≡ true)
selected_profile-select_by_id id pf h =
    let (full, known) = (select_by_id-none_iff id pf).0 h in
    rw (select_by_id-done id pf full known)
      (selected_profile-mark (trim_space id) pf.profiles full known)

-- A profile is flagged exactly if its identifier is `key`.
abbrev pub FlagsMatch : Bytes → List Profile → Type 0
FlagsMatch key = All (λ p. (p.selected ≡ true) ↔ (p.id ≡ key))

mark-FlagsMatch : (key : Bytes) (ps : List Profile) → FlagsMatch key (mark key ps)
unfolding mark
mark-FlagsMatch key [] = tt
mark-FlagsMatch key (p ∷ ps) = (text_eq_iff p.id key, mark-FlagsMatch key ps)

-- After `SelectByID` succeeds, exactly the profiles that have the selected identifier are flagged:
-- the flags of all others are cleared.
pub select_by_id-FlagsMatch :
    (id : Bytes) (pf : ProfilesFile)
    → (select_by_id id pf).1 ≡ none
    → FlagsMatch (select_by_id id pf).0.selected_id (select_by_id id pf).0.profiles
select_by_id-FlagsMatch id pf h =
    let (full, known) = (select_by_id-none_iff id pf).0 h in
    rw (select_by_id-done id pf full known) (mark-FlagsMatch (trim_space id) pf.profiles)
