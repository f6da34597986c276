-- ===== src/Config/Profiles/Deletion.antt =====
-- What `DeleteProfile` removes and what it keeps.
use ssc.Base.{
  ◌≡◌, refl, ◌⊎◌, ◌≢◌, List, [], ◌∷◌, ◌++◌, ap, none, some, arith, Bytes, All, text_eq, text_eq_iff,
  if◌then◌else◌, Bool-cases, Option-cases, inl, inr,
}
use ssc.Config.Types.{Profile, ProfilesFile, remove, delete_profile, not_found}

-- `ps` is `before`, then a profile with the identifier, then `after`, and it is the first with it.
pub record RemovedFirst (id : Bytes) (ps before after : List Profile) (p : Profile) : Type 0 where
  pub split : ps ≡ before ++ p ∷ after
  pub same : p.id ≡ id
  pub first : All (λ q. q.id ≢ id) before

remove-some :
    (id : Bytes) (ps rest : List Profile)
    → remove id ps ≡ some rest
    → (before : List Profile) × (after : List Profile) × (p : Profile) × RemovedFirst id ps before
        after p
      × (rest ≡ before ++ after)
unfolding remove
remove-some id [] rest h = cc
remove-some id (p ∷ ps) rest h = elim (Bool-cases (text_eq p.id id)) [
  | inl this ↦ (
    [],
    ps,
    p,
    record { split = refl; same = (text_eq_iff p.id id).0 this; first = tt },
    ground arith,
  )
  | inr other ↦ elim (Option-cases (remove id ps)) [
    | inl gone ↦ ground arith
    | inr (r, e) ↦
        let (before, after, q, rm, eq) = remove-some id ps r e in
        (
          p ∷ before,
          after,
          q,
          record {
            split = ap (λ l. p ∷ l) rm.split;
            same = rm.same;
            first = (ground (arith, text_eq_iff p.id id), rm.first);
          },
          ground arith,
        )
  ]
]

remove-none : (id : Bytes) (ps : List Profile) → remove id ps ≡ none → All (λ q. q.id ≢ id) ps
unfolding remove
remove-none id [] h = tt
remove-none id (p ∷ ps) h = (ground (arith, text_eq_iff p.id id), remove-none id ps (ground arith))

-- `DeleteProfile` either succeeds, removing the first profile with the identifier, keeping all
-- others in their order and forgetting the selection if it was that identifier; or it fails, no
-- profile has the identifier, and the file is unchanged.
pub delete_profile_cases :
    (id : Bytes) (pf : ProfilesFile)
    → ((delete_profile id pf).1 ≡ none)
        × ((before : List Profile) × (after : List Profile) × (p : Profile) × RemovedFirst id
              pf.profiles before after p
            × ((delete_profile id pf).0.profiles ≡ before ++ after)
            × ((delete_profile id pf).0.selected_id
                ≡ (if text_eq pf.selected_id id then [] else pf.selected_id)))
      ⊎ (delete_profile id pf ≡ (pf, some not_found)) × All (λ q. q.id ≢ id) pf.profiles
unfolding delete_profile
delete_profile_cases id pf = elim (Option-cases (remove id pf.profiles)) [
  | inl gone ↦ inr (ground arith, remove-none id pf.profiles gone)
  | inr (r, e) ↦
      let (before, after, p, rm, eq) = remove-some id pf.profiles r e in
      inl (ground arith, (before, after, p, rm, ground arith, ground arith))
]
