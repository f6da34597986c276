-- ===== src/Config/Slug/Unique.antt =====
-- `UniqueProfileID` never gives an identifier that is in use, as long as the file has room.
use native.Mathlib.Decide.{ℕ_discrete}
use ssc.Base.{
  ℕ, zero, suc, ◌+◌, ◌≤◌, ◌<◌, ◌≡◌, ◌≢◌, ◌⊎◌, inl, inr, true, false, Bool, List, [], ◌∷◌, ◌++◌,
  arith, Bytes, text_eq, text_eq_iff, Bool-cases, length, if◌then◌else◌,
}
use ssc.Base.Decimal.{itoa-injective}
use ssc.Config.Types.{Profile, ProfilesFile}
use ssc.Config.Slug.{used, candidate, first_unused, unique_profile_id, base_id}

append-cancel : (a b c : Bytes) → a ++ b ≡ a ++ c → b ≡ c
append-cancel [] b c e = e
append-cancel (x ∷ a) b c e = append-cancel a b c (cc)

candidate-injective : (base : Bytes) (i j : ℕ) → candidate base i ≡ candidate base j → i ≡ j
unfolding candidate
candidate-injective base i j e = itoa-injective i j (ground (arith, append-cancel base _ _ e))

-- the profiles without those that have the identifier
without : Bytes → List Profile → List Profile
without id [] = []
without id (p ∷ ps) = if text_eq p.id id then without id ps else p ∷ without id ps

used-without :
    (id k : Bytes) (ps : List Profile) → k ≢ id → used k ps ≡ true → used k (without id ps) ≡ true
unfolding used without
used-without id k [] ne h = h
used-without id k (p ∷ ps) ne h =
    ground (arith, used-without id k ps ne, text_eq_iff p.id id, text_eq_iff p.id k)

length-without : (id : Bytes) (ps : List Profile) → length (without id ps) ≤ length ps
unfolding without
length-without id [] = omega arith
length-without id (p ∷ ps) = ground (arith, length-without id ps)

length-without_lt :
    (id : Bytes) (ps : List Profile) → used id ps ≡ true → length (without id ps) < length ps
unfolding used without
length-without_lt id [] h = cc
length-without_lt id (p ∷ ps) h = ground (arith, length-without id ps, length-without_lt id ps)

-- If `n` numbered candidates are all in use, the file has at least `n` profiles.
pigeonhole :
    (base : Bytes) (n i : ℕ) (ps : List Profile)
    → ((j : ℕ) → i ≤ j → j < i + n → used (candidate base j) ps ≡ true)
    → n ≤ length ps
pigeonhole base zero i ps all = omega arith
pigeonhole base (suc n) i ps all = omega (
  arith,
  pigeonhole base n (suc i) (without (candidate base i) ps) (λ j lo hi.
      used-without (candidate base i) (candidate base j) ps
        (λ e. absurd (omega (arith, candidate-injective base j i e)))
        (all j (omega arith) (omega arith))),
  length-without_lt (candidate base i) ps (all i (omega arith) (omega arith)),
)

from_next :
    (base : Bytes) (ps : List Profile) (i j : ℕ)
    → used (candidate base i) ps ≡ true
    → (i + 1 ≤ j → used (candidate base j) ps ≡ true)
    → i ≤ j
    → used (candidate base j) ps ≡ true
from_next base ps i j first rest le = elim (ℕ_discrete i j) [
  | yes e ↦ rw (← e) first
  | no ne ↦ rest (omega arith)
]

-- Either the loop's result is free, or every candidate that it tried is in use.
first_unused_cases :
    (base : Bytes) (ps : List Profile) (rounds i : ℕ) (last : Bytes)
    → (used (first_unused base ps rounds i last) ps ≡ false)
      ⊎ ((j : ℕ) → i ≤ j → j < i + rounds → used (candidate base j) ps ≡ true)
unfolding first_unused
first_unused_cases base ps zero i last = inr (λ j lo hi. absurd (omega arith))
first_unused_cases base ps (suc rounds) i last = elim (Bool-cases (used (candidate base i) ps)) [
  | inr free ↦ inl (rw free free)
  | inl taken ↦ rw taken (elim (first_unused_cases base ps rounds (i + 1) last) [
    | inl free ↦ inl free
    | inr all ↦ inr (λ j lo hi. from_next base ps i j taken (λ next. all j next (omega arith)) lo)
  ])
]

-- With fewer than 9998 profiles in the file, `UniqueProfileID` returns an identifier that none of
-- them has, whatever the base name and the clock.
pub used-unique_profile_id :
    (pf : ProfilesFile) (base : Bytes) (now : ℕ)
    → length pf.profiles < 9998
    → used (unique_profile_id pf base now) pf.profiles ≡ false
unfolding unique_profile_id
used-unique_profile_id pf base now room = elim (Bool-cases (used (base_id base) pf.profiles)) [
  | inr free ↦ rw free free
  | inl taken ↦ rw taken (free_or_full (first_unused_cases (base_id base) pf.profiles 9998 2 _))
]
  where
    free_or_full :
        {b : Bool}
        → (b ≡ false)
          ⊎ ((j : ℕ) → 2 ≤ j → j < 2 + 9998 → used (candidate (base_id base) j) pf.profiles ≡ true)
        → b ≡ false
    free_or_full (inl free) = free
    free_or_full (inr all) =
        absurd (omega (arith, pigeonhole (base_id base) 9998 2 pf.profiles all))
