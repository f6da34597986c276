-- ===== src/Config/Slug/Shape.antt =====
-- The form of the texts that `Slugify` returns.
use ssc.Base.{
  ℕ, ◌≡◌, refl, ◌⊎◌, inl, inr, true, false, [], ◌∷◌, arith, Bytes, trim_end, drop_while, trim_by,
  trim_space, to_lower, Bool-cases,
}
use ssc.Config.Slug.{slug_char, slug_from, slugify, is_dash}

-- Letters and digits, with single dashes between some of them.
pub data Words : Bytes → Type 0 where
  letter : (c : ℕ) → slug_char c ≡ true → Words (c ∷ [])
  more : (c : ℕ) {s : Bytes} → slug_char c ≡ true → Words s → Words (c ∷ s)
  dash : (c : ℕ) {s : Bytes} → slug_char c ≡ true → Words s → Words (c ∷ b'-' ∷ s)

abbrev pub IsSlug : Bytes → Type 0
IsSlug s = (s ≡ []) ⊎ Words s

abbrev DashWords : Bytes → Type 0
DashWords t = (w : Bytes) × (t ≡ b'-' ∷ w) × Words w

char-ne-dash : (c : ℕ) → slug_char c ≡ true → is_dash c ≡ false
unfolding slug_char
char-ne-dash c h = ground arith

pub Words-cons : {s : Bytes} → Words s → (c : ℕ) × (r : Bytes) × (s ≡ c ∷ r) × (slug_char c ≡ true)
Words-cons (letter c h) = (c, [], refl, h)
Words-cons (more c {s} h w) = (c, s, refl, h)
Words-cons (dash c {s} h w) = (c, b'-' ∷ s, refl, h)

abbrev keep : ℕ → Bytes → Bytes
keep c t = trim_end is_dash (c ∷ t)

-- A letter in front of what is left of the rest.
keep-char :
    (c : ℕ) (t : Bytes)
    → slug_char c ≡ true
    → IsSlug (trim_end is_dash t) ⊎ DashWords (trim_end is_dash t)
    → Words (keep c t)
unfolding trim_end
keep-char c t h (inl (inl e)) = rw (e, char-ne-dash c h) (letter c h)
keep-char c t h (inl (inr w)) = let (d, r, e, k) = Words-cons w in rw e (more c h (rw e at w))
keep-char c t h (inr (w, e, k)) = rw e (dash c h k)

-- A dash in front of it.
keep-dash :
    (t : Bytes) → IsSlug (trim_end is_dash t) → IsSlug (keep b'-' t) ⊎ DashWords (keep b'-' t)
unfolding trim_end
keep-dash t (inl e) = rw e (inl (inl refl))
keep-dash t (inr w) = let (d, r, e, k) = Words-cons w in rw e (inr (d ∷ r, refl, rw e at w))

trimmed :
    (s : Bytes)
    → IsSlug (trim_end is_dash (slug_from s true))
      × (IsSlug (trim_end is_dash (slug_from s false))
          ⊎ DashWords (trim_end is_dash (slug_from s false)))
unfolding slug_from trim_end
trimmed [] = (inl refl, inl (inl refl))
trimmed (c ∷ s) = elim (Bool-cases (slug_char c)) [
  | inl ok ↦ let w = keep-char c (slug_from s false) ok (trimmed s).1 in rw ok (inr w, inl (inr w))
  | inr other ↦ rw other ((trimmed s).0, keep-dash (slug_from s true) (trimmed s).0)
]

drop_while-Words : {s : Bytes} → Words s → drop_while is_dash s ≡ s
unfolding drop_while
drop_while-Words (letter c h) = rw (char-ne-dash c h)
drop_while-Words (more c h w) = rw (char-ne-dash c h)
drop_while-Words (dash c h w) = rw (char-ne-dash c h)

trim_by-IsSlug :
    (t : Bytes)
    → IsSlug (trim_end is_dash t) ⊎ DashWords (trim_end is_dash t)
    → IsSlug (trim_by is_dash t)
unfolding trim_by
trim_by-IsSlug t (inl (inl e)) = rw e (inl refl)
trim_by-IsSlug t (inl (inr w)) = rw (drop_while-Words w) (inr w)
trim_by-IsSlug t (inr (w, e, k)) = rw (e, drop_while-Words k) (inr k)

-- A slug is empty or consists of small letters and digits with single dashes between them: it
-- neither begins nor ends with a dash.
pub slugify-IsSlug : (s : Bytes) → IsSlug (slugify s)
unfolding slugify
slugify-IsSlug s = trim_by-IsSlug _ (trimmed (to_lower (trim_space s))).1
