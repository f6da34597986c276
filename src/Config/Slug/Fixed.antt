-- ===== src/Config/Slug/Fixed.antt =====
-- A slug is its own slug.
use ssc.Base.{
  ℕ, ◌≡◌, refl, inl, inr, true, false, ◌∷◌, Bool, arith, Bytes, lower, is_space, trim_end,
  drop_while, trim_by, to_lower,
}
use ssc.Config.Slug.{slug_char, slug_from, slugify, is_dash}
use ssc.Config.Slug.Shape.{Words, Words-cons, letter, more, dash, IsSlug, slugify-IsSlug}

-- A byte of a slug is neither space nor capital.
char-is_space : (c : ℕ) → slug_char c ≡ true → is_space c ≡ false
unfolding slug_char is_space
char-is_space c h = ground arith

char-lower : (c : ℕ) → slug_char c ≡ true → lower c ≡ c
unfolding slug_char lower
char-lower c h = ground arith

char-is_dash : (c : ℕ) → slug_char c ≡ true → is_dash c ≡ false
unfolding slug_char
char-is_dash c h = ground arith

to_lower-Words : {s : Bytes} → Words s → to_lower s ≡ s
to_lower-Words (letter c h) = rw (char-lower c h)
to_lower-Words (more c h w) = rw (char-lower c h, to_lower-Words w)
to_lower-Words (dash c h w) = rw (char-lower c h, to_lower-Words w, dash_lower)
  where
    dash_lower : lower b'-' ≡ b'-'
    dash_lower = unfold lower in refl

slug_from-Words : {s : Bytes} (b : Bool) → Words s → slug_from s b ≡ s
unfolding slug_from
slug_from-Words b (letter c h) = rw h
slug_from-Words b (more c h w) = rw (h, slug_from-Words false w)
slug_from-Words b (dash c h w) = rw (h, slug_from-Words true w) (unfold slug_char in refl)

trim_end-cons :
    (p : ℕ → Bool) (c d : ℕ) (s r : Bytes)
    → s ≡ d ∷ r
    → trim_end p s ≡ s
    → trim_end p (c ∷ s) ≡ c ∷ s
unfolding trim_end
trim_end-cons p c d s r e h = rw (h, e)

-- Trimming bytes that no slug begins or ends with changes nothing.
module _ (p : ℕ → Bool) (out : (c : ℕ) → slug_char c ≡ true → p c ≡ false) where
  trim_end-Words : {s : Bytes} → Words s → trim_end p s ≡ s
  trim_end-Words (letter c h) = unfold trim_end in rw (out c h)
  trim_end-Words (more c {s} h w) =
      let (d, r, e, k) = Words-cons w in trim_end-cons p c d s r e (trim_end-Words w)
  trim_end-Words (dash c {s} h w) =
      let (d, r, e, k) = Words-cons w in
      trim_end-cons p c b'-' (b'-' ∷ s) s refl (trim_end-cons p b'-' d s r e (trim_end-Words w))

  drop_while-Words : {s : Bytes} → Words s → drop_while p s ≡ s
  unfolding drop_while
  drop_while-Words (letter c h) = rw (out c h)
  drop_while-Words (more c h w) = rw (out c h)
  drop_while-Words (dash c h w) = rw (out c h)

  trim_by-Words : {s : Bytes} → Words s → trim_by p s ≡ s
  unfolding trim_by
  trim_by-Words w = rw (trim_end-Words w) (drop_while-Words w)

slugify-Words : {s : Bytes} → Words s → slugify s ≡ s
unfolding slugify
slugify-Words w =
    rw (trim_by-Words is_space char-is_space w, to_lower-Words w, slug_from-Words false w)
      (trim_by-Words is_dash char-is_dash w)

-- What has the form of a slug is left as it is; so making a slug twice is making it once.
pub slugify-IsSlug_fixed : (s : Bytes) → IsSlug s → slugify s ≡ s
unfolding slugify
slugify-IsSlug_fixed s (inl e) = unfold trim_by in rw e
slugify-IsSlug_fixed s (inr w) = slugify-Words w

pub slugify_idempotent : (s : Bytes) → slugify (slugify s) ≡ slugify s
slugify_idempotent s = slugify-IsSlug_fixed (slugify s) (slugify-IsSlug s)

-- `UniqueProfileID` trims a slug once more, to no effect.
pub trim_by-slugify : (s : Bytes) → trim_by is_dash (slugify s) ≡ slugify s
trim_by-slugify s = elim (slugify-IsSlug s) [
  | inl e ↦ rw e (unfold trim_by in refl)
  | inr w ↦ trim_by-Words is_dash char-is_dash w
]
