-- ===== src/Base/Find.antt =====
-- The search of one text in another (`strings.Index`), and what more text after it changes.
use Prim.Native.Nat.{ℕ, zero, suc, ◌+◌, ◌≤◌}
use mathlib.Core.Path.{◌≡◌, refl, ap, ◌∙◌, sym}
use mathlib.Core.Bool.{Bool, true, false}
use mathlib.Core.Option
use mathlib.Core.Option.{Option, none, some}
use mathlib.Core.List.{List, [], ◌∷◌, ◌++◌}
use mathlib.Core.Bool.{◌&&◌}
use native.Mathlib.Omega.{arith}
use ssc.Base.Lists.{length, drop}
use ssc.Base.Tests.{◌==◌, if◌then◌else◌}
use ssc.Base.Text.{Bytes, has_prefix, index}

-- Only as many bytes are looked at as are searched for.
has_prefix-append : (s p t : Bytes) → length p ≤ length s → has_prefix (s ++ t) p ≡ has_prefix s p
unfolding has_prefix
has_prefix-append s [] t h = refl
has_prefix-append [] (d ∷ p) t h = absurd (omega (arith, h))
has_prefix-append (c ∷ s) (d ∷ p) t h =
    ap (λ b. (c == d) && b) (has_prefix-append s p t (omega (arith, h)))

and_right : (a b : Bool) → (a && b) ≡ true → b ≡ true
and_right true b h = h
and_right false b h = absurd (cc)

has_prefix-room : (s p : Bytes) → has_prefix s p ≡ true → length p ≤ length s
unfolding has_prefix
has_prefix-room s [] h = omega arith
has_prefix-room [] (d ∷ p) h = absurd (cc)
has_prefix-room (c ∷ s) (d ∷ p) h =
    omega (arith, has_prefix-room s p (and_right (c == d) (has_prefix s p) h))

-- How a text can be found: at its beginning or, when it is not there, in its rest.
data Found (here : Bool) (later : Option ℕ) (i : ℕ) : Type 0 where
  at_once : here ≡ true → i ≡ 0 → Found here later i
  further : (j : ℕ) → here ≡ false → later ≡ some j → i ≡ suc j → Found here later i

Found-cases :
    (here : Bool) (later : Option ℕ) (i : ℕ)
    → (if here then some 0 else Option.map suc later) ≡ some i
    → Found here later i
Found-cases true later i h = at_once refl (cc)
Found-cases false none i h = absurd (cc)
Found-cases false (some j) i h = further j refl refl (cc)

-- The text found lies inside the text that is searched.
pub index-room : (s p : Bytes) (i : ℕ) → index s p ≡ some i → i + length p ≤ length s
unfolding index
index-room [] p i h = at_end (Found-cases (has_prefix [] p) none i h)
  where
    at_end : Found (has_prefix [] p) none i → i + length p ≤ 0
    at_end (at_once k e) = omega (arith, has_prefix-room [] p k, e)
    at_end (further j k n e) = absurd (cc)
index-room (c ∷ s) p i h = elim (Found-cases (has_prefix (c ∷ s) p) (index s p) i h) [
  | at_once k e ↦ omega (arith, has_prefix-room (c ∷ s) p k, e)
  | further j k n e ↦ omega (arith, index-room s p j n, e)
]

-- More text behind does not change where the text is found first.
pub index-append : (s p t : Bytes) (i : ℕ) → index s p ≡ some i → index (s ++ t) p ≡ some i
unfolding index
index-append [] [] [] i h = h
index-append [] [] (x ∷ t) i h = h
index-append [] (d ∷ p) t i h = absurd (cc)
index-append (c ∷ s) p t i h = elim (Found-cases (has_prefix (c ∷ s) p) (index s p) i h) [
  | at_once k e ↦
      let same = has_prefix-append (c ∷ s) p t (has_prefix-room (c ∷ s) p k) in
      ap (λ b. if b then some 0 else Option.map suc (index (s ++ t) p)) (same ∙ k) ∙ ap some (sym e)
  | further j k n e ↦
      let same = has_prefix-append (c ∷ s) p t (omega (arith, index-room s p j n)) in
      ap (λ b. if b then some 0 else Option.map suc (index (s ++ t) p)) (same ∙ k)
      ∙ ap (Option.map suc) (index-append s p t j n)
      ∙ ap some (sym e)
]

pub drop-append {ℓ} :
    {A : Type ℓ} (n : ℕ) (s t : List A) → n ≤ length s → drop n (s ++ t) ≡ drop n s ++ t
drop-append zero s t h = refl
drop-append (suc n) [] t h = absurd (omega (arith, h))
drop-append (suc n) (c ∷ s) t h = drop-append n s t (omega (arith, h))
