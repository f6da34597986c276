-- ===== src/Base/Decimal.antt =====
-- `strconv.Itoa` and `strconv.Atoi` on numbers that are not negative, and `%d`.
use Prim.Native.Nat.{ℕ, zero, suc, ◌+◌, ◌-◌, ◌*◌, ◌/◌, ◌%◌, ◌<◌}
use mathlib.Core.Path.{◌≡◌, refl, ap, ◌∙◌}
use mathlib.Core.Bool.{Bool, true, ◌&&◌}
use mathlib.Core.Logic.{inl, inr}
use mathlib.Core.List.{[], ◌∷◌}
use mathlib.Core.Option.{Option, none, some}
use native.Mathlib.Omega.{arith}
use ssc.Base.Tests.{leb, ◌==◌, if◌then◌else◌, Bool-cases}
use ssc.Base.Text.{Bytes}
use ssc.Base.Int.{ℤ, pos, negsuc}

-- The last digit first; `n < f` is fuel enough.
unfoldable pub digits_from : ℕ → ℕ → Bytes → Bytes
digits_from zero n out = out
digits_from (suc f) n out =
    let more = digits_from f (n / 10) ((b'0' + n % 10) ∷ out) in
    if n / 10 == 0 then (b'0' + n % 10) ∷ out else more

unfoldable pub itoa : ℕ → Bytes
unfolding digits_from
itoa n = digits_from (suc n) n []

unfoldable pub is_digit : ℕ → Bool
is_digit c = leb b'0' c && leb c b'9'

unfoldable pub value_from : Bytes → ℕ → Option ℕ
unfolding is_digit
value_from [] n = some n
value_from (c ∷ s) n = if is_digit c then value_from s (n * 10 + (c - b'0')) else none

-- An empty text is a syntax error.
unfoldable pub atoi : Bytes → Option ℕ
unfolding value_from
atoi [] = none
atoi (c ∷ s) = value_from (c ∷ s) 0

value_from-digit :
    (d n : ℕ) (s : Bytes) → d < 10 → value_from ((b'0' + d) ∷ s) n ≡ value_from s (n * 10 + d)
unfolding value_from
value_from-digit d n s h = ground arith

value_from-digits_from :
    (f n : ℕ) (out : Bytes) → n < f → value_from (digits_from f n out) 0 ≡ value_from out n
unfolding digits_from
value_from-digits_from zero n out h = elim h [ ]
value_from-digits_from (suc f) n out h = elim (Bool-cases (n / 10 == 0)) [
  | inl small ↦
      rw small
        (value_from-digit (n % 10) 0 out (omega arith) ∙ λ i. value_from out (small_lem n small i))
  | inr large ↦ rw large (
      value_from-digits_from f (n / 10) ((b'0' + n % 10) ∷ out) (ground arith)
      ∙ value_from-digit (n % 10) (n / 10) out (omega arith)
      ∙ λ i. value_from out (whole n i))
]
  where
    small_lem : (k : ℕ) → (k / 10 == 0) ≡ true → 0 * 10 + k % 10 ≡ k
    small_lem k e = ground arith

    whole : (k : ℕ) → k / 10 * 10 + k % 10 ≡ k
    whole k = omega arith

digits_from-cons :
    (f n c : ℕ) (out : Bytes) → (d : ℕ) × (s : Bytes) × (digits_from f n (c ∷ out) ≡ d ∷ s)
unfolding digits_from
digits_from-cons zero n c out = (c, out, refl)
digits_from-cons (suc f) n c out = elim (Bool-cases (n / 10 == 0)) [
  | inl small ↦ (b'0' + n % 10, c ∷ out, rw small)
  | inr large ↦ rw large (digits_from-cons f (n / 10) (b'0' + n % 10) (c ∷ out))
]

itoa-cons : (n : ℕ) → (d : ℕ) × (s : Bytes) × (itoa n ≡ d ∷ s)
unfolding itoa digits_from
itoa-cons n = elim (Bool-cases (n / 10 == 0)) [
  | inl small ↦ (b'0' + n % 10, [], rw small)
  | inr large ↦ rw large (digits_from-cons n (n / 10) (b'0' + n % 10) [])
]

atoi-cons : (s : Bytes) (d : ℕ) (r : Bytes) → s ≡ d ∷ r → atoi s ≡ value_from s 0
unfolding atoi
atoi-cons s d r e = rw e

value_from-itoa : (n : ℕ) → value_from (itoa n) 0 ≡ some n
unfolding itoa value_from
value_from-itoa n = value_from-digits_from (suc n) n [] (omega arith)

-- Every number is read back.
pub atoi-itoa : (n : ℕ) → atoi (itoa n) ≡ some n
atoi-itoa n = let (d, s, e) = itoa-cons n in atoi-cons (itoa n) d s e ∙ value_from-itoa n

pub itoa-injective : (m n : ℕ) → itoa m ≡ itoa n → m ≡ n
itoa-injective m n e = ground (arith, atoi-itoa m, atoi-itoa n, ap atoi e)

-- `strconv.Itoa` of any `int`
unfoldable pub int_text : ℤ → Bytes
unfolding itoa
int_text (pos n) = itoa n
int_text (negsuc n) = b'-' ∷ itoa (n + 1)
