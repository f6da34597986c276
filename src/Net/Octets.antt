-- ===== src/Net/Octets.antt =====
-- That the fields of an IPv4 address are read back from their decimal numerals.
use ssc.Base.{
  ℕ, zero, suc, ◌+◌, ◌*◌, ◌/◌, ◌%◌, ◌≤◌, ◌<◌, ◌≡◌, refl, sym, ap, ◌∙◌, ◌⊎◌, inl, inr, Bool, true,
  false, [], ◌∷◌, ◌++◌, append-nil, some, Bytes, ◌==◌, length, Bool-cases, arith, if_decided,
}
use ssc.Base.Decimal.{digits_from, itoa, is_digit}
use ssc.Net.{octets}

octets-digit :
    (d val : ℕ) (begun : Bool) (s fields : Bytes)
    → d < 10
    → val * 10 + d < 256
    → (begun ≡ false) ⊎ (1 ≤ val)
    → octets ((b'0' + d) ∷ s) val begun fields ≡ octets s (val * 10 + d) true fields
unfolding octets is_digit
octets-digit d val false s fields h k (inl e) = ground arith
octets-digit d val true s fields h k (inl e) = absurd (cc)
octets-digit d val begun s fields h k (inr e) = ground arith

-- One field is read to its end.
octets-digits_from :
    (f n : ℕ) (out fields : Bytes)
    → n < f
    → n < 256
    → octets (digits_from f n out) 0 false fields ≡ octets out n true fields
unfolding digits_from
octets-digits_from zero n out fields h k = absurd (omega arith)
octets-digits_from (suc f) n out fields h k =
    let d = n % 10 in
    let whole : n / 10 * 10 + d ≡ n = omega arith in
    let more : Bytes = (b'0' + d) ∷ out in
    if_decided (λ s. octets s 0 false fields ≡ octets out n true fields) (n / 10 == 0) _ _
      (λ e.
        octets-digit d 0 false out fields (omega arith) (omega arith) (inl refl)
        ∙ ap (λ v. octets out v true fields) (ground (arith, e)))
      (λ e.
        octets-digits_from f (n / 10) more fields (ground (arith, e)) (omega arith)
        ∙ octets-digit d (n / 10) true out fields (omega arith) (omega arith)
            (inr (ground (arith, e)))
        ∙ ap (λ v. octets out v true fields) whole)

digits_from-append :
    (f n : ℕ) (out r : Bytes) → digits_from f n out ++ r ≡ digits_from f n (out ++ r)
unfolding digits_from
digits_from-append zero n out r = refl
digits_from-append (suc f) n out r =
    let more : Bytes = (b'0' + n % 10) ∷ out in
    elim (Bool-cases (n / 10 == 0)) [
      | inl e ↦ rw e refl
      | inr e ↦ rw e (digits_from-append f (n / 10) more r)
    ]

octets-itoa :
    (a : ℕ) (r fields : Bytes)
    → a < 256
    → octets (itoa a ++ r) 0 false fields ≡ octets r a true fields
unfolding itoa
octets-itoa a r fields h =
    ap (λ s. octets s 0 false fields) (digits_from-append (suc a) a [] r)
    ∙ octets-digits_from (suc a) a r fields (omega arith) h

octets-dot :
    (s fields : Bytes) (v : ℕ)
    → length fields < 3
    → octets (b'.' ∷ s) v true fields ≡ octets s 0 false (fields ++ v ∷ [])
unfolding octets is_digit
octets-dot s fields v h = ground arith

-- A field and its dot are read.
octets-field :
    (a : ℕ) (s fields : Bytes)
    → a < 256
    → length fields < 3
    → octets (itoa a ++ b'.' ∷ s) 0 false fields ≡ octets s 0 false (fields ++ a ∷ [])
octets-field a s fields h k = octets-itoa a (b'.' ∷ s) fields h ∙ octets-dot s fields a k

pub octets-ipv4_text :
    (a b c d : ℕ)
    → a < 256
    → b < 256
    → c < 256
    → d < 256
    → octets (itoa a ++ (b'.' ∷ itoa b ++ (b'.' ∷ itoa c ++ (b'.' ∷ itoa d)))) 0 false []
      ≡ some (a ∷ b ∷ c ∷ d ∷ [])
unfolding octets
octets-ipv4_text a b c d h k l m =
    octets-field a _ [] h (omega arith)
    ∙ octets-field b _ (a ∷ []) k (omega arith)
    ∙ octets-field c _ (a ∷ b ∷ []) l (omega arith)
    ∙ ap (λ s. octets s 0 false (a ∷ b ∷ c ∷ [])) (sym (append-nil (itoa d)))
    ∙ octets-itoa d [] (a ∷ b ∷ c ∷ []) m
