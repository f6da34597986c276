-- ===== src/Net/Numeric.antt =====
-- That the text of an IPv4 address and a port is split and parsed to what it was made of.
use ssc.Base.{
  ℕ, zero, suc, ◌+◌, ◌/◌, ◌%◌, ◌≤◌, ◌<◌, ◌≡◌, ◌≢◌, refl, ap, ◌∙◌, inl, inr, false, [], ◌∷◌, ◌++◌,
  append_assoc, Option, none, some, Bytes, ◌==◌, All, All-append, Bool-cases, arith, if_holds,
}
use ssc.Base.Decimal.{digits_from, itoa}
use ssc.Socks5.Server.{byte_at, ipv4_text, join_host_port}
use ssc.Net.Octets.{octets-ipv4_text}
use ssc.Net.{
  split_last, has, of_parts, split_host_port, octets, IpFacts, facts_of, facts_of_ipv4, parse_ip,
  parse_from,
}

-- the characters of an IPv4 address
abbrev pub IsNumeric : ℕ → Type 0
IsNumeric c = (b'.' ≤ c) × (c < b':') × (c ≢ b'/')

digits_from-IsNumeric :
    (f n : ℕ) (out : Bytes) → All IsNumeric out → All IsNumeric (digits_from f n out)
unfolding digits_from
digits_from-IsNumeric zero n out h = h
digits_from-IsNumeric (suc f) n out h =
    let k : All IsNumeric ((b'0' + n % 10) ∷ out) = ((omega arith, omega arith, omega arith), h) in
    if_holds (All IsNumeric) (n / 10 == 0) _ _ k (digits_from-IsNumeric f (n / 10) _ k)

pub itoa-IsNumeric : (n : ℕ) → All IsNumeric (itoa n)
unfolding itoa
itoa-IsNumeric n = digits_from-IsNumeric (suc n) n [] tt

pub ipv4_text-IsNumeric : (b : Bytes) → All IsNumeric (ipv4_text b)
unfolding ipv4_text
ipv4_text-IsNumeric b =
    let dot : IsNumeric b'.' = (omega arith, omega arith, omega arith) in
    let field = λ (i : ℕ). itoa-IsNumeric (byte_at b i) in
    let join = λ (a : Bytes) (h : All IsNumeric a) (i : ℕ).
      All-append IsNumeric a (b'.' ∷ itoa (byte_at b i)) h (dot, field i) in
    join _ (join _ (join _ (field 0) 1) 2) 3

-- none of these characters is a colon or a bracket
pub numeric_lacks : (c : ℕ) (s : Bytes) → b':' ≤ c → All IsNumeric s → has c s ≡ false
numeric_lacks c [] h k = refl
numeric_lacks c (d ∷ s) h ((a, b, e), k) = ground (arith, numeric_lacks c s h k)

split_last-numeric : (s : Bytes) → All IsNumeric s → split_last s ≡ none
unfolding split_last
split_last-numeric [] h = refl
split_last-numeric (c ∷ s) ((a, b, e), h) = rw (split_last-numeric s h) (ground arith)

split_last-append : (h p : Bytes) → All IsNumeric p → split_last (h ++ b':' ∷ p) ≡ some (h, p)
unfolding split_last
split_last-append [] p k = rw (split_last-numeric p k) refl
split_last-append (c ∷ h) p k = rw (split_last-append h p k) refl

of_parts-numeric :
    (h p : Bytes) → All IsNumeric h → All IsNumeric p → of_parts (some (h, p)) ≡ some (h, p)
of_parts-numeric [] p h k =
    rw (numeric_lacks b'[' p (omega arith) k, numeric_lacks b']' p (omega arith) k) refl
of_parts-numeric (c ∷ s) p ((a, b, e), h) k = ground (
  arith,
  numeric_lacks b':' s (omega arith) h,
  numeric_lacks b'[' s (omega arith) h,
  numeric_lacks b']' s (omega arith) h,
  numeric_lacks b'[' p (omega arith) k,
  numeric_lacks b']' p (omega arith) k,
)

pub split_host_port-numeric :
    (h p : Bytes)
    → All IsNumeric h
    → All IsNumeric p
    → split_host_port (join_host_port h p) ≡ some (h, p)
unfolding split_host_port join_host_port
split_host_port-numeric h p a b =
    rw (numeric_lacks b':' h (omega arith) a, split_last-append h p b) (of_parts-numeric h p a b)

parse_from-dot :
    (v6 : Bytes → Option IpFacts) (whole p s : Bytes)
    → All IsNumeric p
    → parse_from v6 whole (p ++ b'.' ∷ s) ≡ facts_of_ipv4 (octets whole 0 false [])
parse_from-dot v6 whole [] s h = refl
parse_from-dot v6 whole (c ∷ p) s ((a, b, e), h) =
    let other : (c == b':') ≡ false = ground arith in
    elim (Bool-cases (c == b'.')) [
      | inl g ↦ rw g refl
      | inr g ↦ rw (g, other) (parse_from-dot v6 whole p s h)
    ]

pub right_nested :
    (a b c d : ℕ)
    → ipv4_text (a ∷ b ∷ c ∷ d ∷ [])
      ≡ itoa a ++ (b'.' ∷ itoa b ++ (b'.' ∷ itoa c ++ (b'.' ∷ itoa d)))
unfolding ipv4_text
right_nested a b c d =
    append_assoc (itoa a ++ (b'.' ∷ itoa b)) (b'.' ∷ itoa c) (b'.' ∷ itoa d)
    ∙ append_assoc (itoa a) (b'.' ∷ itoa b) (b'.' ∷ itoa c ++ (b'.' ∷ itoa d))

pub parse_ip-ipv4_text :
    (v6 : Bytes → Option IpFacts) (a b c d : ℕ)
    → a < 256
    → b < 256
    → c < 256
    → d < 256
    → parse_ip v6 (ipv4_text (a ∷ b ∷ c ∷ d ∷ [])) ≡ some (facts_of a b c d)
unfolding parse_ip
parse_ip-ipv4_text v6 a b c d h k l m = rw (right_nested a b c d) (
    parse_from-dot v6 _ (itoa a) _ (itoa-IsNumeric a)
    ∙ ap facts_of_ipv4 (octets-ipv4_text a b c d h k l m))
