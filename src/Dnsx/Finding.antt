-- ===== src/Dnsx/Finding.antt =====
-- That `ExtractIPv4s` finds every address that stands in the text.
use ssc.Base.{
  ℕ, ◌<◌, ◌≡◌, refl, sym, ap, ◌∙◌, inl, inr, Bool, true, false, List, [], ◌∷◌, ◌++◌, append_assoc,
  append-nil, Option, none, some, Bytes, ◌||◌, is_empty, one_of, text_eq, text_eq_refl, text_eq_iff,
  All, arith, if_decided, if_holds, Bool-cases,
}
use ssc.Socks5.Server.{ipv4_text}
use ssc.Net.{octets}
use ssc.Net.Octets.{octets-ipv4_text}
use ssc.Net.Numeric.{IsNumeric, ipv4_text-IsNumeric, right_nested}
use ssc.Dnsx.{append_unique, ParseIpv4, keep_parsed}
use ssc.Dnsx.Sources.{text_of, is_numeric, numeric_fields, parse_numeric, keep_all, extract_ipv4s}

-- a text that stands in a list
abbrev pub In : Bytes → List Bytes → Type 0
In v xs = one_of v xs ≡ true

or_intro : (a b : Bool) → b ≡ true → (a || b) ≡ true
or_intro true b h = refl
or_intro false b h = h

In-append : (v : Bytes) (xs ys : List Bytes) → In v xs → In v (xs ++ ys)
unfolding one_of
In-append v [] ys h = absurd (cc)
In-append v (x ∷ xs) ys h = elim (Bool-cases (text_eq v x)) [
  | inl e ↦ rw e refl
  | inr e ↦ or_intro (text_eq v x) (one_of v (xs ++ ys)) (In-append v xs ys (ground (arith, e, h)))
]

In-last : (v : Bytes) (xs : List Bytes) → In v (xs ++ v ∷ [])
unfolding one_of
In-last v [] = rw (text_eq_refl v) refl
In-last v (x ∷ xs) = or_intro (text_eq v x) (one_of v (xs ++ v ∷ [])) (In-last v xs)

In-append_unique : (v w : Bytes) (xs : List Bytes) → In v xs → In v (append_unique xs w)
unfolding append_unique
In-append_unique v w xs h = if_holds (In v) (one_of w xs) _ _ h (In-append v xs (w ∷ []) h)

In-append_unique_self : (v : Bytes) (xs : List Bytes) → In v (append_unique xs v)
unfolding append_unique
In-append_unique_self v xs = if_decided (In v) (one_of v xs) _ _ (λ e. e) (λ e. In-last v xs)

In-keep_parsed :
    (v : Bytes) (o : Option Bytes) (xs : List Bytes) → In v xs → In v (keep_parsed o xs)
In-keep_parsed v none xs h = h
In-keep_parsed v (some w) xs h = In-append_unique v w xs h

In-keep_all :
    (v : Bytes) (parse : ParseIpv4) (xs out : List Bytes) → In v out → In v (keep_all parse xs out)
unfolding keep_all
In-keep_all v parse [] out h = h
In-keep_all v parse (x ∷ xs) out h =
    In-keep_all v parse xs (keep_parsed (parse x) out) (In-keep_parsed v (parse x) out h)

-- A field that parses is kept.
keep_all-field :
    (parse : ParseIpv4) (f v : Bytes) (xs out : List Bytes)
    → parse f ≡ some v
    → In f xs
    → In v (keep_all parse xs out)
unfolding keep_all one_of
keep_all-field parse f v [] out e h = absurd (cc)
keep_all-field parse f v (x ∷ xs) out e h = elim (Bool-cases (text_eq f x)) [
  | inl k ↦
      let g : x ≡ f = sym ((text_eq_iff f x).0 k) in
      let p : parse x ≡ some v = ap parse g ∙ e in
      rw p (In-keep_all v parse xs (append_unique out v) (In-append_unique_self v out))
  | inr k ↦ keep_all-field parse f v xs (keep_parsed (parse x) out) e (ground (arith, k, h))
]

is_numeric_of : (c : ℕ) → IsNumeric c → is_numeric c ≡ true
is_numeric_of c (a, b, d) = ground (arith, a, b, d)

-- A run of digits and dots is one field with what is read before it.
numeric_fields-run :
    (acc w q : Bytes) → All IsNumeric w → numeric_fields acc (w ++ q) ≡ numeric_fields (acc ++ w) q
unfolding numeric_fields
numeric_fields-run acc [] q h = ap (λ a. numeric_fields a q) (sym (append-nil acc))
numeric_fields-run acc (c ∷ w) q (h, hs) = rw (is_numeric_of c h) (
    numeric_fields-run (acc ++ c ∷ []) w q hs
    ∙ ap (λ a. numeric_fields a q) (append_assoc acc (c ∷ []) w))

-- what may follow an address: nothing, or a character that is no digit and no dot
abbrev pub IsEdge : Bytes → Type 0
IsEdge [] = Unit
IsEdge (c ∷ q) = is_numeric c ≡ false

In-numeric_fields :
    (w q : Bytes)
    → is_empty w ≡ false
    → All IsNumeric w
    → IsEdge q
    → In w (numeric_fields [] (w ++ q))
unfolding numeric_fields one_of
In-numeric_fields w [] n h e = rw (numeric_fields-run [] w [] h, n, text_eq_refl w) refl
In-numeric_fields w (c ∷ q) n h e =
    rw (numeric_fields-run [] w (c ∷ q) h, e, n, text_eq_refl w) refl

-- a field stays one whatever stands before its edge
numeric_fields-before :
    (f acc p q : Bytes) (c : ℕ)
    → is_numeric c ≡ false
    → In f (numeric_fields [] q)
    → In f (numeric_fields acc (p ++ c ∷ q))
unfolding numeric_fields one_of
numeric_fields-before f acc [] q c e h =
    rw e (if_holds (In f) (is_empty acc) _ _ h (or_intro (text_eq f acc) _ h))
numeric_fields-before f acc (d ∷ p) q c e h =
    if_holds (In f) (is_numeric d) _ _ (numeric_fields-before f (acc ++ d ∷ []) p q c e h) (
      if_holds (In f) (is_empty acc) _ _ (numeric_fields-before f [] p q c e h)
        (or_intro (text_eq f acc) _ (numeric_fields-before f [] p q c e h)))

parse_numeric-ipv4_text :
    (a b c d : ℕ)
    → a < 256
    → b < 256
    → c < 256
    → d < 256
    → parse_numeric (ipv4_text (a ∷ b ∷ c ∷ d ∷ [])) ≡ some (ipv4_text (a ∷ b ∷ c ∷ d ∷ []))
unfolding parse_numeric
parse_numeric-ipv4_text a b c d h k l m =
    ap (λ s. text_of (octets s 0 false [])) (right_nested a b c d)
    ∙ ap text_of (octets-ipv4_text a b c d h k l m)

not_empty : (x : ℕ) (s t : Bytes) → is_empty (s ++ x ∷ t) ≡ false
not_empty x [] t = refl
not_empty x (c ∷ s) t = refl

ipv4_text-not_empty : (b : Bytes) → is_empty (ipv4_text b) ≡ false
unfolding ipv4_text
ipv4_text-not_empty b = not_empty b'.' _ _

-- `ExtractIPv4s` finds every address that stands in the text, at its beginning or behind any text that
-- ends in no digit and no dot, and at its end or before such a character.
pub extract_ipv4s-finds :
    (a b c d : ℕ) (p q : Bytes) (edge : ℕ)
    → a < 256
    → b < 256
    → c < 256
    → d < 256
    → is_numeric edge ≡ false
    → IsEdge q
    → In (ipv4_text (a ∷ b ∷ c ∷ d ∷ [])) (extract_ipv4s (ipv4_text (a ∷ b ∷ c ∷ d ∷ []) ++ q))
      × In
          (ipv4_text (a ∷ b ∷ c ∷ d ∷ []))
          (extract_ipv4s (p ++ edge ∷ (ipv4_text (a ∷ b ∷ c ∷ d ∷ []) ++ q)))
unfolding extract_ipv4s
extract_ipv4s-finds a b c d p q edge h k l m e f =
    let v = ipv4_text (a ∷ b ∷ c ∷ d ∷ []) in
    let parses = parse_numeric-ipv4_text a b c d h k l m in
    let first = In-numeric_fields v q (ipv4_text-not_empty _) (ipv4_text-IsNumeric _) f in
    (
      keep_all-field parse_numeric v v _ [] parses first,
      keep_all-field parse_numeric v v _ [] parses
          (numeric_fields-before v [] p (v ++ q) edge e first),
    )
