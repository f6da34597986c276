-- ===== src/Dnsx/Extracting.antt =====
-- That what `ExtractIPv4s` gives are addresses.
use ssc.Base.{
  ℕ, ◌+◌, ◌-◌, ◌*◌, ◌<◌, ◌≡◌, refl, Bool, true, false, List, [], ◌∷◌, ◌++◌, Option, none, some,
  Bytes, ltb, leb, ◌==◌, ◌&&◌, ◌||◌, not, length, one_of, All, All-append, arith, if_decided,
  if_holds, length-append,
}
use ssc.Base.Decimal.{is_digit}
use ssc.Socks5.Server.{ipv4_text}
use ssc.Net.{octets}
use ssc.Dnsx.{append_unique, ParseIpv4, keep_parsed}
use ssc.Dnsx.Lists.{IsDistinct, append_unique-IsDistinct}
use ssc.Dnsx.Sources.{text_of, numeric_fields, parse_numeric, keep_all, extract_ipv4s}

abbrev pub IsQuad : Bytes → Type 0
IsQuad b = (length b ≡ 4) × All (λ c. c < 256) b

-- the text of an IPv4 address
abbrev pub IsIpv4 : Bytes → Type 0
IsIpv4 t = (b : Bytes) × IsQuad b × (t ≡ ipv4_text b)

abbrev QuadOr : Option Bytes → Type 0
QuadOr none = Unit
QuadOr (some b) = IsQuad b

octets-QuadOr :
    (s : Bytes) (val : ℕ) (begun : Bool) (fields : Bytes)
    → val < 256
    → All (λ c. c < 256) fields
    → QuadOr (octets s val begun fields)
unfolding octets is_digit
octets-QuadOr [] val begun fields h k =
    if_decided QuadOr (begun && (length fields == 3)) _ _
      (λ e. (
        ground (arith, e, length-append fields (val ∷ [])),
        All-append (λ c. c < 256) fields (val ∷ []) k (h, tt),
      ))
      (λ e. tt)
octets-QuadOr (c ∷ s) val begun fields h k =
    let next : ℕ = val * 10 + (c - b'0') in
    if_decided QuadOr (leb b'0' c && leb c b'9') _ _
      (λ e.
        if_decided QuadOr ((begun && (val == 0)) || ltb 255 next) _ _ (λ f. tt)
          (λ f. octets-QuadOr s next true fields (ground (arith, f)) k))
      (λ e.
        if_holds QuadOr ((c == b'.') && begun && not (length fields == 3)) _ _
          (octets-QuadOr s 0 false (fields ++ val ∷ []) (omega arith)
            (All-append (λ c. c < 256) fields (val ∷ []) k (h, tt)))
          tt)

abbrev pub Ipv4Or : Option Bytes → Type 0
Ipv4Or none = Unit
Ipv4Or (some t) = IsIpv4 t

pub parse_numeric-Ipv4Or : (s : Bytes) → Ipv4Or (parse_numeric s)
unfolding parse_numeric
parse_numeric-Ipv4Or s =
    by_octets (octets s 0 false []) (octets-QuadOr s 0 false [] (omega arith) tt)
  where
    by_octets : (o : Option Bytes) → QuadOr o → Ipv4Or (text_of o)
    by_octets none h = tt
    by_octets (some b) h = (b, h, refl)

-- A list of texts of IPv4 addresses without duplicates.
abbrev pub IsAddressList : List Bytes → Type 0
IsAddressList xs = All IsIpv4 xs × IsDistinct xs

append_unique-All :
    (xs : List Bytes) (v : Bytes) → All IsIpv4 xs → IsIpv4 v → All IsIpv4 (append_unique xs v)
unfolding append_unique
append_unique-All xs v h k =
    if_holds (All IsIpv4) (one_of v xs) _ _ h (All-append IsIpv4 xs (v ∷ []) h (k, tt))

pub keep_all-IsAddressList :
    (parse : ParseIpv4) (xs out : List Bytes)
    → ((s : Bytes) → Ipv4Or (parse s))
    → IsAddressList out
    → IsAddressList (keep_all parse xs out)
unfolding keep_all
keep_all-IsAddressList parse [] out p h = h
keep_all-IsAddressList parse (x ∷ xs) out p h =
    keep_all-IsAddressList parse xs (keep_parsed (parse x) out) p (by_parse (parse x) (p x))
  where
    by_parse : (o : Option Bytes) → Ipv4Or o → IsAddressList (keep_parsed o out)
    by_parse none k = h
    by_parse (some t) k = (append_unique-All out t h.0 k, append_unique-IsDistinct out t h.1)

pub extract_ipv4s-IsAddressList : (s : Bytes) → IsAddressList (extract_ipv4s s)
unfolding extract_ipv4s
extract_ipv4s-IsAddressList s =
    keep_all-IsAddressList parse_numeric (numeric_fields [] s) [] parse_numeric-Ipv4Or (tt, tt)
