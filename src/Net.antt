-- ===== src/Net.antt =====
-- What Go's net package reads of an address: `net.SplitHostPort` and `net.ParseIP`.
pub mod Octets
pub mod Numeric
use ssc.Base.{
  ℕ, zero, suc, ◌+◌, ◌-◌, ◌*◌, ◌/◌, ◌%◌, Bool, true, false, [], ◌∷◌, ◌++◌, Option, none, some,
  Bytes, ltb, ◌==◌, ◌||◌, ◌&&◌, not, any, if◌then◌else◌, length, ℤ, pos, negsuc, is_empty,
}
use ssc.Base.Decimal.{itoa, atoi, is_digit}

-- the text before the last colon, and that behind it
unfoldable pub split_last : Bytes → Option (Bytes × Bytes)
split_last [] = none
split_last (c ∷ s) = elim (split_last s) [
  | some hp ↦ some (c ∷ hp.0, hp.1)
  | none ↦ if c == b':' then some ([], s) else none
]

abbrev pub has : ℕ → Bytes → Bool
has c s = any (λ d. d == c) s

-- a host in brackets, with what is left of it after the first
abbrev bracketed : Bytes → Bytes → Option (Bytes × Bytes)
bracketed [] port = none
bracketed (c ∷ s) port =
    if c == b']'
    then (if is_empty s then some ([], port) else none)
    else elim (bracketed s port) [ none ↦ none | some hp ↦ some (c ∷ hp.0, hp.1) ]

abbrev without_brackets : Option (Bytes × Bytes) → Option (Bytes × Bytes)
without_brackets none = none
without_brackets (some hp) =
    if has b'[' hp.0 || has b'[' hp.1 || has b']' hp.1 then none else some hp

abbrev plain : Bytes → Bytes → Option (Bytes × Bytes)
plain host port =
    if has b':' host || has b'[' host || has b']' host || has b'[' port || has b']' port
    then none
    else some (host, port)

abbrev pub of_parts : Option (Bytes × Bytes) → Option (Bytes × Bytes)
of_parts none = none
of_parts (some ([], port)) = plain [] port
of_parts (some (c ∷ host, port)) =
    if c == b'[' then without_brackets (bracketed host port) else plain (c ∷ host) port

-- `net.SplitHostPort`
unfoldable pub split_host_port : Bytes → Option (Bytes × Bytes)
unfolding split_last
split_host_port s = of_parts (split_last s)

-- The octets of an IPv4 address: the value of the field so far, whether it has a digit, and the
-- fields before it. A field with a leading zero or above 255 is refused.
unfoldable pub octets : Bytes → ℕ → Bool → Bytes → Option Bytes
unfolding is_digit
octets [] val begun fields =
    if begun && (length fields == 3) then some (fields ++ val ∷ []) else none
octets (c ∷ s) val begun fields =
    let digit = octets s (val * 10 + (c - b'0')) true fields in
    let dot = octets s 0 false (fields ++ val ∷ []) in
    if is_digit c
    then (if (begun && (val == 0)) || ltb 255 (val * 10 + (c - b'0')) then none else digit)
    else if (c == b'.') && begun && not (length fields == 3)
    then dot
    else none

-- What `net.ParseIP` tells about an address.
pub record IpFacts : Type 0 where
  pub loopback : Bool
  pub unspecified : Bool
  pub multicast : Bool

abbrev pub facts_of : ℕ → ℕ → ℕ → ℕ → IpFacts
facts_of a b c d = record {
  loopback = a == 127;
  unspecified = (a == 0) && (b == 0) && (c == 0) && (d == 0);
  multicast = a / 16 == 14;
}

abbrev pub facts_of_ipv4 : Option Bytes → Option IpFacts
facts_of_ipv4 (some (a ∷ b ∷ c ∷ d ∷ [])) = some (facts_of a b c d)
facts_of_ipv4 other = none

-- A text with a colon before any dot is parsed as an IPv6 address, which is a parameter.
module _ (parse_ipv6 : Bytes → Option IpFacts) where
  -- the rest of a text from its first dot or colon on decides how it is read
  abbrev pub parse_from : Bytes → Bytes → Option IpFacts
  parse_from whole [] = none
  parse_from whole (c ∷ s) =
      let rest = parse_from whole s in
      if c == b'.'
      then facts_of_ipv4 (octets whole 0 false [])
      else if c == b':'
      then parse_ipv6 whole
      else rest

  -- `net.ParseIP`
  unfoldable pub parse_ip : Bytes → Option IpFacts
  parse_ip s = parse_from s s
