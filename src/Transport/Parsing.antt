-- ===== src/Transport/Parsing.antt =====
-- internal/transport/transport.go: `ExtractHTTPStatuses`, `ExtractSSHBanner`, `AllowedStatuses` and
-- `preview`.
use ssc.Base.{
  ℕ, zero, suc, ◌+◌, ◌^◌, Bool, List, [], ◌∷◌, ◌++◌, Option, none, some, if◌then◌else◌, Bytes,
  codes, ℤ, pos, negsuc, int_eq, is_empty, any, all, ◌||◌, ◌==◌, ltb, has_prefix, index, is_space,
  trim_space, take, drop,
}
use ssc.Base.Decimal.{atoi}

-- the lines of `strings.Split(strings.ReplaceAll(s, "\r\n", "\n"), "\n")`; `line` is the line so far
unfoldable pub lines_from : Bytes → Bytes → List Bytes
lines_from [] line = line ∷ []
lines_from (c ∷ []) line = if c == b'\n' then line ∷ [] ∷ [] else (line ++ c ∷ []) ∷ []
lines_from (c ∷ d ∷ s) line =
    let rest = lines_from s [] in
    let next = lines_from (d ∷ s) [] in
    let on = lines_from (d ∷ s) (line ++ c ∷ []) in
    if c == b'\r'
    then (if d == b'\n' then line ∷ rest else on)
    else if c == b'\n'
    then line ∷ next
    else on

abbrev add_field : Bytes → List Bytes → List Bytes
add_field [] fields = fields
add_field (c ∷ s) fields = (c ∷ s) ∷ fields

-- `strings.Fields`; `field` is the field so far
unfoldable pub fields_from : Bytes → Bytes → List Bytes
fields_from [] field = add_field field []
fields_from (c ∷ s) field =
    let closed = fields_from s [] in
    let longer = fields_from s (field ++ c ∷ []) in
    if is_space c then add_field field closed else longer

abbrev in_range : ℕ → Option ℕ → Option ℕ
in_range limit none = none
in_range limit (some n) = if ltb n limit then some n else none

abbrev positive : Option ℕ → Option ℤ
positive none = none
positive (some n) = some (pos n)

abbrev negative : Option ℕ → Option ℤ
negative none = none
negative (some zero) = some (pos 0)
negative (some (suc n)) = some (negsuc n)

-- `strconv.Atoi`, of an `int` of 64 bits
unfoldable pub parse_int : Bytes → Option ℤ
parse_int [] = none
parse_int (c ∷ s) =
    if c == b'-'
    then negative (in_range (2 ^ 63 + 1) (atoi s))
    else if c == b'+'
    then positive (in_range (2 ^ 63) (atoi s))
    else positive (in_range (2 ^ 63) (atoi (c ∷ s)))

-- the status of a line's fields
unfoldable pub status_of : List Bytes → Option ℤ
status_of [] = none
status_of (proto ∷ []) = none
status_of (proto ∷ code ∷ more) = parse_int code

-- the status of one line, if it has one
unfoldable pub line_status : Bytes → Option ℤ
line_status line =
    let text = trim_space line in
    if has_prefix text (codes "HTTP/") then status_of (fields_from text []) else none

abbrev prepend : Option ℤ → List ℤ → List ℤ
prepend none out = out
prepend (some n) out = n ∷ out

unfoldable pub statuses_of : List Bytes → List ℤ
statuses_of [] = []
statuses_of (line ∷ lines) = prepend (line_status line) (statuses_of lines)

-- `ExtractHTTPStatuses`
unfoldable pub extract_http_statuses : Bytes → List ℤ
extract_http_statuses s = statuses_of (lines_from s [])

abbrev cut_or : Bytes → Option ℕ → Bytes → Bytes
cut_or tail none other = other
cut_or tail (some j) other = trim_space (take j tail)

-- the banner at the beginning of a text
unfoldable pub banner_of : Bytes → Bytes
banner_of tail =
    cut_or tail (index tail (b'\r' ∷ b'\n' ∷ []))
      (cut_or tail (index tail (b'\n' ∷ [])) (trim_space (take 120 tail)))

-- `ExtractSSHBanner`
unfoldable pub extract_ssh_banner : Bytes → Bytes
extract_ssh_banner s = elim (index s (codes "SSH-")) [
  | none ↦ []
  | some idx ↦ banner_of (drop idx s)
]

-- `AllowedStatuses`
unfoldable pub allowed_statuses : List ℤ → List ℤ → Bool
allowed_statuses got allowed =
    is_empty got || is_empty allowed || all (λ n. any (int_eq n) allowed) got

-- the allowed statuses, with 301 among them
unfoldable pub effective_allowed : List ℤ → List ℤ
effective_allowed allowed =
    if any (int_eq (pos 301)) allowed then allowed else allowed ++ pos 301 ∷ []
