-- ===== src/Metrics.antt =====
-- internal/metrics/metrics.go: what is read from the texts of /proc, and the sampler. A `uint64` is
-- a number below 2 ^ 64; a percentage is the fraction that it is computed from, since floating-point
-- numbers and their rounding are not modelled.
pub mod Reading
mod Examples
use ssc.Base.{
  ℕ, zero, suc, ◌+◌, ◌-◌, ◌*◌, ◌%◌, ◌^◌, Bool, true, false, List, [], ◌∷◌, ◌++◌, Option, none, some,
  Bytes, codes, is_space, has_prefix, text_eq, ltb, leb, ◌==◌, ◌&&◌, if◌then◌else◌, length, drop,
  get_elem?, is_empty,
}
use ssc.Base.Decimal.{atoi}

-- `strings.Fields`, of ASCII text; `word` is the field so far
unfoldable pub gather_fields : Bytes → Bytes → List Bytes
gather_fields word [] = if is_empty word then [] else word ∷ []
gather_fields word (c ∷ s) =
    let next = gather_fields [] s in
    let longer = gather_fields (word ++ c ∷ []) s in
    if is_space c then (if is_empty word then next else word ∷ next) else longer

abbrev pub fields : Bytes → List Bytes
fields s = gather_fields [] s

-- the lines of `strings.Split(s, "\n")`
unfoldable pub lines_from : Bytes → Bytes → List Bytes
lines_from line [] = line ∷ []
lines_from line (c ∷ s) =
    let next = lines_from [] s in
    let longer = lines_from (line ++ c ∷ []) s in if c == b'\n' then line ∷ next else longer

abbrev pub below_64 : Option ℕ → Option ℕ
below_64 none = none
below_64 (some n) = if ltb n (2 ^ 64) then some n else none

-- `strconv.ParseUint` with base 10 and 64 bits
unfoldable pub parse_uint : Bytes → Option ℕ
parse_uint s = below_64 (atoi s)

-- what follows the last closing parenthesis
unfoldable pub behind_last : Bytes → Option Bytes
behind_last [] = none
behind_last (c ∷ s) = elim (behind_last s) [
  | some r ↦ some r
  | none ↦ if c == b')' then some s else none
]

abbrev pub sum_of : Option ℕ → Option ℕ → Option ℕ
sum_of (some u) (some s) = some ((u + s) % 2 ^ 64)
sum_of none s = none
sum_of (some u) none = none

abbrev pub parse_elem : Option Bytes → Option ℕ
parse_elem none = none
parse_elem (some f) = parse_uint f

-- the fields after the name of the process
abbrev pub ticks_of : List Bytes → Option ℕ
ticks_of fs =
    if ltb (length fs) 13
    then none
    else sum_of (parse_elem (get_elem? fs 11)) (parse_elem (get_elem? fs 12))

abbrev pub behind_name : Option Bytes → Option ℕ
behind_name none = none
behind_name (some r) = if leb (length r) 1 then none else ticks_of (fields (drop 1 r))

-- `readProcessCPUTicks`, of the file if it can be read
unfoldable pub process_ticks : Option Bytes → Option ℕ
unfolding behind_last gather_fields parse_uint
process_ticks none = none
process_ticks (some s) = behind_name (behind_last s)

abbrev pub add_field : Bytes → ℕ → ℕ
add_field f total = elim (parse_uint f) [ none ↦ total | some v ↦ (total + v) % 2 ^ 64 ]

unfoldable pub sum_fields : List Bytes → ℕ → ℕ
unfolding parse_uint
sum_fields [] total = total
sum_fields (f ∷ fs) total = sum_fields fs (add_field f total)

abbrev first_line : List Bytes → Option ℕ
first_line [] = none
first_line (l ∷ ls) =
    let total = sum_fields (drop 1 (fields l)) 0 in
    if has_prefix l (codes "cpu ") then (if total == 0 then none else some total) else none

-- `readSystemCPUTicks`
unfoldable pub system_ticks : Option Bytes → Option ℕ
unfolding lines_from gather_fields sum_fields
system_ticks none = none
system_ticks (some s) = first_line (lines_from [] s)

abbrev pages_of : List Bytes → ℕ → ℕ
pages_of (a ∷ b ∷ fs) page_size = elim (parse_uint b) [
  | none ↦ 0
  | some pages ↦ (pages * page_size) % 2 ^ 64
]
pages_of fs page_size = 0

-- `readRSSBytes`
unfoldable pub rss_bytes : Option Bytes → ℕ → ℕ
unfolding gather_fields parse_uint
rss_bytes none page_size = 0
rss_bytes (some s) page_size = pages_of (fields s) page_size

-- `strings.TrimSuffix(s, ":")`
unfoldable pub trim_colon : Bytes → Bytes
trim_colon [] = []
trim_colon (c ∷ []) = if c == b':' then [] else c ∷ []
trim_colon (c ∷ d ∷ s) = c ∷ trim_colon (d ∷ s)

pub record MemInfo : Type 0 where
  pub total : ℕ
  pub avail : ℕ

abbrev pub set_field : Bytes → ℕ → MemInfo → MemInfo
set_field key v m =
    if text_eq key (codes "MemTotal")
    then record m { total = (v * 1024) % 2 ^ 64 }
    else if text_eq key (codes "MemAvailable")
    then record m { avail = (v * 1024) % 2 ^ 64 }
    else m

abbrev pub mem_line : List Bytes → MemInfo → MemInfo
mem_line (key ∷ value ∷ fs) m = elim (parse_uint value) [
  | none ↦ m
  | some v ↦ set_field (trim_colon key) v m
]
mem_line fs m = m

unfoldable pub mem_lines : List Bytes → MemInfo → MemInfo
unfolding gather_fields parse_uint trim_colon
mem_lines [] m = m
mem_lines (l ∷ ls) m = mem_lines ls (mem_line (fields l) m)

-- `readMemInfoBytes`
unfoldable pub mem_info : Option Bytes → MemInfo
unfolding lines_from mem_lines
mem_info none = record { total = 0; avail = 0 }
mem_info (some s) = mem_lines (lines_from [] s) (record { total = 0; avail = 0 })

pub record Sampler : Type 0 where
  pub last_sys_ticks : ℕ
  pub last_proc_ticks : ℕ

-- the files that `Sample` reads
pub record Proc : Type 0 where
  pub stat : Option Bytes
  pub self_stat : Option Bytes
  pub self_statm : Option Bytes
  pub meminfo : Option Bytes

-- A fraction is a numerator and a denominator; none is reported as 0 %.
pub record Snapshot : Type 0 where
  pub cpu : Option (ℕ × ℕ)
  pub rss : ℕ
  pub mem : MemInfo
  pub mem_used : Option (ℕ × ℕ)

-- a difference of `uint64`s
abbrev pub minus_64 : ℕ → ℕ → ℕ
minus_64 a b = (a + 2 ^ 64 - b) % 2 ^ 64

abbrev pub cpu_fraction : Option ℕ → Option ℕ → Sampler → Option (ℕ × ℕ)
cpu_fraction (some sys) (some proc) s =
    if ltb 0 s.last_sys_ticks && ltb s.last_sys_ticks sys
    then some (minus_64 proc s.last_proc_ticks, sys - s.last_sys_ticks)
    else none
cpu_fraction none proc s = none
cpu_fraction (some sys) none s = none

abbrev pub or_last : Option ℕ → ℕ → ℕ
or_last none last = last
or_last (some ticks) last = ticks

abbrev pub used_fraction : MemInfo → Option (ℕ × ℕ)
used_fraction m =
    if ltb 0 m.total && leb m.avail m.total then some (m.total - m.avail, m.total) else none

-- `Sample`
unfoldable pub sample : ℕ → Proc → Sampler → Snapshot × Sampler
unfolding process_ticks system_ticks rss_bytes mem_info
sample page_size p s = (
  record {
    cpu = cpu_fraction (system_ticks p.stat) (process_ticks p.self_stat) s;
    rss = rss_bytes p.self_statm page_size;
    mem = mem_info p.meminfo;
    mem_used = used_fraction (mem_info p.meminfo);
  },
  record {
    last_sys_ticks = or_last (system_ticks p.stat) s.last_sys_ticks;
    last_proc_ticks = or_last (process_ticks p.self_stat) s.last_proc_ticks;
  },
)
