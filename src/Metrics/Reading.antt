-- ===== src/Metrics/Reading.antt =====
-- What the sampler reads, whatever the name of the process, and what it computes.
use ssc.Base.{
  ℕ, zero, suc, ◌+◌, ◌-◌, ◌%◌, ◌^◌, ◌≤◌, ◌<◌, ◌≡◌, refl, ap, Bool, true, false, List, [], ◌∷◌, ◌++◌,
  none, some, Bytes, ltb, leb, ◌==◌, ◌&&◌, any, length, get_elem?, arith, length-append,
}
use ssc.Base.Decimal.{itoa, atoi-itoa}
use ssc.Metrics.{
  fields, parse_uint, behind_last, process_ticks, system_ticks, Sampler, Proc, minus_64, sample,
}

parse_uint-itoa : (n : ℕ) → n < 2 ^ 64 → parse_uint (itoa n) ≡ some n
unfolding parse_uint
parse_uint-itoa n h = rw (atoi-itoa n) (ground arith)

abbrev pub is_close : ℕ → Bool
is_close c = c == b')'

behind_last-none : (s : Bytes) → any is_close s ≡ false → behind_last s ≡ none
unfolding behind_last
behind_last-none [] h = refl
behind_last-none (c ∷ s) h =
    let e : is_close c ≡ false = ground (arith, h) in
    rw (behind_last-none s (ground (arith, h)), e) refl

behind_last-append : (b r : Bytes) → any is_close r ≡ false → behind_last (b ++ b')' ∷ r) ≡ some r
unfolding behind_last
behind_last-append [] r h = rw (behind_last-none r h) refl
behind_last-append (c ∷ b) r h = rw (behind_last-append b r h) refl

get_elem?-append :
    (n : ℕ) (xs ys : List Bytes)
    → length xs ≡ n
    → (get_elem? (xs ++ ys) n ≡ get_elem? ys 0) × (get_elem? (xs ++ ys) (suc n) ≡ get_elem? ys 1)
get_elem?-append zero [] ys h = (refl, refl)
get_elem?-append zero (x ∷ xs) ys h = absurd (omega arith)
get_elem?-append (suc n) [] ys h = absurd (omega arith)
get_elem?-append (suc n) (x ∷ xs) ys h = get_elem?-append n xs ys (omega arith)

-- The ticks of the process are the sum of the two fields behind the eleven that follow its name, for
-- whatever name, one with spaces and closing parentheses included.
pub process_ticks-sum :
    (name rest : Bytes) (eleven more : List Bytes) (utime stime : ℕ)
    → any is_close rest ≡ false
    → fields rest ≡ eleven ++ itoa utime ∷ itoa stime ∷ more
    → length eleven ≡ 11
    → utime < 2 ^ 64
    → stime < 2 ^ 64
    → process_ticks (some (name ++ b')' ∷ b' ' ∷ rest)) ≡ some ((utime + stime) % 2 ^ 64)
unfolding process_ticks
process_ticks-sum name [] eleven more utime stime h f l u s =
    let e = ap length f in
    absurd (omega (arith, e, length-append eleven (itoa utime ∷ itoa stime ∷ more)))
process_ticks-sum name (c ∷ rest) eleven more utime stime h f l u s =
    let two : List Bytes = itoa utime ∷ itoa stime ∷ more in
    let long : ltb (length (eleven ++ two)) 13 ≡ false = ground (arith, length-append eleven two) in
    let whole : leb (length (b' ' ∷ c ∷ rest)) 1 ≡ false = ground arith in
    let (a, b) = get_elem?-append 11 eleven two l in
    rw
      (
        behind_last-append name (b' ' ∷ c ∷ rest) h,
        whole,
        f,
        long,
        a,
        b,
        parse_uint-itoa utime u,
        parse_uint-itoa stime s,
      )
      refl

-- Of two samples with readable ticks, the second reports the share of the process in the ticks of the
-- system between them.
pub sample-sample :
    (page_size : ℕ) (p q : Proc) (s : Sampler) (sys sys' proc proc' : ℕ)
    → system_ticks p.stat ≡ some sys
    → system_ticks q.stat ≡ some sys'
    → process_ticks p.self_stat ≡ some proc
    → process_ticks q.self_stat ≡ some proc'
    → 1 ≤ sys
    → sys < sys'
    → proc ≤ proc'
    → proc' < 2 ^ 64
    → (sample page_size q (sample page_size p s).1).0.cpu ≡ some (proc' - proc, sys' - sys)
unfolding sample
sample-sample page_size p q s sys sys' proc proc' a b c d g h k l =
    let e : (ltb 0 sys && ltb sys sys') ≡ true = ground arith in
    let m : minus_64 proc' proc ≡ proc' - proc = omega arith in rw (a, b, c, d, e, m) refl
