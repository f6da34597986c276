-- ===== src/Socks5/Pipe.antt =====
-- internal/socks5/socks5.go: `pipe`, which is like `PipeBoth` of internal/tunnel but writes each
-- chunk in one call.
use ssc.Base.{
  ℕ, suc, ◌≡◌, refl, ap, sym, ◌∙◌, Bool, true, false, List, [], ◌∷◌, append-nil, Bytes, length,
  take, drop, is_empty, if◌then◌else◌, Bool-cases, inl, inr, ◌==◌, arith,
}
use ssc.Tunnel.{WriteResult, all_written, write_error, write_all}
use ssc.Tunnel.Copying.{IsWriter}
use ssc.Tunnel.Pipe.{
  ReadResult, reading, read_ended, write_ended, Pumped, before, stopped, after_write, pump, Signal,
  Closed, pump_ended, idle, watch,
}

abbrev written : WriteResult → Bytes → Bool → Pumped → Pumped
written w b failed rest =
    if w.failed
    then stopped (take w.count b) 1 write_ended
    else if failed
    then stopped (take w.count b) 1 read_ended
    else before (take w.count b) 1 rest

-- `pump` of `pipe`
unfoldable pub copy_chunks : (Bytes → WriteResult) → List ReadResult → Pumped
copy_chunks dst [] = stopped [] 0 reading
copy_chunks dst (r ∷ rs) =
    let rest = copy_chunks dst rs in
    if is_empty r.bytes
    then (if r.failed then stopped [] 0 read_ended else rest)
    else written (dst r.bytes) r.bytes r.failed rest

pub data PipeEnd : Type 0 where
  no_error idle_timeout : PipeEnd

abbrev result : Closed → ℕ × PipeEnd
result (pump_ended at) = (at, no_error)
result (idle at) = (at, idle_timeout)

-- `pipe`: when it closes both connections, and what it returns
unfoldable pub pipe : ℕ → List Signal → ℕ × PipeEnd
unfolding watch
pipe timeout ss = result (watch timeout timeout ss)

all_taken :
    (c : ℕ) (b : Bytes) (n : ℕ)
    → n ≡ suc (length b)
    → (take n (c ∷ b) ≡ c ∷ b) × (drop n (c ∷ b) ≡ [])
all_taken c b n e = (rw e (ap (λ t. c ∷ t) (take_all b)), rw e (drop_all b))
  where
    take_all : (b : Bytes) → take (length b) b ≡ b
    take_all [] = refl
    take_all (x ∷ b) = ap (λ t. x ∷ t) (take_all b)

    drop_all : (b : Bytes) → ◌≡◌ {A = Bytes} (drop (length b) b) []
    drop_all [] = refl
    drop_all (x ∷ b) = drop_all b

-- one call of a writer that keeps its promise is enough
write_all_once :
    (dst : Bytes → WriteResult) (c fuel : ℕ) (b : Bytes)
    → IsWriter dst
    → write_all (suc fuel) dst (c ∷ b) ≡ (
      take (dst (c ∷ b)).count (c ∷ b),
      if (dst (c ∷ b)).failed then write_error else all_written,
    )
unfolding write_all
write_all_once dst c fuel b w = elim (Bool-cases (dst (c ∷ b)).failed) [
  | inl fails ↦ rw fails refl
  | inr fine ↦
      let e : (dst (c ∷ b)).count ≡ suc (length b) = w.fails_short (c ∷ b) fine in
      let (t, d) = all_taken c b (dst (c ∷ b)).count e in
      let z : ((dst (c ∷ b)).count == 0) ≡ false = ground (arith, e) in
      rw (fine, z, t, d) (ap (λ s. (c ∷ s, all_written)) (append-nil b))
]

same_step :
    (w : WriteResult) (b : Bytes) (failed : Bool) (rest : Pumped)
    → written w b failed rest
      ≡ after_write (take w.count b, if w.failed then write_error else all_written) failed rest
same_step w b failed rest = by_cases w.failed failed
  where
    by_cases :
        (x y : Bool)
        → (if x
            then stopped (take w.count b) 1 write_ended
            else if y
            then stopped (take w.count b) 1 read_ended
            else before (take w.count b) 1 rest)
          ≡ after_write (take w.count b, if x then write_error else all_written) y rest
    by_cases true y = refl
    by_cases false true = refl
    by_cases false false = refl

same_chunk :
    (dst : Bytes → WriteResult) (b : Bytes) (failed : Bool) (rest : Pumped)
    → IsWriter dst
    → is_empty b ≡ false
    → written (dst b) b failed rest ≡ after_write (write_all (suc (length b)) dst b) failed rest
same_chunk dst [] failed rest w e = absurd (cc)
same_chunk dst (c ∷ b) failed rest w e =
    same_step (dst (c ∷ b)) (c ∷ b) failed rest
    ∙ ap (λ p. after_write p failed rest) (sym (write_all_once dst c (suc (length b)) b w))

-- The server's own pump and that of `PipeBoth` do the same over connections that keep the promise of
-- `io.Writer`, with the same signals and the same end.
pub copy_chunks-eq-pump :
    (dst : Bytes → WriteResult) (rs : List ReadResult)
    → IsWriter dst
    → copy_chunks dst rs ≡ pump dst rs
unfolding copy_chunks pump
copy_chunks-eq-pump dst [] w = refl
copy_chunks-eq-pump dst (r ∷ rs) w =
    let ih = copy_chunks-eq-pump dst rs w in rw ih (by_empty (is_empty r.bytes) refl)
  where
    by_empty :
        (t : Bool)
        → is_empty r.bytes ≡ t
        → (if t
            then (if r.failed then stopped [] 0 read_ended else pump dst rs)
            else written (dst r.bytes) r.bytes r.failed (pump dst rs))
          ≡ (if t
              then (if r.failed then stopped [] 0 read_ended else pump dst rs)
              else after_write
                  (write_all (suc (length r.bytes)) dst r.bytes)
                  r.failed
                  (pump dst rs))
    by_empty true e = refl
    by_empty false e = same_chunk dst r.bytes r.failed (pump dst rs) w e
