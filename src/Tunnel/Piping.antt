-- ===== src/Tunnel/Piping.antt =====
-- What the pumps of `PipeBoth` deliver, and when the loop closes the connections.
use Prim.Native.Nat.{min}
use ssc.Base.{
  ℕ, suc, ◌+◌, ◌≤◌, ◌≡◌, refl, sym, ap, ◌∙◌, ◌⊎◌, inl, inr, Bool, true, false, List, [], ◌∷◌, ◌++◌,
  append_assoc, append-nil, Bytes, length, ltb, is_empty, if◌then◌else◌, if_decided, All, ℤ, arith,
}
use mathlib.Core.Path.{subst}
use ssc.Tunnel.{WriteResult, WriteEnd, all_written, write_error, short_write}
use ssc.Tunnel.Copying.{Delivered, write_all-Delivered}
use ssc.Tunnel.Pipe.{
  ReadResult, read_ended, write_ended, Pumped, before, stopped, after_write, pump, Signal, active,
  done, Closed, pump_ended, idle, time_of, grace, second_done, watch, timeout_or_default, pipe_both,
}

-- the bytes that were read, up to the first error
abbrev pub read_bytes : List ReadResult → Bytes
read_bytes [] = []
read_bytes (r ∷ rs) = r.bytes ++ (if r.failed then [] else read_bytes rs)

-- a beginning of the bytes was delivered, and all of them unless a write failed
abbrev pub Carried : Bytes → Pumped → Type 0
Carried b p =
    ((rest : Bytes) × (p.delivered ++ rest ≡ b)) × ((p.end ≡ write_ended) ⊎ (p.delivered ≡ b))

before-Carried : (a b : Bytes) (n : ℕ) (p : Pumped) → Carried b p → Carried (a ++ b) (before a n p)
before-Carried a b n p ((rest, e), inl w) =
    ((rest, append_assoc a p.delivered rest ∙ ap (λ t. a ++ t) e), inl w)
before-Carried a b n p ((rest, e), inr d) =
    ((rest, append_assoc a p.delivered rest ∙ ap (λ t. a ++ t) e), inr (ap (λ t. a ++ t) d))

after_write-Carried :
    (a b : Bytes) (w : Bytes × WriteEnd) (failed : Bool) (rest : Pumped)
    → Delivered a w
    → Carried b rest
    → Carried (a ++ (if failed then [] else b)) (after_write w failed rest)
after_write-Carried a b (sent, all_written) failed rest (p, inl k) h = absurd (k refl)
after_write-Carried a b (sent, all_written) true rest (p, inr k) h =
    (([], append-nil sent ∙ k ∙ sym (append-nil a)), inr (k ∙ sym (append-nil a)))
after_write-Carried a b (sent, all_written) false rest (p, inr k) h =
    rw⁻¹ k (before-Carried sent b 1 rest h)
after_write-Carried a b (sent, write_error) failed rest ((r, e), k) h =
    let more : Bytes = if failed then [] else b in
    ((r ++ more, sym (append_assoc sent r more) ∙ ap (λ t. t ++ more) e), inl refl)
after_write-Carried a b (sent, short_write) failed rest ((r, e), k) h =
    let more : Bytes = if failed then [] else b in
    ((r ++ more, sym (append_assoc sent r more) ∙ ap (λ t. t ++ more) e), inl refl)

empty_read-Carried :
    (a b : Bytes) (failed : Bool) (rest : Pumped)
    → is_empty a ≡ true
    → Carried b rest
    → Carried (a ++ (if failed then [] else b)) (if failed then stopped [] 0 read_ended else rest)
empty_read-Carried [] b true rest e h = (([], refl), inr refl)
empty_read-Carried [] b false rest e h = h
empty_read-Carried (x ∷ a) b failed rest e h = absurd (cc)

-- A pump delivers a beginning of the bytes that its source gave up to its first error, in order, and
-- all of them unless a write failed.
pub pump-Carried :
    (dst : Bytes → WriteResult) (rs : List ReadResult) → Carried (read_bytes rs) (pump dst rs)
unfolding pump
pump-Carried dst [] = (([], refl), inr refl)
pump-Carried dst (r ∷ rs) =
    if_decided (Carried (read_bytes (r ∷ rs))) (is_empty r.bytes) _ _
      (λ e. empty_read-Carried r.bytes (read_bytes rs) r.failed _ e (pump-Carried dst rs))
      (λ e.
        after_write-Carried r.bytes (read_bytes rs) _ r.failed _
          (write_all-Delivered (suc (length r.bytes)) dst r.bytes (omega arith))
          (pump-Carried dst rs))

-- the signals come in the order of their times, from `now` on
abbrev pub IsOrdered : ℕ → List Signal → Type 0
IsOrdered now [] = Unit
IsOrdered now (s ∷ ss) = (now ≤ time_of s) × IsOrdered (time_of s) ss

-- The first pump to end does so at `t`.
abbrev pub EndsFirst : ℕ → List Signal → Type 0
EndsFirst t [] = ⊥
EndsFirst t (active u ∷ ss) = EndsFirst t ss
EndsFirst t (done u ∷ ss) = t ≡ u

-- the ends of pumps
abbrev pub ends_of : List Signal → List ℕ
ends_of [] = []
ends_of (active u ∷ ss) = ends_of ss
ends_of (done u ∷ ss) = u ∷ ends_of ss

abbrev pub IsNext : ℕ → ℕ → List ℕ → Type 0
IsNext at limit [] = at ≡ limit
IsNext at limit (u ∷ us) = at ≡ min limit u

-- The time is that of the second end or, if that does not come before, 400 ms after the first one.
abbrev pub IsSecond : ℕ → List ℕ → Type 0
IsSecond at [] = ⊥
IsSecond at (t ∷ us) = IsNext at (t + grace) us

-- When the connections may be closed: at least `timeout` after every signal so far, or else when the
-- second pump ends, no later than 400 ms after the end of the first one.
abbrev pub IsFair : ℕ → ℕ → List Signal → Closed → Type 0
IsFair timeout now ss (idle at) =
    (now + timeout ≤ at) × All (λ s. (time_of s + timeout ≤ at) ⊎ (at ≤ time_of s)) ss
IsFair timeout now ss (pump_ended at) =
    IsSecond at (ends_of ss) × ((t : ℕ) × EndsFirst t ss × (t ≤ at) × (at ≤ t + grace))

later :
    (at now : ℕ) (timeout : ℕ) (ss : List Signal)
    → at ≤ now
    → IsOrdered now ss
    → All (λ s. (time_of s + timeout ≤ at) ⊎ (at ≤ time_of s)) ss
later at now timeout [] h o = tt
later at now timeout (s ∷ ss) h (k, o) =
    (inr (omega arith), later at (time_of s) timeout ss (omega arith) o)

second_done_bounds :
    (t limit now : ℕ) (ss : List Signal)
    → IsOrdered now ss
    → t ≤ now
    → t ≤ limit
    → (t ≤ second_done limit ss) × (second_done limit ss ≤ limit)
second_done_bounds t limit now [] o h k = (k, omega arith)
second_done_bounds t limit now (active u ∷ ss) (a, o) h k =
    second_done_bounds t limit u ss o (omega arith) k
second_done_bounds t limit now (done u ∷ ss) (a, o) h k = (omega arith, omega arith)

second_done-IsNext :
    (limit : ℕ) (ss : List Signal) → IsNext (second_done limit ss) limit (ends_of ss)
second_done-IsNext limit [] = refl
second_done-IsNext limit (active u ∷ ss) = second_done-IsNext limit ss
second_done-IsNext limit (done u ∷ ss) = refl

-- a signal that only moves the deadline
active-IsFair :
    (timeout now t : ℕ) (ss : List Signal) (c : Closed)
    → now ≤ t
    → IsFair timeout t ss c
    → IsFair timeout now (active t ∷ ss) c
active-IsFair timeout now t ss (idle at) h (a, b) = (omega arith, (inl a, b))
active-IsFair timeout now t ss (pump_ended at) h k = k

watch-IsFair :
    (timeout now : ℕ) (ss : List Signal)
    → IsOrdered now ss
    → IsFair timeout now ss (watch timeout (now + timeout) ss)
unfolding watch
watch-IsFair timeout now [] o = (omega arith, tt)
watch-IsFair timeout now (active t ∷ ss) (h, o) =
    if_decided (IsFair timeout now (active t ∷ ss)) (ltb t (now + timeout)) _ _
      (λ e. active-IsFair timeout now t ss _ h (watch-IsFair timeout t ss o))
      (λ e. (
        omega arith,
        later (now + timeout) t timeout (active t ∷ ss) (ground (arith, e)) (omega arith, o),
      ))
watch-IsFair timeout now (done t ∷ ss) (h, o) =
    if_decided (IsFair timeout now (done t ∷ ss)) (ltb t (now + timeout)) _ _
      (λ e.
        let (a, b) = second_done_bounds t (t + grace) t ss o (omega arith) (omega arith) in
        (second_done-IsNext (t + grace) ss, (t, refl, a, b)))
      (λ e. (
        omega arith,
        later (now + timeout) t timeout (done t ∷ ss) (ground (arith, e)) (omega arith, o),
      ))

-- `PipeBoth` always closes both connections: for idleness only when no pump has been active for the
-- whole timeout, and otherwise when the second pump ends, or 400 ms after the end of the first one if
-- the second is not done by then.
pub pipe_both-IsFair :
    (timeout : ℤ) (ss : List Signal)
    → IsOrdered 0 ss
    → IsFair (timeout_or_default timeout) 0 ss (pipe_both timeout ss)
unfolding pipe_both
pipe_both-IsFair timeout ss o =
    let t = timeout_or_default timeout in
    let e : 0 + t ≡ t = omega arith in
    subst (λ d. IsFair t 0 ss (watch t d ss)) e (watch-IsFair t 0 ss o)
