-- ===== src/Tunnel/Keepalive.antt =====
-- When the keepalive loop closes the SSH connection.
use ssc.Base.{
  ℕ, zero, suc, ◌+◌, ◌-◌, ◌≤◌, ◌≡◌, refl, ◌↔◌, ◌⊎◌, inl, inr, List, [], ◌∷◌, ◌++◌, map, ap, arith,
}
use ssc.Tunnel.{Reply, answered, refused, silent, Wake, tick, cancelled, closed, keep_alive}

abbrev pub IsMiss : Reply → Type 0
IsMiss answered = ⊥
IsMiss refused = Unit
IsMiss silent = Unit

-- The wake-ups begin with `n` ticks whose requests are not answered.
abbrev pub Misses : ℕ → List Wake → Type 0
Misses zero ws = Unit
Misses (suc n) [] = ⊥
Misses (suc n) (cancelled ∷ ws) = ⊥
Misses (suc n) (tick r ∷ ws) = IsMiss r × Misses n ws

-- At some point before the context ends, three requests in a row are not answered.
abbrev pub ThreeInRow : List Wake → Type 0
ThreeInRow ws =
    (before : List Reply) × (rest : List Wake) × (ws ≡ map tick before ++ rest) × Misses 3 rest

later : (r : Reply) {ws : List Wake} → ThreeInRow ws → ThreeInRow (tick r ∷ ws)
later r (before, rest, e, m) = (r ∷ before, rest, ap (λ l. tick r ∷ l) e, m)

now : {ws : List Wake} → Misses 3 ws → ThreeInRow ws
now {ws} m = ([], ws, refl, m)

found : (r : Reply) {ws : List Wake} → Misses 3 ws ⊎ ThreeInRow ws → ThreeInRow (tick r ∷ ws)
found r {ws} (inl m) = later r {ws = ws} (now {ws = ws} m)
found r {ws} (inr t) = later r {ws = ws} t

step :
    (r : Reply) (ws : List Wake) (n : ℕ)
    → IsMiss r
    → Misses n ws ⊎ ThreeInRow ws
    → Misses (suc n) (tick r ∷ ws) ⊎ ThreeInRow (tick r ∷ ws)
step r ws n miss (inl m) = inl (miss, m)
step r ws n miss (inr t) = inr (later r {ws = ws} t)

-- `k` misses have been counted.
closed-Misses :
    (ws : List Wake) (k : ℕ) → k ≤ 2 → keep_alive ws k ≡ closed → Misses (3 - k) ws ⊎ ThreeInRow ws
unfolding keep_alive
closed-Misses [] k h e = ground arith
closed-Misses (cancelled ∷ ws) k h e = ground arith
closed-Misses (tick answered ∷ ws) k h e =
    inr (found answered {ws = ws} (closed-Misses ws 0 (omega arith) e))
closed-Misses (tick refused ∷ ws) zero h e =
    step refused ws 2 tt (closed-Misses ws 1 (omega arith) e)
closed-Misses (tick refused ∷ ws) (suc zero) h e =
    step refused ws 1 tt (closed-Misses ws 2 (omega arith) e)
closed-Misses (tick silent ∷ ws) zero h e = step silent ws 2 tt (closed-Misses ws 1 (omega arith) e)
closed-Misses (tick silent ∷ ws) (suc zero) h e =
    step silent ws 1 tt (closed-Misses ws 2 (omega arith) e)
closed-Misses (tick refused ∷ ws) (suc (suc zero)) h e = inl (tt, tt)
closed-Misses (tick silent ∷ ws) (suc (suc zero)) h e = inl (tt, tt)
closed-Misses (tick _ ∷ ws) (suc (suc (suc k))) h e = absurd (omega arith)

Misses-closed :
    (n : ℕ) (ws : List Wake) (k : ℕ) → 1 ≤ n → 3 ≤ n + k → Misses n ws → keep_alive ws k ≡ closed
unfolding keep_alive
Misses-closed zero ws k h j m = absurd (omega arith)
Misses-closed (suc n) [] k h j m = elim m [ ]
Misses-closed (suc n) (cancelled ∷ ws) k h j m = elim m [ ]
Misses-closed (suc n) (tick answered ∷ ws) k h j (miss, m) = absurd miss
Misses-closed (suc n) (tick refused ∷ ws) k h j (_, m) =
    ground (arith, λ (a : 1 ≤ n) (b : 3 ≤ n + (k + 1)). Misses-closed n ws (k + 1) a b m)
Misses-closed (suc n) (tick silent ∷ ws) k h j (_, m) =
    ground (arith, λ (a : 1 ≤ n) (b : 3 ≤ n + (k + 1)). Misses-closed n ws (k + 1) a b m)

before-closed :
    (before : List Reply) (rest : List Wake) (k : ℕ)
    → Misses 3 rest
    → keep_alive (map tick before ++ rest) k ≡ closed
unfolding keep_alive
before-closed [] rest k m = Misses-closed 3 rest k (omega arith) (omega arith) m
before-closed (answered ∷ b) rest k m = before-closed b rest 0 m
before-closed (refused ∷ b) rest k m = ground (arith, before-closed b rest (k + 1) m)
before-closed (silent ∷ b) rest k m = ground (arith, before-closed b rest (k + 1) m)

-- The loop closes the SSH connection exactly if, before its context ends, three keepalive requests
-- in a row fail or stay without an answer for five seconds.
pub keep_alive-closed_iff : (ws : List Wake) → (keep_alive ws 0 ≡ closed) ↔ ThreeInRow ws
keep_alive-closed_iff ws = (
  λ e. elim (closed-Misses ws 0 (omega arith) e) [ inl m ↦ now {ws = ws} m | inr t ↦ t ],
  λ t. rw t.2 (before-closed t.0 t.1 0 t.3),
)
