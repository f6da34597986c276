-- ===== src/Tunnel/Sizes.antt =====
-- Buffer sizes and reconnection delays.
use Prim.Native.Nat.{min}
use ssc.Base.{ℕ, zero, suc, ◌+◌, ◌*◌, ◌%◌, ◌^◌, ◌≤◌, ◌<◌, ◌≡◌, refl, ℤ, pos, arith}
use ssc.Tunnel.{normalize_buffer_size, next_delay, max_copy_buffer_size, buffer_unit}

-- The buffer has between 32 KiB and 512 KiB, in whole units of 32 KiB, whatever the configuration
-- says.
pub normalize_buffer_size_bounds :
    (n : ℤ)
    → (buffer_unit ≤ normalize_buffer_size n)
      × (normalize_buffer_size n ≤ max_copy_buffer_size)
      × (normalize_buffer_size n % buffer_unit ≡ 0)
unfolding normalize_buffer_size
normalize_buffer_size_bounds n = (ground arith, ground arith, ground arith)

-- A size from 1 byte to 512 KiB is rounded up, by less than a unit.
pub normalize_buffer_size_rounds :
    (n : ℕ)
    → 1 ≤ n
    → n ≤ max_copy_buffer_size
    → (n ≤ normalize_buffer_size (pos n)) × (normalize_buffer_size (pos n) < n + buffer_unit)
unfolding normalize_buffer_size
normalize_buffer_size_rounds zero h k = absurd (omega arith)
normalize_buffer_size_rounds (suc n) h k = (ground arith, ground arith)

-- the delay after `n` failed attempts
abbrev pub delays : ℕ → ℕ → ℕ → ℤ
delays base max zero = pos 0
delays base max (suc n) = next_delay (delays base max n) base max

-- the first `n` doublings of a delay, up to the cap
abbrev pub capped : ℕ → ℕ → ℕ → ℕ
capped base max zero = base
capped base max (suc n) = min (capped base max n * 2) max

capped_bounds :
    (base max n : ℕ) → 1 ≤ base → base ≤ max → (1 ≤ capped base max n) × (capped base max n ≤ max)
capped_bounds base max zero h k = (h, k)
capped_bounds base max (suc n) h k =
    let (a, b) = capped_bounds base max n h k in (omega arith, omega arith)

pub next_delay-pos :
    (d base max : ℕ)
    → 1 ≤ d
    → d ≤ max
    → max < 2 ^ 62
    → next_delay (pos d) base max ≡ pos (min (d * 2) max)
unfolding next_delay
next_delay-pos zero base max h k l = absurd (omega arith)
next_delay-pos (suc d) base max h k l = ground arith

-- Failed attempts wait for the base delay, then twice as long each time, up to the maximum: no
-- doubling overflows an `int64` and none exceeds the maximum.
pub delays-eq-capped :
    (base max n : ℕ)
    → 1 ≤ base
    → base ≤ max
    → max < 2 ^ 62
    → delays base max (suc n) ≡ pos (capped base max n)
unfolding next_delay
delays-eq-capped base max zero h k l = refl
delays-eq-capped base max (suc n) h k l =
    let (a, b) = capped_bounds base max n h k in
    rw (delays-eq-capped base max n h k l) (next_delay-pos (capped base max n) base max a b l)
