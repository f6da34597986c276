-- ===== src/Tunnel/Pipe.antt =====
-- internal/tunnel/tunnel.go: `PipeBoth`, its two pumps and the loop that watches them. Times are
-- in nanoseconds since the start.
use ssc.Base.{
  ℕ, zero, suc, ◌+◌, Bool, true, false, List, [], ◌∷◌, ◌++◌, Bytes, length, ltb, if◌then◌else◌, ℤ,
  pos, negsuc, is_empty,
}
use Prim.Native.Nat.{min}
use ssc.Tunnel.{WriteResult, WriteEnd, all_written, write_error, short_write, write_all}

-- One `Read`: the bytes that it gave, and whether it failed.
pub record ReadResult : Type 0 where
  pub bytes : Bytes
  pub failed : Bool

-- How a pump ends, if it does.
pub data PumpEnd : Type 0 where
  reading read_ended write_ended : PumpEnd

pub record Pumped : Type 0 where
  pub delivered : Bytes
  pub signals : ℕ
  pub end : PumpEnd

-- what a pump has done before the rest of its reads
abbrev pub before : Bytes → ℕ → Pumped → Pumped
before b n rest = record {
  delivered = b ++ rest.delivered;
  signals = n + rest.signals;
  end = rest.end;
}

abbrev pub stopped : Bytes → ℕ → PumpEnd → Pumped
stopped b n end = record { delivered = b; signals = n; end = end }

abbrev pub after_write : Bytes × WriteEnd → Bool → Pumped → Pumped
after_write (b, all_written) true rest = stopped b 1 read_ended
after_write (b, all_written) false rest = before b 1 rest
after_write (b, write_error) failed rest = stopped b 1 write_ended
after_write (b, short_write) failed rest = stopped b 1 write_ended

-- `pump`; `dst` is the other connection.
unfoldable pub pump : (Bytes → WriteResult) → List ReadResult → Pumped
pump dst [] = stopped [] 0 reading
pump dst (r ∷ rs) =
    let rest = pump dst rs in
    if is_empty r.bytes
    then (if r.failed then stopped [] 0 read_ended else rest)
    else after_write (write_all (suc (length r.bytes)) dst r.bytes) r.failed rest

-- What the loop hears from a pump, and when.
pub data Signal : Type 0 where
  active done : ℕ → Signal

pub data Closed : Type 0 where
  pump_ended idle : ℕ → Closed

abbrev pub time_of : Signal → ℕ
time_of (active t) = t
time_of (done t) = t

-- 400 ms
abbrev pub grace : ℕ
grace = 400000000

-- the end of the other pump, or of the time for it
abbrev pub second_done : ℕ → List Signal → ℕ
second_done limit [] = limit
second_done limit (active t ∷ ss) = second_done limit ss
second_done limit (done t ∷ ss) = min limit t

-- the loop, with the time at which the timer fires
unfoldable pub watch : ℕ → ℕ → List Signal → Closed
watch timeout deadline [] = idle deadline
watch timeout deadline (active t ∷ ss) =
    let rest = watch timeout (t + timeout) ss in if ltb t deadline then rest else idle deadline
watch timeout deadline (done t ∷ ss) =
    if ltb t deadline then pump_ended (second_done (t + grace) ss) else idle deadline

-- 120 s unless a timeout is given
abbrev pub timeout_or_default : ℤ → ℕ
timeout_or_default (pos zero) = 120000000000
timeout_or_default (pos (suc n)) = suc n
timeout_or_default (negsuc n) = 120000000000

-- when `PipeBoth` closes both connections, and why
unfoldable pub pipe_both : ℤ → List Signal → Closed
unfolding watch
pipe_both timeout ss = let t = timeout_or_default timeout in watch t t ss
