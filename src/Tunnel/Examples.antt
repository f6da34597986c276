-- ===== src/Tunnel/Examples.antt =====
-- The theorems on the tunnel at concrete inputs, and tests.
use ssc.Base.{
  ℕ, ◌≡◌, refl, ◌↔◌, true, false, [], ◌∷◌, List, some, Bytes, codes, pos, arith, length, index,
  has_prefix, contains, if◌then◌else◌, ltb,
}
use ssc.Tunnel.{
  answered, refused, silent, Wake, tick, closed, keep_alive, Dial, connected, refused_with,
  dial_stream_with_retry, is_stream_retryable, classify_disconnect, remote_closed, next_delay,
  WriteResult,
}
use ssc.Tunnel.Keepalive.{ThreeInRow, keep_alive-closed_iff}
use ssc.Tunnel.Retry.{Stopped, dial_stream_with_retry-Stopped}
use ssc.Tunnel.Sizes.{delays}
use ssc.Tunnel.Pipe.{ReadResult, pump, Signal, active, done, pump_ended, watch, pipe_both}
use ssc.Tunnel.Piping.{Carried, IsFair, pump-Carried, pipe_both-IsFair}
use ssc.Tunnel.Copying.{IsWriter}

abbrev dead_link : List Wake
dead_link = tick refused ∷ tick answered ∷ tick silent ∷ tick refused ∷ tick silent ∷ []

keep_alive-closed_iff_example : (keep_alive dead_link 0 ≡ closed) ↔ ThreeInRow dead_link
keep_alive-closed_iff_example = keep_alive-closed_iff dead_link

dead_link_closes : keep_alive dead_link 0 ≡ closed
unfolding keep_alive
dead_link_closes = refl

-- the second dial succeeds
abbrev flaky : ℕ → Dial
flaky n = if ltb n 1 then refused_with (codes "ssh: connect failed") else connected 7

dial_stream_with_retry-Stopped_example : Stopped flaky (dial_stream_with_retry flaky)
dial_stream_with_retry-Stopped_example = dial_stream_with_retry-Stopped flaky

flaky_connects : (dial_stream_with_retry flaky).outcome ≡ connected 7
unfolding dial_stream_with_retry is_stream_retryable contains index has_prefix
flaky_connects = refl

eof_closed : classify_disconnect (some (codes "read: EOF")) ≡ remote_closed
unfolding classify_disconnect contains index has_prefix
eof_closed = refl

delays_sample : delays 1 30 6 ≡ pos 30
unfolding next_delay
delays_sample = refl

-- a connection that takes everything
abbrev sink : Bytes → WriteResult
sink b = record { count = length b; failed = false }

sink-IsWriter : IsWriter sink
sink-IsWriter = record { within = λ b. omega arith; fails_short = λ b h. refl }

abbrev reads : List ReadResult
reads =
    record { bytes = codes "ab"; failed = false }
    ∷ record { bytes = codes "c"; failed = true }
    ∷ record { bytes = codes "lost"; failed = false }
    ∷ []

pump-Carried_example : Carried (codes "abc") (pump sink reads)
pump-Carried_example = pump-Carried sink reads

abbrev signals : List Signal
signals = active 50 ∷ active 120 ∷ done 180 ∷ active 200 ∷ done 300 ∷ []

pipe_both-IsFair_example : IsFair 100 0 signals (pipe_both (pos 100) signals)
pipe_both-IsFair_example = pipe_both-IsFair (pos 100) signals (omega arith)

-- the timer of 100 starts anew with each signal, and the other pump ends within its 400 ms
signals_end : pipe_both (pos 100) signals ≡ pump_ended 300
unfolding pipe_both watch
signals_end = refl
