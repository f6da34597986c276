-- ===== src/Tunnel/Retry.antt =====
-- What `DialStreamWithRetry` returns, and how often it dials.
use ssc.Base.{ℕ, ◌-◌, ◌*◌, ◌≤◌, ◌≡◌, refl, false, true, Bytes, arith, inl, inr, ◌⊎◌}
use ssc.Tunnel.{Dial, connected, refused_with, Dialled, dial_stream_with_retry, is_stream_retryable}

-- The outcome is a connection, or an error that is not worth a retry.
abbrev pub IsFinal : Dial → Type 0
IsFinal (connected c) = Unit
IsFinal (refused_with e) = is_stream_retryable e ≡ false

abbrev pub IsTransient : Dial → Type 0
IsTransient (connected c) = ⊥
IsTransient (refused_with e) = is_stream_retryable e ≡ true

-- `d` is the outcome of the dial at which the retrying stopped.
pub record Stopped (net : ℕ → Dial) (d : Dialled) : Type 0 where
  pub dialled : (1 ≤ d.dials) × (d.dials ≤ 3)
  pub last : d.outcome ≡ net (d.dials - 1)
  pub final : IsFinal d.outcome ⊎ (d.dials ≡ 3)
  pub first_transient : (d.dials ≡ 1) ⊎ IsTransient (net 0)
  pub second_transient : (d.dials ≤ 2) ⊎ IsTransient (net 1)
  pub slept : d.slept * 2 ≡ d.dials * (d.dials - 1) * 300

Dial-cases : (d : Dial) → ((c : ℕ) × (d ≡ connected c)) ⊎ ((e : Bytes) × (d ≡ refused_with e))
Dial-cases (connected c) = inl (c, refl)
Dial-cases (refused_with e) = inr (e, refl)

-- `DialStreamWithRetry` dials at most three times: it returns the outcome of the last dial, it dials
-- again only after a transient error, it gives up a transient error only at the third dial, and it
-- waits 300 ms before the second dial and 600 ms before the third.
pub dial_stream_with_retry-Stopped : (net : ℕ → Dial) → Stopped net (dial_stream_with_retry net)
unfolding dial_stream_with_retry
dial_stream_with_retry-Stopped net = record {
  dialled = ground arith;
  last = ground arith;
  final = ground arith;
  first_transient = ground arith;
  second_transient = ground arith;
  slept = ground arith;
}
