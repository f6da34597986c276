-- ===== src/Tunnel.antt =====
-- internal/tunnel/tunnel.go: keepalive, stream retry, error classes, buffers and delays. What the
-- network does is an argument: the replies to the keepalive requests, the outcomes of the dials and
-- of the writes. The proofs are in the modules below.
pub mod Keepalive
pub mod Retry
pub mod Classes
pub mod Sizes
pub mod Copying
pub mod Pipe
pub mod Piping
mod Examples
use Prim.Native.String.{String}
use ssc.Base.{
  ℕ, zero, suc, ◌+◌, ◌-◌, ◌*◌, ◌/◌, ◌^◌, Bool, true, false, List, [], ◌∷◌, ◌++◌, Option, none, some,
  if◌then◌else◌, Bytes, codes, ℤ, pos, negsuc, non_pos, lt_nat, gt_nat, ltb, leb, ◌==◌, ◌||◌, index,
  has_prefix, to_lower, lower, text_eq, contains, take, drop, length,
}

-- How one keepalive request ends; `silent` is the five-second limit.
pub data Reply : Type 0 where
  answered refused silent : Reply

-- What wakes the keepalive loop: the ticker, with the fate of the request, or the context's end.
pub data Wake : Type 0 where
  tick : Reply → Wake
  cancelled : Wake

pub data KeepAlive : Type 0 where
  waiting : ℕ → KeepAlive
  stopped closed : KeepAlive

abbrev pub after_reply : Reply → ℕ → ℕ
after_reply answered missed = 0
after_reply refused missed = missed + 1
after_reply silent missed = missed + 1

-- the loop of `keepAlive`, from a number of missed replies on
unfoldable pub keep_alive : List Wake → ℕ → KeepAlive
keep_alive [] missed = waiting missed
keep_alive (cancelled ∷ ws) missed = stopped
keep_alive (tick r ∷ ws) missed =
    let rest = keep_alive ws (after_reply r missed) in
    if leb 3 (after_reply r missed) then closed else rest

-- `isStreamRetryable`, of the error's text
unfoldable pub is_stream_retryable : Bytes → Bool
is_stream_retryable s =
    contains s (codes "connect failed")
    || contains s (codes "Connection refused")
    || contains s (codes "Connection timed out")
    || contains s (codes "Temporary failure in name resolution")
    || contains s (codes "no route to host")

-- What one `DialTCP` gives: a connection, or an error's text.
pub data Dial : Type 0 where
  connected : ℕ → Dial
  refused_with : Bytes → Dial

-- What `DialStreamWithRetry` returns, how often it dialled, and how long it slept in milliseconds.
pub record Dialled : Type 0 where
  pub outcome : Dial
  pub dials : ℕ
  pub slept : ℕ

-- the loop over the attempts from `attempt` on; `err` is the last error
unfoldable pub retry : (ℕ → Dial) → ℕ → ℕ → Bytes → ℕ → Dialled
retry net zero attempt err slept = record {
  outcome = refused_with err;
  dials = attempt;
  slept = slept;
}
retry net (suc rounds) attempt err slept = elim (net attempt) [
  | connected c ↦ record {
    outcome = connected c;
    dials = attempt + 1;
    slept = slept + attempt * 300;
  }
  | refused_with e ↦
      let rest = retry net rounds (attempt + 1) e (slept + attempt * 300) in
      let stop : Dialled = record {
        outcome = refused_with e;
        dials = attempt + 1;
        slept = slept + attempt * 300;
      } in
      if is_stream_retryable e then rest else stop
]

-- `DialStreamWithRetry`; `net n` is what the dial number `n` gives.
unfoldable pub dial_stream_with_retry : (ℕ → Dial) → Dialled
unfolding retry
dial_stream_with_retry net = elim (net 0) [
  | connected c ↦ record { outcome = connected c; dials = 1; slept = 0 }
  | refused_with e ↦
      if is_stream_retryable e
      then retry net 2 1 e 0
      else record { outcome = refused_with e; dials = 1; slept = 0 }
]

-- `IsTransportError`; no error is `none`.
unfoldable pub is_transport_error : Option Bytes → Bool
is_transport_error none = false
is_transport_error (some err) =
    let s = to_lower err in
    contains s (codes "bad record mac")
    || contains s (codes "error decoding message")
    || contains s (codes "use of closed network connection")
    || contains s (codes "eof")
    || contains s (codes "packet too large")
    || contains s (codes "invalid packet length")

pub data Disconnect : Type 0 where
  clean_close remote_closed network_timeout network_reset keepalive_timeout corruption : Disconnect
  other : Bytes → Disconnect

-- `ClassifyDisconnect`; the texts that it returns are the constructors.
unfoldable pub classify_disconnect : Option Bytes → Disconnect
classify_disconnect none = clean_close
classify_disconnect (some s) =
    if contains s (codes "EOF") || contains s (codes "eof")
    then remote_closed
    else if contains s (codes "timeout") || contains s (codes "i/o timeout")
    then network_timeout
    else if contains s (codes "reset") || contains s (codes "broken pipe")
    then network_reset
    else if contains s (codes "use of closed network connection")
    then keepalive_timeout
    else if contains s (codes "unexpected packet") || contains s (codes "bad record mac")
    then corruption
    else other s

abbrev pub default_copy_buffer_size : ℕ
default_copy_buffer_size = 131072

abbrev pub max_copy_buffer_size : ℕ
max_copy_buffer_size = 524288

abbrev pub buffer_unit : ℕ
buffer_unit = 32768

abbrev pub buffer_or_default : ℤ → ℕ
buffer_or_default (pos zero) = default_copy_buffer_size
buffer_or_default (pos (suc n)) = suc n
buffer_or_default (negsuc n) = default_copy_buffer_size

abbrev pub clamp_buffer : ℕ → ℕ
clamp_buffer n =
    if ltb n buffer_unit
    then buffer_unit
    else if ltb max_copy_buffer_size n
    then max_copy_buffer_size
    else n

-- `NormalizeBufferSize`
unfoldable pub normalize_buffer_size : ℤ → ℕ
normalize_buffer_size n =
    (clamp_buffer (buffer_or_default n) + buffer_unit - 1) / buffer_unit * buffer_unit

-- an `int64` from its value modulo 2 ^ 64
abbrev pub int64 : ℕ → ℤ
int64 n = if ltb n (2 ^ 63) then pos n else negsuc (2 ^ 64 - n - 1)

-- what `NextDelay` does with the doubled delay
abbrev pub cap_delay : ℤ → ℕ → ℤ
cap_delay doubled max = if gt_nat doubled max then pos max else doubled

-- `NextDelay`, in nanoseconds; the doubling is that of an `int64`.
unfoldable pub next_delay : ℤ → ℕ → ℕ → ℤ
next_delay (pos zero) base max = pos base
next_delay (pos (suc n)) base max = cap_delay (int64 (suc n * 2)) max
next_delay (negsuc n) base max = pos base

-- One `Write`: how many bytes it took, and whether it failed.
pub record WriteResult : Type 0 where
  pub count : ℕ
  pub failed : Bool

pub data WriteEnd : Type 0 where
  all_written write_error short_write : WriteEnd

-- `writeAll`: the bytes that were taken, in order, and how the loop ends. `conn` gives the result of
-- each call by the number of bytes left; the fuel bounds the calls.
unfoldable pub write_all : ℕ → (Bytes → WriteResult) → Bytes → Bytes × WriteEnd
write_all fuel conn [] = ([], all_written)
write_all zero conn (c ∷ b) = ([], short_write)
write_all (suc fuel) conn (c ∷ b) =
    let r = conn (c ∷ b) in
    let rest = write_all fuel conn (drop r.count (c ∷ b)) in
    if r.failed
    then (take r.count (c ∷ b), write_error)
    else if r.count == 0
    then ([], short_write)
    else (take r.count (c ∷ b) ++ rest.0, rest.1)
