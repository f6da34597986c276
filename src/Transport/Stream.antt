-- ===== src/Transport/Stream.antt =====
-- internal/transport/transport.go: what the SSH handshake reads after `readProbe` and through
-- `prefixConn`, against what the server sent.
use mathlib.Core.Path.{subst}
use ssc.Base.{
  if_holds, ltb→lt, ◌<◌, ℕ, zero, suc, ◌+◌, ◌≤◌, ◌≡◌, refl, ap, ◌∙◌, sym, [], ◌∷◌, ◌++◌, Option,
  none, some, Bytes, arith, length, length-append, append_assoc, is_empty, not, ◌&&◌, ltb,
  if◌then◌else◌, if_decided, contains,
}
use ssc.Transport.Probe.{
  ReadFailure, timed_out, end_of_file, broken, Chunk, Connection, max_bytes, chunk_size, ssh_mark,
  Reply, after_loop, after_read, probe_loop, read_probe, PrefixConn, prefix_read,
}

-- Of the bytes of `sent`, the reply has the first ones, and the socket still has all others.
abbrev pub Keeps : (c : Connection) → Bytes → Reply c.Socket → Type 0
Keeps c sent r = (r.bytes ++ c.pending r.socket ≡ sent) × (length r.bytes ≤ max_bytes + chunk_size)

abbrev pub Ends : (c : Connection) → Bytes → Option (Reply c.Socket) → Type 0
Ends c sent none = ⊥
Ends c sent (some r) = Keeps c sent r

keep :
    (c : Connection) (sent all : Bytes) (t : c.Socket) (e : Option ssc.Transport.Probe.ProbeError)
    → all ++ c.pending t ≡ sent
    → length all ≤ max_bytes + chunk_size
    → Keeps c sent (record { bytes = all; error = e; socket = t })
keep c sent all t e h k = (h, k)

after_loop-Keeps :
    (c : Connection) (sent all : Bytes) (t : c.Socket)
    → all ++ c.pending t ≡ sent
    → length all ≤ max_bytes + chunk_size
    → Keeps c sent (after_loop all t)
unfolding after_loop
after_loop-Keeps c sent [] t h k = (h, k)
after_loop-Keeps c sent (b ∷ all) t h k = (h, k)

after_read-Ends :
    (c : Connection) (sent all : Bytes) (t : c.Socket) (e : Option ReadFailure)
    (rest : Option (Reply c.Socket))
    → all ++ c.pending t ≡ sent
    → length all ≤ max_bytes + chunk_size
    → (e ≡ none → Ends c sent rest)
    → Ends c sent (after_read e all t rest)
unfolding after_read
after_read-Ends c sent all t none rest h k f = f refl
after_read-Ends c sent all t (some timed_out) rest h k f = after_loop-Keeps c sent all t h k
after_read-Ends c sent all t (some end_of_file) rest h k f = after_loop-Keeps c sent all t h k
after_read-Ends c sent all t (some broken) rest h k f = (h, k)

read-append :
    (c : Connection) (out : Bytes) (s : c.Socket)
    → (out ++ (c.read chunk_size s).0.bytes) ++ c.pending (c.read chunk_size s).1
      ≡ out ++ c.pending s
read-append c out s =
    append_assoc out (c.read chunk_size s).0.bytes (c.pending (c.read chunk_size s).1)
    ∙ ap (λ r. out ++ r) (sym (c.read-pending chunk_size s))

abbrev read_all : (c : Connection) → Bytes → c.Socket → Bytes
read_all c out s = out ++ (c.read chunk_size s).0.bytes

probe_round-Ends :
    (c : Connection) (out : Bytes) (s : c.Socket) (rest : Option (Reply c.Socket))
    → length out < max_bytes
    → ((c.read chunk_size s).0.error ≡ none
        → length (read_all c out s) ≤ max_bytes + chunk_size
        → length out < length (read_all c out s)
        → Ends c (read_all c out s ++ c.pending (c.read chunk_size s).1) rest)
    → Ends c (out ++ c.pending s) (
        if not (is_empty (c.read chunk_size s).0.bytes) && contains (read_all c out s) ssh_mark
        then some
            (record { bytes = read_all c out s; error = none; socket = (c.read chunk_size s).1 })
        else after_read
            (c.read chunk_size s).0.error
            (read_all c out s)
            (c.read chunk_size s).1
            rest)
probe_round-Ends c out s rest few f =
    if_holds (Ends c (out ++ c.pending s)) _ (some _) _ (read-append c out s, bound)
      (after_read-Ends c _ (read_all c out s) (c.read chunk_size s).1 _ rest (read-append c out s)
        bound
        (λ e.
          subst (λ sent. Ends c sent rest) (read-append c out s)
            (f e bound (omega (arith, long, c.read-progress chunk_size s (omega arith) e)))))
  where
    long : length (read_all c out s) ≡ length out + length (c.read chunk_size s).0.bytes
    long = length-append out (c.read chunk_size s).0.bytes

    bound : length (read_all c out s) ≤ max_bytes + chunk_size
    bound = omega (arith, few, c.read-Fits chunk_size s, long)

probe_loop-Ends :
    (c : Connection) (n : ℕ) (out : Bytes) (s : c.Socket)
    → 1 ≤ n
    → suc max_bytes ≤ length out + n
    → length out ≤ max_bytes + chunk_size
    → Ends c (out ++ c.pending s) (probe_loop c n out s)
unfolding probe_loop
probe_loop-Ends c zero out s h k l = absurd (omega (arith, h))
probe_loop-Ends c (suc n) out s h k l =
    if_decided (Ends c (out ++ c.pending s)) (ltb (length out) max_bytes) _ _
      (λ short.
        let few = ltb→lt (length out) max_bytes short in
        probe_round-Ends c out s _ few (λ e bound grows.
          probe_loop-Ends c n (read_all c out s) (c.read chunk_size s).1 (omega (arith, k, few))
            (omega (arith, k, grows)) bound))
      (λ _. after_loop-Keeps c _ out s refl l)

-- For every connection, `readProbe` returns. Its bytes are the first of those that were still to be
-- read, at most 67584, and all others can still be read from the connection.
pub read_probe-Ends : (c : Connection) (s : c.Socket) → Ends c (c.pending s) (read_probe c s)
unfolding read_probe
read_probe-Ends c s =
    probe_loop-Ends c (suc max_bytes) [] s (omega arith) (omega arith) (omega arith)
