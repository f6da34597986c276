-- ===== src/Transport/Probe.antt =====
-- internal/transport/transport.go: `readProbe`, which reads a server's answer up to the SSH banner,
-- and `prefixConn`, which gives the bytes read too far back.
use ssc.Base.{
  ℕ, zero, suc, ◌≤◌, ◌≡◌, [], ◌++◌, Option, none, some, Bytes, codes, length, take, drop, is_empty,
  not, ◌&&◌, ltb, if◌then◌else◌, contains,
}

pub data ReadFailure : Type 0 where
  timed_out end_of_file broken : ReadFailure

-- What one `Read` gives: the bytes, and the error if there is one.
pub record Chunk : Type 0 where
  pub bytes : Bytes
  pub error : Option ReadFailure

-- A connection (`net.Conn`) as its reader sees it: the bytes that are still to be read, and that a
-- `Read` takes them from the front, no more than fit, and at least one unless it fails.
pub record Connection : Type 1 where
  pub Socket : Type 0
  pub read : ℕ → Socket → Chunk × Socket
  pub pending : Socket → Bytes
  pub read-pending : (n : ℕ) (s : Socket) → pending s ≡ (read n s).0.bytes ++ pending (read n s).1
  pub read-Fits : (n : ℕ) (s : Socket) → length (read n s).0.bytes ≤ n
  pub read-progress :
      (n : ℕ) (s : Socket) → 1 ≤ n → (read n s).0.error ≡ none → 1 ≤ length (read n s).0.bytes

abbrev pub max_bytes : ℕ
max_bytes = 65536

abbrev pub chunk_size : ℕ
chunk_size = 2048

abbrev pub ssh_mark : Bytes
ssh_mark = codes "SSH-"

pub data ProbeError : Type 0 where
  nothing_received read_failed : ProbeError

-- what `readProbe` returns, and the socket that it leaves
pub record Reply (S : Type 0) : Type 0 where
  pub bytes : Bytes
  pub error : Option ProbeError
  pub socket : S

-- what follows the loop
unfoldable pub after_loop : {S : Type 0} → Bytes → S → Reply S
after_loop out s =
    if is_empty out
    then record { bytes = []; error = some nothing_received; socket = s }
    else record { bytes = out; error = none; socket = s }

-- a `Read` that does not bring the mark: the loop goes on, ends, or the error is returned
unfoldable pub after_read :
    {S : Type 0} → Option ReadFailure → Bytes → S → Option (Reply S) → Option (Reply S)
unfolding after_loop
after_read none out s rest = rest
after_read (some timed_out) out s rest = some (after_loop out s)
after_read (some end_of_file) out s rest = some (after_loop out s)
after_read (some broken) out s rest =
    some (record { bytes = out; error = some read_failed; socket = s })

-- The loop, on fuel.
unfoldable pub probe_loop : (c : Connection) → ℕ → Bytes → c.Socket → Option (Reply c.Socket)
unfolding after_read contains
probe_loop c zero out s = none
probe_loop c (suc n) out s =
    let got = c.read chunk_size s in
    let all = out ++ got.0.bytes in
    let rest = probe_loop c n all got.1 in
    if ltb (length out) max_bytes
    then (if not (is_empty got.0.bytes) && contains all ssh_mark
        then some (record { bytes = all; error = none; socket = got.1 })
        else after_read got.0.error all got.1 rest)
    else some (after_loop out s)

-- `readProbe`
unfoldable pub read_probe : (c : Connection) → c.Socket → Option (Reply c.Socket)
unfolding probe_loop
read_probe c s = probe_loop c (suc max_bytes) [] s

-- `prefixConn`, on a connection
pub record PrefixConn (S : Type 0) : Type 0 where
  pub prefix : Bytes
  pub conn : S

abbrev around : {S : Type 0} → Bytes → Chunk × S → Chunk × PrefixConn S
around prefix got = (got.0, record { prefix = prefix; conn = got.1 })

-- `prefixConn.Read`; a `bytes.Reader` gives what fits of its bytes, without an error
unfoldable pub prefix_read :
    (c : Connection) → ℕ → PrefixConn c.Socket → Chunk × PrefixConn c.Socket
prefix_read c n pc =
    if not (is_empty pc.prefix)
    then (
      record { bytes = take n pc.prefix; error = none },
      record { prefix = drop n pc.prefix; conn = pc.conn },
    )
    else around pc.prefix (c.read n pc.conn)
