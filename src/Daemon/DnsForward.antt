-- ===== src/Daemon/DnsForward.antt =====
-- cmd/sshcustomd/dns.go: the local DNS forwarder, which carries a query to the resolver over TCP
-- (two bytes of length, then the message). The connection is that of Socks5/Conn.
use ssc.Base.{
  ℕ, zero, suc, ◌+◌, ◌*◌, Bool, true, false, List, [], ◌∷◌, ◌++◌, Option, none, some, Bytes, length,
  ltb, leb, ◌&&◌, if◌then◌else◌,
}
use ssc.Socks5.Conn.{Conn, M, ◌>>=◌, ◌>>◌, guard, read_full, write, Result, ok, err, read_error}
use ssc.Socks5.Server.{byte_at}
use ssc.Udpgw.Frames.{put_uint16}

-- the shortest message, a header
abbrev pub header_size : ℕ
header_size = 12

-- whether `serveDNSForward` passes a datagram on
unfoldable pub accepts_query : Bytes → Bool
accepts_query query = if ltb (length query) header_size then false else true

-- the message with its length, which is kept modulo 2 ^ 16
unfoldable pub frame : Bytes → Bytes
frame query = put_uint16 (length query) ++ query

-- the answer of the resolver, after the two bytes of its length
abbrev pub read_message : Bytes → M Bytes
read_message len =
    let n = byte_at len 0 * 256 + byte_at len 1 in
    guard (leb header_size n && leb n 65535) read_error >> read_full n

-- the answer of the resolver
unfoldable pub read_response : M Bytes
read_response = read_full 2 >>= read_message

-- from the write on
unfoldable pub exchange : Bytes → M Bytes
exchange query = do write (frame query); read_response

-- One turn of the wait for a client: whether the context ends before it, and whether there is a
-- client after it.
pub record Turn : Type 0 where
  pub done : Bool
  pub client : Bool

-- the wait of up to `n` turns
unfoldable pub await_client : ℕ → List Turn → Bool
await_client zero ts = false
await_client (suc n) [] = false
await_client (suc n) (t ∷ ts) =
    let rest = await_client n ts in if t.done then false else if t.client then true else rest

abbrev pub answered : Result Bytes × Conn → Option Bytes × Conn
answered (ok response, c) = (some response, c)
answered (err e, c) = (none, c)

-- `forwardOneDNSQuery`: the datagram that goes back, and the TCP connection as it is closed.
-- `present` tells whether there is a client at first, and `dialled` is the connection to the resolver.
unfoldable pub forward_one_dns_query :
    Bool → List Turn → Option Conn → Bytes → Option Bytes × Option Conn
forward_one_dns_query present turns dialled query =
    if (if present then true else await_client 4 turns)
    then elim dialled [
      | none ↦ (none, none)
      | some c ↦ let r = answered (exchange query c) in (r.0, some r.1)
    ]
    else (none, none)
