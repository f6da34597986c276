-- ===== src/Socks5/Client.antt =====
-- internal/api/socksclient.go: the client's side of the handshake.
use ssc.Base.{ℕ, ◌+◌, ◌/◌, ◌%◌, [], ◌∷◌, ◌++◌, if◌then◌else◌, ◌==◌, ◌&&◌, Bytes, length}
use ssc.Socks5.Conn.{
  M, ◌>>=◌, ◌>>◌, pure, fail, guard, read_full, write, unsupported_address_type, handshake_rejected,
  connect_rejected,
}
use ssc.Socks5.Server.{byte_at}

abbrev pub greeting : Bytes
greeting = 5 ∷ 1 ∷ 0 ∷ []

-- the CONNECT request: the length is a byte, the port a `uint16`
abbrev pub request : Bytes → ℕ → Bytes
request host port =
    (5 ∷ 1 ∷ 0 ∷ 3 ∷ length host % 256 ∷ []) ++ host ++ port % 65536 / 256 ∷ port % 256 ∷ []

unfoldable pub skip_bytes : ℕ → M (Unit {0})
skip_bytes n = do extra ← read_full n; pure tt

unfoldable pub skip_domain : M (Unit {0})
skip_domain = do len ← read_full 1; skip_bytes (byte_at len 0 + 2)

-- what follows the head of the answer
unfoldable pub skip_address : ℕ → M (Unit {0})
skip_address atyp =
    if atyp == 1
    then skip_bytes 6
    else if atyp == 3
    then skip_domain
    else if atyp == 4
    then skip_bytes 18
    else fail unsupported_address_type

-- `socks5Connect`, on the connection to the proxy
unfoldable pub socks5_connect : Bytes → ℕ → M (Unit {0})
socks5_connect host port = do
  write greeting
  method ← read_full 2
  guard (byte_at method 0 == 5 && byte_at method 1 == 0) handshake_rejected
  write (request host port)
  resp ← read_full 4
  guard (byte_at resp 0 == 5 && byte_at resp 1 == 0) connect_rejected
  skip_address (byte_at resp 3)
