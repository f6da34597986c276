-- ===== src/Socks5/Server.antt =====
-- internal/socks5/socks5.go: the handshake and the handling of one connection.
use ssc.Base.{
  ℕ, ◌+◌, ◌*◌, Bool, true, false, [], ◌∷◌, ◌++◌, if◌then◌else◌, ◌==◌, leb, ◌&&◌, any, Bytes,
  get_elem?, Option, none, some,
}
use ssc.Base.Decimal.{itoa}
use ssc.Socks5.Conn.{
  Conn, M, ◌>>=◌, ◌>>◌, pure, fail, guard, read_full, write, ignore, Result, ok, err,
  unsupported_version, invalid_methods, unsupported_auth_version, invalid_username_length,
  invalid_password_length, bad_request_version, unsupported_command, empty_domain,
  unsupported_address_type,
}

abbrev or_zero : Option ℕ → ℕ
or_zero none = 0
or_zero (some c) = c

-- `buf[i]`, of bytes that were read
abbrev pub byte_at : Bytes → ℕ → ℕ
byte_at b i = or_zero (get_elem? b i)

-- `reply`
unfoldable pub reply : ℕ → M (Unit {0})
reply rep = write (5 ∷ rep ∷ 0 ∷ 1 ∷ 0 ∷ 0 ∷ 0 ∷ 0 ∷ 0 ∷ 0 ∷ [])

-- the password is read if it is not empty
abbrev pub read_some : ℕ → M Bytes
read_some n = if n == 0 then pure [] else read_full n

-- RFC 1929, any credentials
unfoldable pub authenticate : M (Unit {0})
authenticate = do
  write (5 ∷ 2 ∷ [])
  head ← read_full 2
  guard (byte_at head 0 == 1) unsupported_auth_version
  guard (leb 1 (byte_at head 1) && leb (byte_at head 1) 255) invalid_username_length
  user ← read_full (byte_at head 1)
  plen ← read_full 1
  guard (leb (byte_at plen 0) 255) invalid_password_length
  password ← read_some (byte_at plen 0)
  write (1 ∷ 0 ∷ [])

-- the answer to the list of methods
unfoldable pub negotiate : Bytes → M (Unit {0})
negotiate methods = if any (λ m. m == 2) methods then authenticate else write (5 ∷ 0 ∷ [])

-- `net.IPv4(a, b, c, d).String()`
unfoldable pub ipv4_text : Bytes → Bytes
ipv4_text b =
    itoa (byte_at b 0)
    ++ b'.' ∷ itoa (byte_at b 1)
    ++ b'.' ∷ itoa (byte_at b 2)
    ++ b'.' ∷ itoa (byte_at b 3)

-- `net.JoinHostPort`
unfoldable pub join_host_port : Bytes → Bytes → Bytes
join_host_port host port =
    if any (λ c. c == b':') host then b'[' ∷ host ++ b']' ∷ b':' ∷ port else host ++ b':' ∷ port

unfoldable pub read_ipv4 : M Bytes
read_ipv4 = do b ← read_full 4; pure (ipv4_text b)

unfoldable pub read_domain : M Bytes
read_domain = do
  len ← read_full 1
  guard (leb 1 (byte_at len 0)) empty_domain
  read_full (byte_at len 0)

-- `net.IP(…).String()`, of an IPv6 address, is a parameter.
module _ (ipv6_text : Bytes → Bytes) where
  unfoldable pub read_ipv6 : M Bytes
  read_ipv6 = do b ← read_full 16; pure (ipv6_text b)

  -- the destination address
  unfoldable pub read_host : ℕ → M Bytes
  read_host atyp =
      if atyp == 1
      then read_ipv4
      else if atyp == 3
      then read_domain
      else if atyp == 4
      then read_ipv6
      else (ignore (reply 8) >> fail unsupported_address_type)

  -- the CONNECT request
  unfoldable pub read_request : M Bytes
  read_request = do
    req ← read_full 4
    guard (byte_at req 0 == 5) bad_request_version
    if byte_at req 1 == 1 then pure tt else (ignore (reply 7) >> fail unsupported_command)
    host ← read_host (byte_at req 3)
    port ← read_full 2
    pure (join_host_port host (itoa (byte_at port 0 * 256 + byte_at port 1)))

  -- `handshake`
  unfoldable pub handshake : M Bytes
  handshake = do
    head ← read_full 2
    guard (byte_at head 0 == 5) unsupported_version
    guard (leb 1 (byte_at head 1) && leb (byte_at head 1) 255) invalid_methods
    methods ← read_full (byte_at head 1)
    negotiate methods
    read_request

  abbrev answer : Bool → Bytes → Conn → Option Bytes × Conn
  answer true target c = (some target, (reply 0 c).1)
  answer false target c = (none, (reply 4 c).1)

  abbrev served : (Bytes → Bool) → Result Bytes → Conn → Option Bytes × Conn
  served dials (err e) c = (none, c)
  served dials (ok target) c = answer (dials target) target c

  -- `handle`: the target that is piped to the client, if it comes to that. `dials` says which
  -- targets the tunnel reaches.
  unfoldable pub handle : (Bytes → Bool) → Conn → Option Bytes × Conn
  handle dials c = let r = handshake c in served dials r.0 r.1
