-- ===== src/Socks5/Examples.antt =====
-- The theorems on SOCKS5 at concrete inputs, and tests.
use ssc.Base.{
  ◌+◌, ◌*◌, ◌≡◌, refl, Bool, true, false, none, some, [], ◌∷◌, ◌++◌, Bytes, codes, arith,
  if◌then◌else◌,
}
use ssc.Base.Decimal.{itoa}
use ssc.Base.{length, leb, if◌then◌else◌}
use ssc.Tunnel.{WriteResult}
use ssc.Tunnel.Copying.{IsWriter}
use ssc.Socks5.Conn.{conn_of, ok, err, connect_rejected}
use ssc.Socks5.Server.{join_host_port, handle}
use ssc.Socks5.Client.{socks5_connect}
use ssc.Socks5.Interop.{
  client_bytes, server_bytes, handle-client_bytes, socks5_connect-server_bytes,
}

-- stands for the text of an IPv6 address
abbrev plain : Bytes → Bytes
plain b = b

target_text : join_host_port (codes "a.b") (itoa (1 * 256 + 187)) ≡ codes "a.b:443"
unfolding join_host_port itoa
target_text = refl

abbrev reaches_all : Bytes → Bool
reaches_all target = true

handle-client_bytes_example :
    handle plain reaches_all (conn_of (client_bytes (codes "a.b") 443 ++ codes "GET") [] 2) ≡ (
      (if true then some (join_host_port (codes "a.b") (itoa 443)) else none),
      conn_of (codes "GET") (server_bytes true) 0,
    )
handle-client_bytes_example =
    handle-client_bytes plain reaches_all (codes "a.b") (codes "GET") 443 0 true (omega arith)
      (omega arith) (omega arith) refl

socks5_connect-server_bytes_example :
    (socks5_connect (codes "a.b") 443 (conn_of (server_bytes true ++ codes "HTTP") [] 2)
      ≡ (ok tt, conn_of (codes "HTTP") (client_bytes (codes "a.b") 443) 0))
    × (socks5_connect (codes "a.b") 443 (conn_of (server_bytes false ++ codes "HTTP") [] 2) ≡ (
      err connect_rejected,
      conn_of (0 ∷ 0 ∷ 0 ∷ 0 ∷ 0 ∷ 0 ∷ codes "HTTP") (client_bytes (codes "a.b") 443) 0,
    ))
socks5_connect-server_bytes_example = socks5_connect-server_bytes (codes "a.b") (codes "HTTP") 443 0

-- a connection that takes two bytes at most
abbrev narrow : Bytes → WriteResult
narrow b =
    if leb (length b) 2
    then record { count = length b; failed = false }
    else record { count = 2; failed = true }

narrow-IsWriter : IsWriter narrow
narrow-IsWriter = record { within = λ b. ground arith; fails_short = λ b h. ground (arith, h) }
