-- ===== src/Socks5/Interop.antt =====
-- The program's own SOCKS5 client against its server.
use ssc.Base.{
  ℕ, suc, ◌+◌, ◌*◌, ◌/◌, ◌%◌, ◌≤◌, ◌<◌, ◌≡◌, refl, true, false, none, some, [], ◌∷◌, ◌++◌,
  append_assoc, Bool, Bytes, length, arith, if◌then◌else◌,
}
use ssc.Base.Decimal.{itoa}
use ssc.Socks5.Conn.{conn_of, ok, err, read_full-append, write-suc, connect_rejected}
use ssc.Socks5.Server.{join_host_port, handle}
use ssc.Socks5.Client.{greeting, request, skip_bytes, skip_address, socks5_connect}
use ssc.Socks5.Accepts.{connect_request, reply_bytes, reply_lem, handshake-no_auth}

-- what the server writes for a target that the tunnel reaches, or does not
abbrev pub server_bytes : Bool → Bytes
server_bytes true = 5 ∷ 0 ∷ [] ++ reply_bytes 0
server_bytes false = 5 ∷ 0 ∷ [] ++ reply_bytes 4

abbrev pub client_bytes : Bytes → ℕ → Bytes
client_bytes host port = greeting ++ request host port

request-eq :
    (host rest : Bytes) (port : ℕ)
    → length host ≤ 255
    → port < 65536
    → client_bytes host port ++ rest
      ≡ 5 ∷ 1 ∷ 0 ∷ connect_request host (port / 256) (port % 256) rest
request-eq host rest port h k = rw (len (length host) h, high port k, append_assoc)
  where
    len : (n : ℕ) → n ≤ 255 → n % 256 ≡ n
    len n h = omega arith

    high : (n : ℕ) → n < 65536 → n % 65536 / 256 ≡ n / 256
    high n h = omega arith

two_bytes : (port : ℕ) → port / 256 * 256 + port % 256 ≡ port
two_bytes port = omega arith

-- The server, fed with what the client writes, opens the client's target: it writes the success
-- reply and goes on with what the client sends after the handshake if the tunnel reaches the
-- target, and writes the reply 4 and gives up otherwise.
pub handle-client_bytes :
    (ipv6_text : Bytes → Bytes) (dials : Bytes → Bool) (host early : Bytes) (port w : ℕ)
    (reached : Bool)
    → 1 ≤ length host
    → length host ≤ 255
    → port < 65536
    → dials (join_host_port host (itoa port)) ≡ reached
    → handle ipv6_text dials (conn_of (client_bytes host port ++ early) [] (suc (suc w))) ≡ (
      (if reached then some (join_host_port host (itoa port)) else none),
      conn_of early (server_bytes reached) w,
    )
unfolding handle
handle-client_bytes ipv6_text dials host early port w true h k l r = rw (
  request-eq host early port k l,
  handshake-no_auth ipv6_text (0 ∷ []) host early [] (port / 256) (port % 256) (suc w) (omega arith)
      (omega arith) refl h,
  two_bytes port,
  r,
  reply_lem 0 early (5 ∷ 0 ∷ []) w,
)
handle-client_bytes ipv6_text dials host early port w false h k l r = rw (
  request-eq host early port k l,
  handshake-no_auth ipv6_text (0 ∷ []) host early [] (port / 256) (port % 256) (suc w) (omega arith)
      (omega arith) refl h,
  two_bytes port,
  r,
  reply_lem 4 early (5 ∷ 0 ∷ []) w,
)

-- The client, fed with what the server writes, accepts the success reply, having consumed exactly
-- that reply, and reports an error for the reply 4.
pub socks5_connect-server_bytes :
    (host stream : Bytes) (port v : ℕ)
    → (socks5_connect host port (conn_of (server_bytes true ++ stream) [] (suc (suc v)))
        ≡ (ok tt, conn_of stream (client_bytes host port) v))
      × (socks5_connect host port (conn_of (server_bytes false ++ stream) [] (suc (suc v))) ≡ (
        err connect_rejected,
        conn_of (0 ∷ 0 ∷ 0 ∷ 0 ∷ 0 ∷ 0 ∷ stream) (client_bytes host port) v,
      ))
unfolding socks5_connect skip_address skip_bytes
socks5_connect-server_bytes host stream port v = (
  rw (
    write-suc greeting (server_bytes true ++ stream) [] (suc v),
    read_full-append (5 ∷ 0 ∷ []) (reply_bytes 0 ++ stream) greeting (suc v),
    write-suc (request host port) (reply_bytes 0 ++ stream) greeting v,
    read_full-append (5 ∷ 0 ∷ 0 ∷ 1 ∷ []) (0 ∷ 0 ∷ 0 ∷ 0 ∷ 0 ∷ 0 ∷ stream) (client_bytes host port)
        v,
    read_full-append (0 ∷ 0 ∷ 0 ∷ 0 ∷ 0 ∷ 0 ∷ []) stream (client_bytes host port) v,
  ),
  rw (
    write-suc greeting (server_bytes false ++ stream) [] (suc v),
    read_full-append (5 ∷ 0 ∷ []) (reply_bytes 4 ++ stream) greeting (suc v),
    write-suc (request host port) (reply_bytes 4 ++ stream) greeting v,
    read_full-append (5 ∷ 4 ∷ 0 ∷ 1 ∷ []) (0 ∷ 0 ∷ 0 ∷ 0 ∷ 0 ∷ 0 ∷ stream) (client_bytes host port)
        v,
  ),
)
