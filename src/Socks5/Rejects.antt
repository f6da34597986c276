-- ===== src/Socks5/Rejects.antt =====
-- The requests that the server refuses.
use ssc.Base.{
  ℕ, suc, ◌≤◌, ◌≡◌, ◌≢◌, false, Option, none, some, if◌then◌else◌, [], ◌∷◌, ◌++◌, ◌∙◌, Bytes,
  length, ◌==◌, any, arith,
}
use ssc.Socks5.Conn.{
  SocksError, conn_of, err, read_full-append, write-suc, unsupported_version, unsupported_command,
  unsupported_address_type,
}
use ssc.Socks5.Server.{read_host, read_request, negotiate, handshake}
use ssc.Socks5.Accepts.{reply_bytes, reply_lem, handshake-methods}

ne_test : (a b : ℕ) → a ≢ b → (a == b) ≡ false
ne_test a b h = ground arith

-- RFC 1928: the error and the reply code for a request that the server does not serve.
abbrev pub refusal : ℕ → ℕ → Option (SocksError × ℕ)
refusal cmd atyp =
    if cmd == 1
    then (if atyp == 1
        then none
        else if atyp == 3
        then none
        else if atyp == 4
        then none
        else some (unsupported_address_type, 8))
    else some (unsupported_command, 7)

module _ (ipv6_text : Bytes → Bytes) where
  -- A peer that does not speak version 5 is refused before anything is written to it.
  pub handshake-bad_version :
      (v n : ℕ) (rest out : Bytes) (w : ℕ)
      → v ≢ 5
      → handshake ipv6_text (conn_of (v ∷ n ∷ rest) out w)
        ≡ (err unsupported_version, conn_of rest out w)
  unfolding handshake
  handshake-bad_version v n rest out w h =
      rw (read_full-append (v ∷ n ∷ []) rest out w, ne_test v 5 h)

  refuse-request :
      (rest out : Bytes) (cmd rsv atyp w : ℕ) (e : SocksError) (code : ℕ)
      → refusal cmd atyp ≡ some (e, code)
      → read_request ipv6_text (conn_of (5 ∷ cmd ∷ rsv ∷ atyp ∷ rest) out (suc w))
        ≡ (err e, conn_of rest (out ++ reply_bytes code) w)
  unfolding read_request read_host
  refuse-request rest out cmd rsv atyp w e code h =
      rw (read_full-append (5 ∷ cmd ∷ rsv ∷ atyp ∷ []) rest out (suc w))
        (ground (arith, reply_lem 7 rest out w, reply_lem 8 rest out w))

  -- After the methods, a command other than CONNECT is answered with the reply 7 and refused, and
  -- so is an address type other than IPv4, domain name and IPv6, with the reply 8.
  pub handshake-refuses :
      (methods rest out : Bytes) (cmd rsv atyp w : ℕ) (e : SocksError) (code : ℕ)
      → 1 ≤ length methods
      → length methods ≤ 255
      → any (λ m. m == 2) methods ≡ false
      → refusal cmd atyp ≡ some (e, code)
      → handshake ipv6_text
          (conn_of (5 ∷ length methods ∷ methods ++ 5 ∷ cmd ∷ rsv ∷ atyp ∷ rest) out (suc (suc w)))
        ≡ (err e, conn_of rest (out ++ 5 ∷ 0 ∷ [] ++ reply_bytes code) w)
  unfolding negotiate
  handshake-refuses methods rest out cmd rsv atyp w e code h k n r =
      handshake-methods ipv6_text methods (5 ∷ cmd ∷ rsv ∷ atyp ∷ rest) out (suc (suc w)) h k
      ∙ rw (n, write-suc (5 ∷ 0 ∷ []) (5 ∷ cmd ∷ rsv ∷ atyp ∷ rest) out (suc w))
          (refuse-request rest (out ++ 5 ∷ 0 ∷ []) cmd rsv atyp w e code r)
