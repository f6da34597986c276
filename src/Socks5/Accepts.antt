-- ===== src/Socks5/Accepts.antt =====
-- The handshakes that the server accepts.
use ssc.Base.{
  ℕ, suc, ◌+◌, ◌*◌, ◌≤◌, ◌≡◌, true, false, [], ◌∷◌, ◌++◌, ◌∙◌, Bytes, length, leb, ◌==◌, any, arith,
}
use ssc.Base.Decimal.{itoa}
use ssc.Socks5.Conn.{conn_of, ok, ◌>>◌, read_full-append, write-suc}
use ssc.Socks5.Server.{join_host_port, reply, read_request, negotiate, handshake}
use ssc.Socks5.Reading.{read_request-domain, authenticate_lem}

-- a CONNECT request for a domain name, and what follows it
abbrev pub connect_request : Bytes → ℕ → ℕ → Bytes → Bytes
connect_request host hi lo rest = 5 ∷ 1 ∷ 0 ∷ 3 ∷ length host ∷ host ++ hi ∷ lo ∷ rest

-- the user name and the password of RFC 1929, and what follows them
abbrev pub credentials : Bytes → Bytes → Bytes → Bytes
credentials user password rest = 1 ∷ length user ∷ user ++ (length password ∷ (password ++ rest))

module _ (ipv6_text : Bytes → Bytes) where
  -- after the list of methods
  pub handshake-methods :
      (methods tail out : Bytes) (w : ℕ)
      → 1 ≤ length methods
      → length methods ≤ 255
      → handshake ipv6_text (conn_of (5 ∷ length methods ∷ methods ++ tail) out w)
        ≡ (negotiate methods >> read_request ipv6_text) (conn_of tail out w)
  unfolding handshake
  handshake-methods methods tail out w h k = rw (
    read_full-append (5 ∷ length methods ∷ []) (methods ++ tail) out w,
    low,
    high,
    read_full-append methods tail out w,
  )
    where
      low : leb 1 (length methods) ≡ true
      low = ground arith

      high : leb (length methods) 255 ≡ true
      high = ground arith

  -- A client that does not offer password authentication and asks for a domain name of at least one
  -- byte is answered `05 00`, and the handshake yields that name with the port; exactly the bytes of
  -- the handshake are consumed.
  pub handshake-no_auth :
      (methods host rest out : Bytes) (hi lo w : ℕ)
      → 1 ≤ length methods
      → length methods ≤ 255
      → any (λ m. m == 2) methods ≡ false
      → 1 ≤ length host
      → handshake ipv6_text
          (conn_of (5 ∷ length methods ∷ methods ++ connect_request host hi lo rest) out (suc w))
        ≡ (ok (join_host_port host (itoa (hi * 256 + lo))), conn_of rest (out ++ 5 ∷ 0 ∷ []) w)
  unfolding negotiate
  handshake-no_auth methods host rest out hi lo w h k n l =
      handshake-methods methods (connect_request host hi lo rest) out (suc w) h k
      ∙ rw (n, write-suc (5 ∷ 0 ∷ []) (connect_request host hi lo rest) out w)
          (read_request-domain ipv6_text host rest (out ++ 5 ∷ 0 ∷ []) hi lo w l)

  -- A client that offers password authentication is asked for it, and any user name of 1 to 255
  -- bytes with any password of up to 255 bytes is accepted.
  pub handshake-password :
      (methods user password host rest out : Bytes) (hi lo w : ℕ)
      → 1 ≤ length methods
      → length methods ≤ 255
      → any (λ m. m == 2) methods ≡ true
      → 1 ≤ length user
      → length user ≤ 255
      → length password ≤ 255
      → 1 ≤ length host
      → handshake ipv6_text (
          conn_of
            (5 ∷ length methods ∷ methods
              ++ credentials user password (connect_request host hi lo rest))
            out
            (suc (suc w)))
        ≡ (
          ok (join_host_port host (itoa (hi * 256 + lo))),
          conn_of rest (out ++ 5 ∷ 2 ∷ [] ++ 1 ∷ 0 ∷ []) w,
        )
  unfolding negotiate
  handshake-password methods user password host rest out hi lo w h k n hu ku kp l =
      handshake-methods methods (credentials user password (connect_request host hi lo rest)) out
        (suc (suc w)) h k
      ∙ rw (n, authenticate_lem user password (connect_request host hi lo rest) out w hu ku kp)
          (read_request-domain ipv6_text host rest (out ++ 5 ∷ 2 ∷ [] ++ 1 ∷ 0 ∷ []) hi lo w l)

abbrev pub reply_bytes : ℕ → Bytes
reply_bytes rep = 5 ∷ rep ∷ 0 ∷ 1 ∷ 0 ∷ 0 ∷ 0 ∷ 0 ∷ 0 ∷ 0 ∷ []

pub reply_lem :
    (rep : ℕ) (inp out : Bytes) (w : ℕ)
    → reply rep (conn_of inp out (suc w)) ≡ (ok tt, conn_of inp (out ++ reply_bytes rep) w)
unfolding reply
reply_lem rep inp out w = write-suc (reply_bytes rep) inp out w
