-- ===== src/Tunnel/Classes.antt =====
-- How the two classifications of errors agree.
use ssc.Base.{
  ◌≡◌, refl, ◌⊎◌, true, [], ◌∷◌, some, Bytes, codes, arith, has_prefix, lower, to_lower, contains,
  contains-cons,
}
use ssc.Tunnel.{is_transport_error, classify_disconnect, remote_closed, keepalive_timeout}

has_prefix-to_lower :
    (s p : Bytes) → has_prefix s p ≡ true → has_prefix (to_lower s) (to_lower p) ≡ true
unfolding has_prefix
has_prefix-to_lower s [] h = refl
has_prefix-to_lower [] (d ∷ p) h = cc
has_prefix-to_lower (c ∷ s) (d ∷ p) h = ground (arith, has_prefix-to_lower s p)

-- A text in lower case holds the pattern in lower case.
contains-to_lower : (s p : Bytes) → contains s p ≡ true → contains (to_lower s) (to_lower p) ≡ true
unfolding contains
contains-to_lower [] [] h = h
contains-to_lower [] (d ∷ p) h = h
contains-to_lower (c ∷ s) p h = ground (
  arith,
  contains-cons c s p,
  contains-cons (lower c) (to_lower s) (to_lower p),
  has_prefix-to_lower (c ∷ s) p,
  contains-to_lower s p,
)

-- An error that is reported as the server's closing of the connection, or as a dead connection,
-- counts as a transport error, whatever else its text says.
pub is_transport_error-classify :
    (err : Bytes)
    → (classify_disconnect (some err) ≡ remote_closed)
      ⊎ (classify_disconnect (some err) ≡ keepalive_timeout)
    → is_transport_error (some err) ≡ true
unfolding classify_disconnect is_transport_error
is_transport_error-classify err h = ground (
  arith,
  contains-to_lower err (codes "EOF"),
  contains-to_lower err (codes "eof"),
  contains-to_lower err (codes "use of closed network connection"),
  eof,
  eof',
  closed,
)
  where
    eof : to_lower (codes "EOF") ≡ codes "eof"
    eof = unfold lower in refl

    eof' : to_lower (codes "eof") ≡ codes "eof"
    eof' = unfold lower in refl

    closed :
        to_lower (codes "use of closed network connection")
        ≡ codes "use of closed network connection"
    closed = unfold lower in refl
