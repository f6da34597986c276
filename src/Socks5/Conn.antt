-- ===== src/Socks5/Conn.antt =====
-- A connection with failing reads and writes, and the monad of code that uses one.
use ssc.Base.{
  ℕ, zero, suc, ◌≡◌, refl, Bool, true, false, [], ◌++◌, Bytes, length, take, drop, length-append,
  ltb, if◌then◌else◌, take-length-append, drop-length-append, arith,
}

pub record Conn : Type 0 where
  pub input : Bytes
  pub output : Bytes
  -- the writes that succeed before the peer is gone
  pub writes_left : ℕ

pub data SocksError : Type 0 where
  read_error write_error : SocksError
  unsupported_version invalid_methods : SocksError
  unsupported_auth_version invalid_username_length invalid_password_length : SocksError
  bad_request_version unsupported_command empty_domain unsupported_address_type : SocksError
  dial_error handshake_rejected connect_rejected : SocksError

pub data Result (A : Type 0) : Type 0 where
  ok : A → Result A
  err : SocksError → Result A

abbrev pub M : Type 0 → Type 0
M A = Conn → Result A × Conn

abbrev pub continue : {A B : Type 0} → Result A → (A → M B) → M B
continue (ok a) f c = f a c
continue (err e) f c = (err e, c)

infixl 5 ◌>>=◌ ◌>>◌
abbrev pub ◌>>=◌ : {A B : Type 0} → M A → (A → M B) → M B
◌>>=◌ m f c = let r = m c in continue r.0 f r.1

abbrev pub ◌>>◌ : {B : Type 0} → M (Unit {0}) → M B → M B
m >> k = m >>= λ _. k

abbrev pub pure : {A : Type 0} → A → M A
pure a c = (ok a, c)

abbrev pub fail : {A : Type 0} → SocksError → M A
fail e c = (err e, c)

abbrev pub guard : Bool → SocksError → M (Unit {0})
guard true e = pure tt
guard false e = fail e

-- `io.ReadFull` into `n` bytes; what is left of a short input is consumed too.
unfoldable pub read_full : ℕ → M Bytes
read_full n c =
    if ltb (length c.input) n
    then (err read_error, record c { input = [] })
    else (ok (take n c.input), record c { input = drop n c.input })

abbrev pub write_with : ℕ → Bytes → M (Unit {0})
write_with zero b c = (err write_error, c)
write_with (suc n) b c =
    (ok tt, record { input = c.input; output = c.output ++ b; writes_left = n })

unfoldable pub write : Bytes → M (Unit {0})
write b c = write_with c.writes_left b c

-- an outcome is not looked at: `_ = reply(…)`
abbrev pub ignore : M (Unit {0}) → M (Unit {0})
ignore m c = (ok tt, (m c).1)

abbrev pub conn_of : Bytes → Bytes → ℕ → Conn
conn_of i o w = record { input = i; output = o; writes_left = w }

long : (b rest : Bytes) → ltb (length (b ++ rest)) (length b) ≡ false
long b rest = ground (arith, length-append b rest)

-- Reading as many bytes as a text has, from a connection that begins with it.
pub read_full-append :
    (b rest out : Bytes) (w : ℕ)
    → read_full (length b) (conn_of (b ++ rest) out w) ≡ (ok b, conn_of rest out w)
unfolding read_full
read_full-append b rest out w =
    rw (long b rest, take-length-append b rest, drop-length-append b rest)

pub write-suc :
    (b inp out : Bytes) (w : ℕ)
    → write b (conn_of inp out (suc w)) ≡ (ok tt, conn_of inp (out ++ b) w)
unfolding write
write-suc b inp out w = refl
