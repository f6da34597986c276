-- ===== src/Socks5/Reading.antt =====
-- What the server reads, step by step.
use ssc.Base.{
  ℕ, suc, ◌+◌, ◌*◌, ◌≤◌, ◌≡◌, refl, true, false, [], ◌∷◌, ◌++◌, Bytes, length, leb, ◌==◌, arith,
}
use ssc.Base.Decimal.{itoa}
use ssc.Socks5.Conn.{conn_of, ok, read_full-append, write-suc}
use ssc.Socks5.Server.{
  join_host_port, read_some, read_domain, read_host, read_request, authenticate,
}

pub read_domain_lem :
    (host rest out : Bytes) (w : ℕ)
    → 1 ≤ length host
    → read_domain (conn_of (length host ∷ host ++ rest) out w) ≡ (ok host, conn_of rest out w)
unfolding read_domain
read_domain_lem host rest out w h =
    rw (read_full-append (length host ∷ []) (host ++ rest) out w, test)
      (read_full-append host rest out w)
  where
    test : leb 1 (length host) ≡ true
    test = ground arith

module _ (ipv6_text : Bytes → Bytes) where
  pub read_request-domain :
      (host rest out : Bytes) (hi lo w : ℕ)
      → 1 ≤ length host
      → read_request ipv6_text
          (conn_of (5 ∷ 1 ∷ 0 ∷ 3 ∷ length host ∷ host ++ hi ∷ lo ∷ rest) out w)
        ≡ (ok (join_host_port host (itoa (hi * 256 + lo))), conn_of rest out w)
  unfolding read_request read_host
  read_request-domain host rest out hi lo w h = rw (
    read_full-append (5 ∷ 1 ∷ 0 ∷ 3 ∷ []) (length host ∷ host ++ hi ∷ lo ∷ rest) out w,
    read_domain_lem host (hi ∷ lo ∷ rest) out w h,
    read_full-append (hi ∷ lo ∷ []) rest out w,
  )

read_some_lem :
    (b rest out : Bytes) (w : ℕ)
    → read_some (length b) (conn_of (b ++ rest) out w) ≡ (ok b, conn_of rest out w)
read_some_lem [] rest out w = refl
read_some_lem (c ∷ b) rest out w = rw (nonzero (length b)) (read_full-append (c ∷ b) rest out w)
  where
    nonzero : (n : ℕ) → (suc n == 0) ≡ false
    nonzero n = ground arith

-- The sub-negotiation accepts every user name and password.
pub authenticate_lem :
    (user password rest out : Bytes) (w : ℕ)
    → 1 ≤ length user
    → length user ≤ 255
    → length password ≤ 255
    → authenticate (
        conn_of
          (1 ∷ length user ∷ user ++ (length password ∷ (password ++ rest)))
          out
          (suc (suc w)))
      ≡ (ok tt, conn_of rest (out ++ 5 ∷ 2 ∷ [] ++ 1 ∷ 0 ∷ []) w)
unfolding authenticate
authenticate_lem user password rest out w h k l = rw (
  write-suc (5 ∷ 2 ∷ []) (1 ∷ length user ∷ user ++ (length password ∷ (password ++ rest))) out
      (suc w),
  read_full-append (1 ∷ length user ∷ []) (user ++ (length password ∷ (password ++ rest)))
      (out ++ 5 ∷ 2 ∷ []) (suc w),
  low,
  high,
  read_full-append user (length password ∷ (password ++ rest)) (out ++ 5 ∷ 2 ∷ []) (suc w),
  read_full-append (length password ∷ []) (password ++ rest) (out ++ 5 ∷ 2 ∷ []) (suc w),
  short,
  read_some_lem password rest (out ++ 5 ∷ 2 ∷ []) (suc w),
  write-suc (1 ∷ 0 ∷ []) rest (out ++ 5 ∷ 2 ∷ []) w,
)
  where
    low : leb 1 (length user) ≡ true
    low = ground arith

    high : leb (length user) 255 ≡ true
    high = ground arith

    short : leb (length password) 255 ≡ true
    short = ground arith
