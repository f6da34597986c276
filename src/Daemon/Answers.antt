-- ===== src/Daemon/Answers.antt =====
-- What the local DNS forwarder sends to the resolver and passes back.
use ssc.Base.{
  ℕ, zero, suc, ◌+◌, ◌*◌, ◌/◌, ◌%◌, ◌^◌, ◌≤◌, ◌<◌, ◌≡◌, refl, sym, ap, Bool, true, false, List, [],
  ◌∷◌, ◌++◌, Option, none, some, Bytes, length, ltb, leb, ◌&&◌, if◌then◌else◌, arith, take, drop,
  take-append-drop, length-take, All,
}
use mathlib.Core.Path.{subst}
use ssc.Socks5.Conn.{
  Conn, ◌>>◌, guard, read_full, write, write_with, continue, Result, ok, err, read_error, conn_of,
  read_full-append, write-suc,
}
use ssc.Udpgw.Frames.{put_uint16}
use ssc.Daemon.DnsForward.{
  frame, read_message, read_response, exchange, Turn, await_client, forward_one_dns_query,
  header_size, answered,
}

abbrev bytes_of : Result Bytes → Bytes
bytes_of (ok b) = b
bytes_of (err e) = []

-- the messages that the forwarder passes on
abbrev pub IsMessage : Bytes → Type 0
IsMessage m = (header_size ≤ length m) × (length m < 2 ^ 16)

read_response-frame :
    (m rest out : Bytes) (w : ℕ)
    → IsMessage m
    → read_response (conn_of (frame m ++ rest) out w) ≡ (ok m, conn_of rest out w)
unfolding read_response frame put_uint16
read_response-frame m rest out w (h, k) =
    let n = length m in
    let hi : ℕ = n / 256 % 256 in
    let lo : ℕ = n % 256 in
    let e : hi * 256 + lo ≡ n = omega arith in
    let g : (leb header_size n && leb n 65535) ≡ true = ground arith in
    rw (read_full-append (hi ∷ lo ∷ []) (m ++ rest) out w, e, g, read_full-append m rest out w) refl

-- A query for which there is a client is written whole, in a form that reads back as the query, and
-- the answer comes back whole, for messages of 12 to 65535 bytes and whatever follows the answer.
pub forward_one_dns_query_answers :
    (query response rest : Bytes) (w : ℕ) (ts : List Turn)
    → IsMessage query
    → IsMessage response
    → (forward_one_dns_query true ts (some (conn_of (frame response ++ rest) [] (suc w))) query
        ≡ (some response, some (conn_of rest (frame query) w)))
      × (read_response (conn_of (frame query ++ rest) [] w) ≡ (ok query, conn_of rest [] w))
unfolding forward_one_dns_query exchange
forward_one_dns_query_answers query response rest w ts q r = (
  rw
      (
        write-suc (frame query) (frame response ++ rest) [] w,
        read_response-frame response rest (frame query) w r,
      )
      refl,
  read_response-frame query rest [] w q,
)

read_full-inv :
    (n : ℕ) (c d : Conn) (b : Bytes)
    → read_full n c ≡ (ok b, d)
    → (c.input ≡ b ++ d.input) × (length b ≡ n)
unfolding read_full
read_full-inv n c d b e = by_length (ltb (length c.input) n) refl e
  where
    by_length :
        (t : Bool)
        → t ≡ ltb (length c.input) n
        → ◌≡◌ {A = Result Bytes × Conn}
            (if t
              then (err read_error, record c { input = [] })
              else (ok (take n c.input), record c { input = drop n c.input }))
            (ok b, d)
        → (c.input ≡ b ++ d.input) × (length b ≡ n)
    by_length true h k = let f = ap (λ r. r.0) k in absurd (cc)
    by_length false h k =
        let f : take n c.input ≡ b = ap (λ (r : Result Bytes × Conn). bytes_of r.0) k in
        let g : drop n c.input ≡ d.input = ap (λ (r : Result Bytes × Conn). r.1.input) k in
        (
          rw⁻¹ (f, g) (sym (take-append-drop n c.input)),
          rw⁻¹ f (ground (arith, length-take n c.input, h)),
        )

-- a whole message and what follows it
abbrev IsFramed : Bytes → Bytes → Bytes → Type 0
IsFramed input m rest = (input ≡ frame m ++ rest) × IsMessage m

two_bytes :
    (hi lo : ℕ) (m input : Bytes)
    → hi < 256
    → lo < 256
    → length m ≡ hi * 256 + lo
    → hi ∷ lo ∷ m ++ input ≡ frame m ++ input
unfolding frame put_uint16
two_bytes hi lo m input h l e =
    let a : length m / 256 % 256 ≡ hi = omega arith in
    let b : length m % 256 ≡ lo = omega arith in rw (a, b) refl

read_message-inv :
    (len m : Bytes) (c d : Conn)
    → length len ≡ 2
    → All (λ b. b < 256) len
    → read_message len c ≡ (ok m, d)
    → IsFramed (len ++ c.input) m d.input
read_message-inv [] m c d l a e = absurd (omega arith)
read_message-inv (x ∷ []) m c d l a e = absurd (omega arith)
read_message-inv (x ∷ y ∷ z ∷ len) m c d l a e = absurd (omega arith)
read_message-inv (hi ∷ lo ∷ []) m c d l (h, (k, u)) e =
    by_guard (leb header_size (hi * 256 + lo) && leb (hi * 256 + lo) 65535) refl e
  where
    by_guard :
        (t : Bool)
        → t ≡ (leb header_size (hi * 256 + lo) && leb (hi * 256 + lo) 65535)
        → (guard t read_error >> read_full (hi * 256 + lo)) c ≡ (ok m, d)
        → IsFramed (hi ∷ lo ∷ c.input) m d.input
    by_guard false g f = let r = ap (λ (r : Result Bytes × Conn). r.0) f in absurd (cc)
    by_guard true g f =
        let (p, q) = read_full-inv (hi * 256 + lo) c d m f in
        (rw p (two_bytes hi lo m d.input h k q), (ground (arith, g, q), ground (arith, g, q)))

All-prefix : (xs ys : Bytes) → All (λ b. b < 256) (xs ++ ys) → All (λ b. b < 256) xs
All-prefix [] ys h = tt
All-prefix (x ∷ xs) ys (p, h) = (p, All-prefix xs ys h)

read_response-inv :
    (m : Bytes) (c d : Conn)
    → All (λ b. b < 256) c.input
    → read_response c ≡ (ok m, d)
    → IsFramed c.input m d.input
unfolding read_response
read_response-inv m c d a e = by_head (read_full 2 c) refl e
  where
    by_head :
        (r : Result Bytes × Conn)
        → read_full 2 c ≡ r
        → continue r.0 read_message r.1 ≡ (ok m, d)
        → IsFramed c.input m d.input
    by_head (err x, c1) f g = let r = ap (λ (r : Result Bytes × Conn). r.0) g in absurd (cc)
    by_head (ok len, c1) f g =
        let (p, q) = read_full-inv 2 c c1 len f in
        rw p (
          read_message-inv len m c1 d q (All-prefix len c1.input (subst (All (λ b. b < 256)) p a))
            g)

exchange-inv :
    (query m : Bytes) (c d : Conn)
    → All (λ b. b < 256) c.input
    → exchange query c ≡ (ok m, d)
    → IsFramed c.input m d.input
unfolding exchange write
exchange-inv query m c d a e = by_write c.writes_left e
  where
    by_write :
        (w : ℕ)
        → continue
            (write_with w (frame query) c).0
            (λ u. read_response)
            (write_with w (frame query) c).1
          ≡ (ok m, d)
        → IsFramed c.input m d.input
    by_write zero f = let r = ap (λ (r : Result Bytes × Conn). r.0) f in absurd (cc)
    by_write (suc w) f =
        read_response-inv m
          (record { input = c.input; output = c.output ++ frame query; writes_left = w }) d a f

-- Nothing but a whole message goes back: what is passed back is one of 12 to 65535 bytes that the
-- resolver sent behind its length, and there was a client.
pub forward_one_dns_query_sound :
    (present : Bool) (ts : List Turn) (c : Conn) (query m : Bytes) (closed : Option Conn)
    → All (λ b. b < 256) c.input
    → forward_one_dns_query present ts (some c) query ≡ (some m, closed)
    → (rest : Bytes) × (c.input ≡ frame m ++ rest)
      × IsMessage m
      × ((if present then true else await_client 4 ts) ≡ true)
unfolding forward_one_dns_query
forward_one_dns_query_sound present ts c query m closed a e =
    by_client (if present then true else await_client 4 ts) refl e
  where
    Wanted : Bool → Type 0
    Wanted t = (rest : Bytes) × (c.input ≡ frame m ++ rest) × IsMessage m × (t ≡ true)

    by_exchange :
        (r : Result Bytes × Conn)
        → exchange query c ≡ r
        → ◌≡◌ {A = Option Bytes × Option Conn}
            ((answered r).0, some (answered r).1)
            (some m, closed)
        → Wanted true
    by_exchange (err x, d) f g =
        let h = ap (λ (r : Option Bytes × Option Conn). r.0) g in absurd (cc)
    by_exchange (ok b, d) f g =
        let h = ap (λ (r : Option Bytes × Option Conn). r.0) g in
        let k : b ≡ m = cc in
        let (p, q) = exchange-inv query m c d a (rw⁻¹ k f) in (d.input, p, q, refl)

    by_client :
        (t : Bool)
        → t ≡ (if present then true else await_client 4 ts)
        → ◌≡◌ {A = Option Bytes × Option Conn}
            (if t
              then ((answered (exchange query c)).0, some (answered (exchange query c)).1)
              else (none, none))
            (some m, closed)
        → Wanted t
    by_client false g f = let h = ap (λ (r : Option Bytes × Option Conn). r.0) f in absurd (cc)
    by_client true g f = by_exchange (exchange query c) refl f
