-- ===== src/Udpgw/Dispatch.antt =====
-- internal/udpgw/udpgw.go: what the gateway's two ends read of each other's frames.
use mathlib.Core.Path.{◌∙◌}
use ssc.Base.{
  ℕ, suc, ◌+◌, ◌*◌, ◌/◌, ◌%◌, ◌<◌, ◌≤◌, ◌≡◌, refl, true, false, List, [], ◌∷◌, ◌++◌, Option, none,
  some, if◌then◌else◌, Bytes, ◌==◌, ◌||◌, ltb, length, All, arith, length-append,
  take-length-append, drop-length-append, ap,
}
use ssc.Udpgw.{UdpAddr, to4, Flows, lookup}
use ssc.Udpgw.Frames.{
  put_uint16, encode_frame, address_bytes, frame, read_header_failed, payload_of, read_frame,
  Packets, deliver, touch_known, read_loop,
}

-- What the server of the gateway reads of a frame, written from the protocol: the flags, the
-- identifier, the payload's length, the IPv4 address, the port, and the payload.
pub record Sent : Type 0 where
  pub conid : ℕ
  pub ip4 : Bytes
  pub port : ℕ
  pub payload : Bytes

abbrev pub word : ℕ → ℕ → ℕ
word hi lo = hi * 256 + lo

unfoldable pub decode : Bytes → Option Sent
decode (flags ∷ c ∷ d ∷ l ∷ m ∷ x ∷ y ∷ z ∷ w ∷ p ∷ q ∷ rest) =
    if flags == 1
    then (if length rest == word l m
        then some
            (record { conid = word c d; ip4 = x ∷ y ∷ z ∷ w ∷ []; port = word p q; payload = rest })
        else none)
    else none
decode _ = none

word-split : (n : ℕ) → n < 65536 → word ((n / 256) % 256) (n % 256) ≡ n
word-split n h = omega arith

==_refl : (n m : ℕ) → n ≡ m → (n == m) ≡ true
==_refl n m h = ground arith

-- For an identifier, a port and a length that fit into 16 bits and an address with the four bytes
-- of an IPv4 address, the server reads of the frame what the client put into it.
pub decode-encode_frame :
    (conid : ℕ) (addr : UdpAddr) (payload : Bytes) (x y z w : ℕ)
    → conid < 65536
    → addr.port < 65536
    → length payload < 65536
    → to4 addr.ip ≡ some (x ∷ y ∷ z ∷ w ∷ [])
    → decode (encode_frame conid addr payload)
      ≡ some
          (record { conid = conid; ip4 = x ∷ y ∷ z ∷ w ∷ []; port = addr.port; payload = payload })
unfolding decode encode_frame put_uint16
decode-encode_frame conid addr payload x y z w hc hp hl e = rw (
  e,
  address_bytes,
  ==_refl (length payload) (word ((length payload / 256) % 256) (length payload % 256))
      (omega arith),
  word-split conid hc,
  word-split addr.port hp,
)

-- A frame of the server: the identifier, the length, the payload.
abbrev pub reply_frame : ℕ × Bytes → Bytes
reply_frame (conid, payload) = put_uint16 conid ++ put_uint16 (length payload) ++ payload

abbrev pub stream : List (ℕ × Bytes) → Bytes
stream [] = []
stream (f ∷ fs) = reply_frame f ++ stream fs

-- a reply that the client accepts
abbrev pub Fits : ℕ × Bytes → Type 0
Fits (conid, payload) = (conid < 65536) × (0 < length payload) × (length payload ≤ 8192)

-- the packets that the replies make: each payload goes to the source of its identifier, if known
abbrev pub delivered : List (ℕ × Bytes) → List (ℕ × UdpAddr) → Packets
delivered [] m = []
delivered ((conid, payload) ∷ fs) m = deliver (lookup conid m) payload ++ delivered fs m

payload_of-exact :
    (conid : ℕ) (payload rest : Bytes)
    → 0 < length payload
    → length payload ≤ 8192
    → payload_of conid (length payload) (payload ++ rest) ≡ frame conid payload rest
payload_of-exact conid payload rest hl hu =
    let small : (length payload == 0 || ltb 8192 (length payload)) ≡ false = ground arith in
    let whole : ltb (length (payload ++ rest)) (length payload) ≡ false =
      ground (arith, length-append payload rest) in
    rw (small, whole, take-length-append payload rest, drop-length-append payload rest)

read_frame-reply :
    (conid : ℕ) (payload rest : Bytes)
    → Fits (conid, payload)
    → read_frame (reply_frame (conid, payload) ++ rest) ≡ frame conid payload rest
unfolding read_frame put_uint16
read_frame-reply conid payload rest (hc, hl, hu) =
    rw (word-split conid hc, word-split (length payload) (omega arith))
      (payload_of-exact conid payload rest hl hu)

touch_known-sources :
    (o : Option UdpAddr) (conid now : ℕ) (s : Flows)
    → (touch_known o conid now s).src_by_id ≡ s.src_by_id
touch_known-sources none conid now s = refl
touch_known-sources (some a) conid now s = refl

-- Replies that fit, one after the other, are read back whole and in order: each payload is sent to
-- the source of its identifier, those of unknown identifiers are dropped, and the loop ends at the end
-- of the connection, with no frame left unread.
pub read_loop-stream :
    (fs : List (ℕ × Bytes)) (now : ℕ) (s : Flows)
    → All Fits fs
    → ((read_loop (suc (length fs)) now (stream fs) s).packets ≡ delivered fs s.src_by_id)
      × ((read_loop (suc (length fs)) now (stream fs) s).error ≡ some read_header_failed)
unfolding read_loop
read_loop-stream [] now s h = (refl, refl)
read_loop-stream ((conid, payload) ∷ fs) now s (h, hs) =
    let src = lookup conid s.src_by_id in
    let t = touch_known src conid now s in
    let (ps, e) = read_loop-stream fs now t hs in
    rw (read_frame-reply conid payload (stream fs) h) (
      ap (λ r. deliver src payload ++ r)
          (ps ∙ ap (λ m. delivered fs m) (touch_known-sources src conid now s)),
      e,
    )
