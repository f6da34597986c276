-- ===== src/Udpgw/Returning.antt =====
-- internal/udpgw/udpgw.go: the reply to a forwarded packet, after whatever the loops do to the flows in
-- the meantime.
use mathlib.Core.Path.{subst}
use ssc.Base.{
  ℕ, ◌<◌, ◌≤◌, ◌≡◌, ◌≢◌, refl, sym, ap, ◌∙◌, true, false, List, [], ◌∷◌, ◌++◌, Option, none, some,
  Bytes, length,
}
use ssc.Udpgw.{
  UdpAddr, Flows, lookup, touch, allocate_for, allocate_conid, owner, next_conid, same_source,
  janitor,
}
use ssc.Udpgw.Allocation.{
  IsValid, InRange, DistinctKeys, allocate_conid-Replies, allocate_conid-InRange, lookup-set_other,
}
use ssc.Udpgw.Dispatch.{stream, read_loop-stream}
use ssc.Udpgw.Frames.{
  encode_frame, deliver, read_loop, Leg, no_conn, write_fails, write_works, ControlMessage,
  write_frame, forward, extract_dst, or_source,
}
use ssc.Udpgw.Janitor.{is_expired, left_of, janitor-left_of}
use ssc.Udpgw.Tracked.{set-DistinctKeys, sweep-DistinctKeys}

-- A change of the flows that leaves the flow of an identifier its own: a packet of a known source, or
-- of a new one that is not given this identifier again; the use of any identifier; or a round of the
-- janitor while the flow has been used within the last 120 s.
pub data Spares (id : ℕ) : Flows → Flows → Type 0 where
  allocates :
      (src : UdpAddr) (now : ℕ) (s : Flows)
      → (owner src s.src_by_id ≡ none → id ≢ next_conid s.conid_seq)
      → Spares id s (allocate_conid src now s).0
  touches : (n now : ℕ) (s : Flows) → Spares id s (touch n now s)
  sweeps :
      (now : ℕ) (s : Flows)
      → is_expired now (lookup id s.idle_by_id) ≡ false
      → Spares id s (janitor now s)

pub data Meanwhile (id : ℕ) (s : Flows) : Flows → Type 0 where
  nothing : Meanwhile id s s
  more : (t u : Flows) → Meanwhile id s t → Spares id t u → Meanwhile id s u

-- the flow is as before, and the times still have distinct identifiers
abbrev Same : ℕ → Flows → Flows → Type 0
Same id s t = (lookup id t.src_by_id ≡ lookup id s.src_by_id) × DistinctKeys t.idle_by_id

allocate_for-DistinctKeys :
    (o : Option ℕ) (src : UdpAddr) (now : ℕ) (s : Flows)
    → DistinctKeys s.idle_by_id
    → DistinctKeys (allocate_for o src now s).0.idle_by_id
allocate_for-DistinctKeys none src now s d =
    set-DistinctKeys (next_conid s.conid_seq) now s.idle_by_id d
allocate_for-DistinctKeys (some n) src now s d = set-DistinctKeys n now s.idle_by_id d

allocate_for-Same :
    (id : ℕ) (o : Option ℕ) (src : UdpAddr) (now : ℕ) (s : Flows)
    → (o ≡ none → id ≢ next_conid s.conid_seq)
    → DistinctKeys s.idle_by_id
    → Same id s (allocate_for o src now s).0
allocate_for-Same id none src now s h d = (
  lookup-set_other id (next_conid s.conid_seq) src s.src_by_id (h refl),
  allocate_for-DistinctKeys none src now s d,
)
allocate_for-Same id (some n) src now s h d = (refl, allocate_for-DistinctKeys (some n) src now s d)

Spares-Same : {id : ℕ} {s t : Flows} → Spares id s t → DistinctKeys s.idle_by_id → Same id s t
unfolding allocate_conid janitor
Spares-Same {id} (allocates src now s h) d =
    allocate_for-Same id (owner src s.src_by_id) src now s h d
Spares-Same (touches n now s) d = (refl, set-DistinctKeys n now s.idle_by_id d)
Spares-Same {id} (sweeps now s e) d = (
  (janitor-left_of now id s d).0 ∙ ap (λ b. left_of b (lookup id s.src_by_id)) e,
  sweep-DistinctKeys now s.idle_by_id s d,
)

Meanwhile-Same : {id : ℕ} {s t : Flows} → Meanwhile id s t → DistinctKeys s.idle_by_id → Same id s t
Meanwhile-Same nothing d = (refl, d)
Meanwhile-Same (more t u m step) d =
    let (e, k) = Meanwhile-Same m d in let (f, l) = Spares-Same step k in (f ∙ e, l)

-- what a packet leaves, however its writing ends
write_frame-Same :
    (leg : Leg) (now : ℕ) (wire : Bytes) (conid : ℕ) (s : Flows)
    → DistinctKeys s.idle_by_id
    → Same conid s (write_frame leg now wire conid s).flows
      × ((write_frame leg now wire conid s).conid ≡ conid)
write_frame-Same no_conn now wire conid s d = ((refl, d), refl)
write_frame-Same write_fails now wire conid s d = ((refl, d), refl)
write_frame-Same write_works now wire conid s d =
    ((refl, set-DistinctKeys conid now s.idle_by_id d), refl)

answered :
    (conid later : ℕ) (u t : Flows) (a : UdpAddr) (reply : Bytes)
    → InRange conid
    → Meanwhile conid u t
    → DistinctKeys u.idle_by_id
    → lookup conid u.src_by_id ≡ some a
    → 0 < length reply
    → length reply ≤ 8192
    → (read_loop 2 later (stream ((conid, reply) ∷ [])) t).packets ≡ (a, reply) ∷ []
answered conid later u t a reply r m d found hl hu =
    (read_loop-stream ((conid, reply) ∷ []) later t ((r.1, hl, hu), tt)).0
    ∙ ap (λ o. deliver o reply ++ []) ((Meanwhile-Same m d).0 ∙ found)

-- In valid flows: a packet is forwarded, whether it can be written or not, and then the loops change
-- the flows in any way in which its identifier is not given to another source and the janitor comes
-- within 120 s of the flow's last use. A reply of 1 to 8192 bytes that carries the identifier then
-- reaches the source of the packet.
pub forward-read_loop :
    (leg : Leg) (oob : Option (List ControlMessage)) (src : UdpAddr) (payload : Bytes)
    (now later : ℕ) (s t : Flows) (reply : Bytes)
    → IsValid s
    → DistinctKeys s.idle_by_id
    → Meanwhile
        (forward leg oob src payload now s).conid
        (forward leg oob src payload now s).flows
        t
    → 0 < length reply
    → length reply ≤ 8192
    → (a : UdpAddr) × (same_source a src ≡ true)
      × ((read_loop 2 later
            (stream (((forward leg oob src payload now s).conid, reply) ∷ []))
            t).packets
          ≡ (a, reply) ∷ [])
unfolding forward allocate_conid
forward-read_loop leg oob src payload now later s t reply v d m hl hu =
    let r = allocate_conid src now s in
    let wire = encode_frame r.1 (or_source (extract_dst oob src) src) payload in
    let (kept, ident) =
      write_frame-Same leg now wire r.1 r.0
        (allocate_for-DistinctKeys (owner src s.src_by_id) src now s d) in
    let (a, found, same) = allocate_conid-Replies src now s v in
    let f = write_frame leg now wire r.1 r.0 in
    (
      a,
      same,
      answered f.conid later f.flows t a reply
          (subst InRange (sym ident) (allocate_conid-InRange src now s v)) m kept.1
          (subst (λ n. lookup n f.flows.src_by_id ≡ some a) (sym ident) (kept.0 ∙ found)) hl hu,
    )
