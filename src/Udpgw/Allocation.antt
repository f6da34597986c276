-- ===== src/Udpgw/Allocation.antt =====
-- internal/udpgw/udpgw.go: the identifiers that `allocateConid` gives.
use mathlib.Core.Path.{subst}
use ssc.Base.{
  ℕ, ◌+◌, ◌%◌, ◌<◌, ◌≡◌, ◌≢◌, inl, inr, refl, true, List, [], ◌∷◌, Option, none, some, ◌==◌, ltb,
  All, arith, Bool-cases, Option-cases, text_eq_refl, if_holds, if◌then◌else◌, ==_iff,
}
use ssc.Udpgw.{
  UdpAddr, to4, same_ip, ip_equal, same_source, lookup, delete, set, Flows, owner, next_conid,
  allocate_for, allocate_conid, sweep, janitor, idle_timeout,
}

same_source_refl : (a : UdpAddr) → same_source a a ≡ true
unfolding same_source ip_equal
same_source_refl a = elim (Option-cases (to4 a.ip)) [
  | inl e ↦ rw (e, same_ip, text_eq_refl a.ip) (ground arith)
  | inr (b, e) ↦ rw (e, same_ip, text_eq_refl b) (ground arith)
]

pub lookup-set : {A : Type 0} (id : ℕ) (a : A) (m : List (ℕ × A)) → lookup id (set id a m) ≡ some a
unfolding lookup set
lookup-set id a m = ground arith

pub lookup-delete :
    {A : Type 0} (id n : ℕ) (m : List (ℕ × A)) → id ≢ n → lookup id (delete n m) ≡ lookup id m
unfolding lookup delete
lookup-delete id n [] h = refl
lookup-delete id n ((k, a) ∷ m) h = ground (arith, lookup-delete id n m h)

pub lookup-set_other :
    {A : Type 0} (id n : ℕ) (a : A) (m : List (ℕ × A))
    → id ≢ n
    → lookup id (set n a m) ≡ lookup id m
unfolding lookup set
lookup-set_other id n a m h = ground (arith, lookup-delete id n m h)

module _ {A : Type 0} where
  -- No two entries have one identifier.
  abbrev pub DistinctKeys : List (ℕ × A) → Type 0
  DistinctKeys [] = Unit
  DistinctKeys ((n, a) ∷ m) = All (λ c. c.0 ≢ n) m × DistinctKeys m

  delete-All : (P : ℕ × A → Type 0) (id : ℕ) (m : List (ℕ × A)) → All P m → All P (delete id m)
  unfolding delete
  delete-All P id [] h = h
  delete-All P id ((n, a) ∷ m) (h, hs) =
      let k = delete-All P id m hs in if_holds (All P) (n == id) _ _ k (h, k)

  pub delete-absent : (id : ℕ) (m : List (ℕ × A)) → All (λ c. c.0 ≢ id) (delete id m)
  unfolding delete
  delete-absent id [] = tt
  delete-absent id ((n, a) ∷ m) = elim (Bool-cases (n == id)) [
    | inl e ↦ rw e (delete-absent id m)
    | inr e ↦ rw e (ground (arith, ==_iff n id), delete-absent id m)
  ]

  pub delete-DistinctKeys :
      (id : ℕ) (m : List (ℕ × A)) → DistinctKeys m → DistinctKeys (delete id m)
  unfolding delete
  delete-DistinctKeys id [] h = h
  delete-DistinctKeys id ((n, a) ∷ m) (h, hs) =
      let k = delete-DistinctKeys id m hs in
      if_holds DistinctKeys (n == id) _ _ k (delete-All (λ c. c.0 ≢ n) id m h, k)

-- an identifier that a flow may have
abbrev pub InRange : ℕ → Type 0
InRange id = (0 < id) × (id < 65536)

pub record IsValid (s : Flows) : Type 0 where
  pub seq : s.conid_seq < 65536
  pub ranges : All (λ c. InRange c.0) s.src_by_id
  pub distinct : DistinctKeys s.src_by_id

skip_zero-InRange : (n : ℕ) → n < 65536 → InRange (if n == 0 then 1 else n)
skip_zero-InRange n h = (ground arith, ground arith)

next_conid-InRange : (seq : ℕ) → InRange (next_conid seq)
unfolding next_conid
next_conid-InRange seq = skip_zero-InRange ((seq + 1) % 65536) (omega arith)

-- Both of an allocation's ways: the identifier of the source's flow, or the next one.
allocate-IsValid :
    (o : Option ℕ) (src : UdpAddr) (now : ℕ) (s : Flows)
    → IsValid s
    → IsValid (allocate_for o src now s).0
unfolding set
allocate-IsValid (some id) src now s v = record {
  seq = v.seq;
  ranges = v.ranges;
  distinct = v.distinct;
}
allocate-IsValid none src now s v =
    let id = next_conid s.conid_seq in
    let r = next_conid-InRange s.conid_seq in
    record {
      seq = r.1;
      ranges = (r, delete-All (λ c. InRange c.0) id s.src_by_id v.ranges);
      distinct = (delete-absent id s.src_by_id, delete-DistinctKeys id s.src_by_id v.distinct);
    }

-- Allocating an identifier, for a known or for a new source and also when the counter wraps around,
-- keeps the flows valid: identifiers are from 1 to 65535, and no two flows have the same one.
pub allocate_conid-IsValid :
    (src : UdpAddr) (now : ℕ) (s : Flows) → IsValid s → IsValid (allocate_conid src now s).0
unfolding allocate_conid
allocate_conid-IsValid src now s v = allocate-IsValid (owner src s.src_by_id) src now s v

sweep-IsValid : (now : ℕ) (m : List (ℕ × ℕ)) (s : Flows) → IsValid s → IsValid (sweep now m s)
unfolding sweep
sweep-IsValid now [] s v = v
sweep-IsValid now ((id, seen) ∷ m) s v = sweep-IsValid now m _ (
    if_holds IsValid (ltb (seen + idle_timeout) now) _ _
      (record {
        seq = v.seq;
        ranges = delete-All (λ c. InRange c.0) id s.src_by_id v.ranges;
        distinct = delete-DistinctKeys id s.src_by_id v.distinct;
      })
      v)

pub janitor-IsValid : (now : ℕ) (s : Flows) → IsValid s → IsValid (janitor now s)
unfolding janitor
janitor-IsValid now s v = sweep-IsValid now s.idle_by_id s v

absent-lookup :
    {A : Type 0} (id n : ℕ) (m : List (ℕ × A)) (a : A)
    → All (λ c. c.0 ≢ n) m
    → lookup id m ≡ some a
    → n ≢ id
unfolding lookup
absent-lookup id n [] a h e = cc
absent-lookup id n ((k, b) ∷ m) a (h, hs) e = elim (Bool-cases (k == id)) [
  | inl q ↦ ground (arith, ==_iff k id)
  | inr q ↦ absent-lookup id n m a hs (ground arith)
]

-- What `owner` finds is what a reply with the identifier is sent to.
owner-lookup :
    (src : UdpAddr) (m : List (ℕ × UdpAddr)) (id : ℕ)
    → DistinctKeys m
    → owner src m ≡ some id
    → (a : UdpAddr) × (lookup id m ≡ some a) × (same_source a src ≡ true)
unfolding owner lookup
owner-lookup src [] id d e = cc
owner-lookup src ((n, a) ∷ m) id (d, ds) e = elim (Bool-cases (same_source a src)) [
  | inl q ↦ (a, ground arith, q)
  | inr q ↦
      let (b, found, same) = owner-lookup src m id ds (ground arith) in
      (b, ground (arith, absent-lookup id n m b d found), same)
]

-- the address that a reply with the allocated identifier is sent to
abbrev pub Replies : UdpAddr → Flows × ℕ → Type 0
Replies src r = (a : UdpAddr) × (lookup r.1 r.0.src_by_id ≡ some a) × (same_source a src ≡ true)

allocate-Replies :
    (o : Option ℕ) (src : UdpAddr) (now : ℕ) (s : Flows)
    → DistinctKeys s.src_by_id
    → owner src s.src_by_id ≡ o
    → Replies src (allocate_for o src now s)
allocate-Replies (some id) src now s d e = owner-lookup src s.src_by_id id d e
allocate-Replies none src now s d e =
    (src, lookup-set (next_conid s.conid_seq) src s.src_by_id, same_source_refl src)

-- In valid flows, a reply with the identifier that a packet was given is sent to the packet's source.
pub allocate_conid-Replies :
    (src : UdpAddr) (now : ℕ) (s : Flows) → IsValid s → Replies src (allocate_conid src now s)
unfolding allocate_conid
allocate_conid-Replies src now s v =
    allocate-Replies (owner src s.src_by_id) src now s v.distinct refl

kept_by :
    (o : Option ℕ) (src : UdpAddr) (now : ℕ) (s : Flows) (id : ℕ)
    → id ≢ (allocate_for o src now s).1
    → lookup id (allocate_for o src now s).0.src_by_id ≡ lookup id s.src_by_id
kept_by (some n) src now s id h = refl
kept_by none src now s id h = lookup-set_other id (next_conid s.conid_seq) src s.src_by_id h

owner_of_new :
    (o : Option ℕ) (src : UdpAddr) (now : ℕ) (s : Flows)
    → owner src s.src_by_id ≡ o
    → owner src (allocate_for o src now s).0.src_by_id ≡ some (allocate_for o src now s).1
unfolding owner set
owner_of_new (some n) src now s h = h
owner_of_new none src now s h = rw (same_source_refl src)

-- A source keeps its identifier: a second packet of the same source is given the identifier of the
-- first, and neither changes the source of any other identifier.
pub allocate_conid_stable :
    (src : UdpAddr) (now later : ℕ) (s : Flows) (id : ℕ)
    → id ≢ (allocate_conid src now s).1
    → ((allocate_conid src later (allocate_conid src now s).0).1 ≡ (allocate_conid src now s).1)
      × (lookup id (allocate_conid src later (allocate_conid src now s).0).0.src_by_id
          ≡ lookup id s.src_by_id)
unfolding allocate_conid
allocate_conid_stable src now later s id h =
    let o = owner src s.src_by_id in
    let e = owner_of_new o src now s refl in (rw e, rw e (kept_by o src now s id h))

lookup-All :
    {A : Type 0} (P : ℕ → Type 0) (id : ℕ) (m : List (ℕ × A)) (a : A)
    → All (λ c. P c.0) m
    → lookup id m ≡ some a
    → P id
unfolding lookup
lookup-All P id [] a h e = cc
lookup-All P id ((n, b) ∷ m) a (h, hs) e = elim (Bool-cases (n == id)) [
  | inl q ↦ subst P ((==_iff n id).0 q) h
  | inr q ↦ lookup-All P id m a hs (ground arith)
]

-- The identifier that is given out is from 1 to 65535.
pub allocate_conid-InRange :
    (src : UdpAddr) (now : ℕ) (s : Flows) → IsValid s → InRange (allocate_conid src now s).1
allocate_conid-InRange src now s v =
    let (a, found, same) = allocate_conid-Replies src now s v in
    lookup-All InRange _ _ a (allocate_conid-IsValid src now s v).ranges found
