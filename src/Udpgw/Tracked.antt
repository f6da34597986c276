-- ===== src/Udpgw/Tracked.antt =====
-- internal/udpgw/udpgw.go: the loops of the gateway share the flows under a mutex; what they keep in
-- whatever order they come to change them.
use mathlib.Core.Path.{subst}
use ssc.Base.{
  ℕ, ◌+◌, ◌≡◌, refl, Bool, true, false, List, [], ◌∷◌, Option, none, some, ◌==◌, ltb, arith,
  if◌then◌else◌, if_holds, if_decided, ==_iff,
}
use ssc.Udpgw.{
  UdpAddr, lookup, set, Flows, touch, allocate_for, allocate_conid, owner, next_conid, janitor,
  sweep, idle_timeout,
}
use ssc.Udpgw.Allocation.{
  IsValid, DistinctKeys, allocate_conid-IsValid, janitor-IsValid, delete-absent,
  delete-DistinctKeys, lookup-set, lookup-set_other,
}
use ssc.Udpgw.Janitor.{is_expired, left_of, janitor-left_of}

-- The uses of identifiers with their times, the last one first.
abbrev pub Uses : Type 0
Uses = List (ℕ × ℕ)

-- One change of the flows, with the uses so far: a packet is given its identifier, a packet is written
-- or a reply is read, or the janitor makes a round.
pub data Step : Flows × Uses → Flows × Uses → Type 0 where
  allocates :
      (src : UdpAddr) (now : ℕ) (s : Flows) (uses : Uses)
      → Step (s, uses) ((allocate_conid src now s).0, ((allocate_conid src now s).1, now) ∷ uses)
  touches :
      (id now : ℕ) (s : Flows) (uses : Uses) → Step (s, uses) (touch id now s, (id, now) ∷ uses)
  sweeps : (now : ℕ) (s : Flows) (uses : Uses) → Step (s, uses) (janitor now s, uses)

pub data Reach (s : Flows × Uses) : Flows × Uses → Type 0 where
  here : Reach s s
  next : (t u : Flows × Uses) → Reach s t → Step t u → Reach s u

abbrev pub no_flows : Flows
no_flows = record { conid_seq = 0; src_by_id = []; idle_by_id = [] }

-- If there is a source, then there is a time, and it is that of the last use.
abbrev pub Covers : Option UdpAddr → Option ℕ → Option ℕ → Type 0
Covers none t u = Unit
Covers (some a) t u = (n : ℕ) × (t ≡ some n) × (u ≡ some n)

pub record IsTracked (s : Flows) (uses : Uses) : Type 0 where
  pub valid : IsValid s
  pub distinct_times : DistinctKeys s.idle_by_id
  pub timed : (id : ℕ) → Covers (lookup id s.src_by_id) (lookup id s.idle_by_id) (lookup id uses)

pub set-DistinctKeys :
    {A : Type 0} (id : ℕ) (a : A) (m : List (ℕ × A)) → DistinctKeys m → DistinctKeys (set id a m)
unfolding set
set-DistinctKeys id a m d = (delete-absent id m, delete-DistinctKeys id m d)

lookup-set_if :
    {A : Type 0} (id n : ℕ) (a : A) (m : List (ℕ × A))
    → lookup id (set n a m) ≡ (if n == id then some a else lookup id m)
lookup-set_if id n a m =
    if_decided (λ o. lookup id (set n a m) ≡ o) (n == id) (some a) (lookup id m)
      (λ e. subst (λ k. lookup k (set n a m) ≡ some a) ((==_iff n id).0 e) (lookup-set n a m))
      (λ e. lookup-set_other id n a m (ground (arith, ==_iff n id, e)))

-- a use of a flow, which may be new
used-Covers :
    (b : Bool) (now : ℕ) (o : Option UdpAddr) (t u : Option ℕ)
    → Covers o t u
    → Covers o (if b then some now else t) (if b then some now else u)
used-Covers b now none t u h = tt
used-Covers true now (some a) t u h = (now, refl, refl)
used-Covers false now (some a) t u h = h

added-Covers :
    (b : Bool) (a : UdpAddr) (now : ℕ) (o : Option UdpAddr) (t u : Option ℕ)
    → Covers o t u
    → Covers (if b then some a else o) (if b then some now else t) (if b then some now else u)
added-Covers true a now o t u h = (now, refl, refl)
added-Covers false a now o t u h = h

touch-Covers :
    (id n now : ℕ) (s : Flows) (uses : Uses)
    → Covers (lookup id s.src_by_id) (lookup id s.idle_by_id) (lookup id uses)
    → Covers
        (lookup id s.src_by_id)
        (lookup id (set n now s.idle_by_id))
        (lookup id ((n, now) ∷ uses))
unfolding lookup
touch-Covers id n now s uses h =
    rw (lookup-set_if id n now s.idle_by_id) (used-Covers (n == id) now _ _ _ h)

touch-IsTracked :
    (id now : ℕ) (s : Flows) (uses : Uses)
    → IsTracked s uses
    → IsTracked (touch id now s) ((id, now) ∷ uses)
touch-IsTracked id now s uses h = record {
  valid = record { seq = h.valid.seq; ranges = h.valid.ranges; distinct = h.valid.distinct };
  distinct_times = set-DistinctKeys id now s.idle_by_id h.distinct_times;
  timed = λ k. touch-Covers k id now s uses (h.timed k);
}

new_flow-Covers :
    (id n : ℕ) (src : UdpAddr) (now : ℕ) (s : Flows) (uses : Uses)
    → Covers (lookup id s.src_by_id) (lookup id s.idle_by_id) (lookup id uses)
    → Covers
        (lookup id (set n src s.src_by_id))
        (lookup id (set n now s.idle_by_id))
        (lookup id ((n, now) ∷ uses))
unfolding lookup
new_flow-Covers id n src now s uses h =
    rw (lookup-set_if id n src s.src_by_id, lookup-set_if id n now s.idle_by_id)
      (added-Covers (n == id) src now _ _ _ h)

allocate-timed :
    (o : Option ℕ) (src : UdpAddr) (now : ℕ) (s : Flows) (uses : Uses)
    → IsTracked s uses
    → DistinctKeys (allocate_for o src now s).0.idle_by_id
      × ((id : ℕ)
          → Covers
              (lookup id (allocate_for o src now s).0.src_by_id)
              (lookup id (allocate_for o src now s).0.idle_by_id)
              (lookup id (((allocate_for o src now s).1, now) ∷ uses)))
allocate-timed (some n) src now s uses h = (
  set-DistinctKeys n now s.idle_by_id h.distinct_times,
  λ id. touch-Covers id n now s uses (h.timed id),
)
allocate-timed none src now s uses h =
    let n = next_conid s.conid_seq in
    (
      set-DistinctKeys n now s.idle_by_id h.distinct_times,
      λ id. new_flow-Covers id n src now s uses (h.timed id),
    )

allocate_conid-IsTracked :
    (src : UdpAddr) (now : ℕ) (s : Flows) (uses : Uses)
    → IsTracked s uses
    → IsTracked (allocate_conid src now s).0 (((allocate_conid src now s).1, now) ∷ uses)
unfolding allocate_conid
allocate_conid-IsTracked src now s uses h =
    let (d, t) = allocate-timed (owner src s.src_by_id) src now s uses h in
    record { valid = allocate_conid-IsValid src now s h.valid; distinct_times = d; timed = t }

left-Covers :
    (b : Bool) (o : Option UdpAddr) (t u : Option ℕ)
    → Covers o t u
    → Covers (left_of b o) (left_of b t) u
left-Covers true o t u h = tt
left-Covers false o t u h = h

pub sweep-DistinctKeys :
    (now : ℕ) (m : List (ℕ × ℕ)) (s : Flows)
    → DistinctKeys s.idle_by_id
    → DistinctKeys (sweep now m s).idle_by_id
unfolding sweep
sweep-DistinctKeys now [] s d = d
sweep-DistinctKeys now ((id, seen) ∷ m) s d = sweep-DistinctKeys now m _ (
    if_holds (λ (t : Flows). DistinctKeys t.idle_by_id) (ltb (seen + idle_timeout) now) _ _
      (delete-DistinctKeys id s.idle_by_id d) d)

janitor-IsTracked :
    (now : ℕ) (s : Flows) (uses : Uses) → IsTracked s uses → IsTracked (janitor now s) uses
unfolding janitor
janitor-IsTracked now s uses h = record {
  valid = janitor-IsValid now s h.valid;
  distinct_times = sweep-DistinctKeys now s.idle_by_id s h.distinct_times;
  timed = λ id.
      let (a, b) = janitor-left_of now id s h.distinct_times in
      rw (a, b) (left-Covers (is_expired now (lookup id s.idle_by_id)) _ _ _ (h.timed id));
}

abbrev IsTrackedAt : Flows × Uses → Type 0
IsTrackedAt s = IsTracked s.0 s.1

Step-IsTracked : {s t : Flows × Uses} → Step s t → IsTrackedAt s → IsTrackedAt t
Step-IsTracked (allocates src now s uses) h = allocate_conid-IsTracked src now s uses h
Step-IsTracked (touches id now s uses) h = touch-IsTracked id now s uses h
Step-IsTracked (sweeps now s uses) h = janitor-IsTracked now s uses h

no_flows-IsTracked : IsTracked no_flows []
unfolding lookup
no_flows-IsTracked = record {
  valid = record { seq = omega arith; ranges = tt; distinct = tt };
  distinct_times = tt;
  timed = λ id. tt;
}

-- In whatever order packets, replies and rounds of the janitor come, identifiers are from 1 to 65535,
-- and every flow has a time by which the janitor forgets it, which is exactly that of its last use: of
-- the last packet given its identifier, written under it, or read for it.
pub Reach-IsTracked : {s : Flows} {uses : Uses} → Reach (no_flows, []) (s, uses) → IsTracked s uses
Reach-IsTracked r = follow r
  where
    follow : {t : Flows × Uses} → Reach (no_flows, []) t → IsTrackedAt t
    follow here = no_flows-IsTracked
    follow (next t u r m) = Step-IsTracked m (follow r)
