-- ===== src/Api/Notify.antt =====
-- internal/api/api.go: `Subscribe`, its clean-up, and `broadcast`, which tells the subscribers of a
-- change. A channel with room for one message is its number and whether a message is in it.
use ssc.Base.{
  ◌≡◌, ◌≢◌, ◌<◌, refl, Bool, true, false, ℕ, suc, List, [], ◌∷◌, ◌++◌, if◌then◌else◌, ◌==◌, All,
  arith,
}

pub record Subs : Type 0 where
  pub next : ℕ
  pub subs : List (ℕ × Bool)

-- `Subscribe`: a new channel, numbered `next`
unfoldable pub subscribe : Subs → Subs
subscribe s = record { next = suc s.next; subs = s.subs ++ (s.next, false) ∷ [] }

unfoldable pub without : ℕ → List (ℕ × Bool) → List (ℕ × Bool)
without id [] = []
without id ((n, b) ∷ subs) = if n == id then subs else (n, b) ∷ without id subs

-- the clean-up that `Subscribe` returns
unfoldable pub cleanup : ℕ → Subs → Subs
unfolding without
cleanup id s = record s { subs = without id s.subs }

unfoldable pub filled : List (ℕ × Bool) → List (ℕ × Bool)
filled [] = []
filled ((n, b) ∷ subs) = (n, true) ∷ filled subs

-- `broadcast`: a send to a channel that is full does nothing
unfoldable pub broadcast : Subs → Subs
unfolding filled
broadcast s = record s { subs = filled s.subs }

unfoldable pub emptied : ℕ → List (ℕ × Bool) → List (ℕ × Bool)
emptied id [] = []
emptied id ((n, b) ∷ subs) = if n == id then (n, false) ∷ subs else (n, b) ∷ emptied id subs

-- a receive from the channel
unfoldable pub receive : ℕ → Subs → Subs
unfolding emptied
receive id s = record s { subs = emptied id s.subs }

unfoldable pub pending_in : ℕ → List (ℕ × Bool) → Bool
pending_in id [] = false
pending_in id ((n, b) ∷ subs) = if n == id then b else pending_in id subs

-- whether a message waits in the channel
abbrev pub pending : ℕ → Subs → Bool
pending id s = pending_in id s.subs

unfoldable pub listed : ℕ → List (ℕ × Bool) → Bool
listed id [] = false
listed id ((n, b) ∷ subs) = if n == id then true else listed id subs

pub data Op : Type 0 where
  subscribes broadcasts : Op
  cleans receives : ℕ → Op

abbrev pub step : Op → Subs → Subs
step subscribes s = subscribe s
step broadcasts s = broadcast s
step (cleans id) s = cleanup id s
step (receives id) s = receive id s

abbrev pub run : List Op → Subs → Subs
run [] s = s
run (o ∷ ops) s = run ops (step o s)

-- The operation is not the one by which channel `id` is read or given up.
abbrev pub Spares : ℕ → Op → Type 0
Spares id (cleans n) = n ≢ id
Spares id (receives n) = n ≢ id
Spares id _ = Unit

pub pending-filled : (id : ℕ) (l : List (ℕ × Bool)) → pending_in id (filled l) ≡ listed id l
unfolding pending_in filled listed
pending-filled id [] = refl
pending-filled id ((n, b) ∷ l) = ground (arith, pending-filled id l)

pending-append :
    (id n : ℕ) (l : List (ℕ × Bool))
    → pending_in id l ≡ true
    → pending_in id (l ++ (n, false) ∷ []) ≡ true
unfolding pending_in
pending-append id n [] h = cc
pending-append id n ((m, b) ∷ l) h = ground (arith, pending-append id n l)

pending-without :
    (id n : ℕ) (l : List (ℕ × Bool))
    → n ≢ id
    → pending_in id l ≡ true
    → pending_in id (without n l) ≡ true
unfolding pending_in without
pending-without id n [] k h = h
pending-without id n ((m, b) ∷ l) k h = ground (arith, pending-without id n l)

pending-emptied :
    (id n : ℕ) (l : List (ℕ × Bool))
    → n ≢ id
    → pending_in id l ≡ true
    → pending_in id (emptied n l) ≡ true
unfolding pending_in emptied
pending-emptied id n [] k h = h
pending-emptied id n ((m, b) ∷ l) k h = ground (arith, pending-emptied id n l)

filled-listed :
    (id : ℕ) (l : List (ℕ × Bool)) → pending_in id l ≡ true → pending_in id (filled l) ≡ true
unfolding pending_in filled
filled-listed id [] h = h
filled-listed id ((n, b) ∷ l) h = ground (arith, filled-listed id l)

pub pending-step :
    (id : ℕ) (o : Op) (s : Subs) → Spares id o → pending id s ≡ true → pending id (step o s) ≡ true
unfolding subscribe broadcast cleanup receive
pending-step id subscribes s k h = pending-append id s.next s.subs h
pending-step id broadcasts s k h = filled-listed id s.subs h
pending-step id (cleans n) s k h = pending-without id n s.subs k h
pending-step id (receives n) s k h = pending-emptied id n s.subs k h

pending-run :
    (id : ℕ) (ops : List Op) (s : Subs)
    → All (Spares id) ops
    → pending id s ≡ true
    → pending id (run ops s) ≡ true
pending-run id [] s k h = h
pending-run id (o ∷ ops) s (k, ks) h = pending-run id ops (step o s) ks (pending-step id o s k h)

-- No subscriber misses a change: if the channel is subscribed when a change is broadcast, then a
-- message waits in it after any operations of the other subscribers, until it is read or given up.
pub broadcast-reaches :
    (id : ℕ) (s : Subs) (ops : List Op)
    → listed id s.subs ≡ true
    → All (Spares id) ops
    → pending id (run ops (broadcast s)) ≡ true
unfolding broadcast
broadcast-reaches id s ops h k =
    pending-run id ops (broadcast s) k (rw (pending-filled id s.subs) h)

without-fresh :
    (n : ℕ) (l : List (ℕ × Bool)) → All (λ c. c.0 < n) l → without n (l ++ (n, false) ∷ []) ≡ l
unfolding without
without-fresh n [] h = ground arith
without-fresh n ((m, b) ∷ l) (h, hs) = ground (arith, without-fresh n l hs)

-- While the channels' numbers are below the next one, the clean-up of a new subscription leaves
-- the subscribers as they were before it, in their order.
pub cleanup-subscribe :
    (s : Subs) → All (λ c. c.0 < s.next) s.subs → (cleanup s.next (subscribe s)).subs ≡ s.subs
unfolding cleanup subscribe
cleanup-subscribe s h = without-fresh s.next s.subs h
