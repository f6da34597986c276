-- ===== src/Udpgw/Janitor.antt =====
-- internal/udpgw/udpgw.go: what the janitor forgets.
use mathlib.Core.Path.{subst}
use ssc.Base.{
  ◌||◌, ℕ, ◌+◌, ◌≡◌, ◌≢◌, refl, ap, ◌∙◌, Bool, true, false, List, [], ◌∷◌, Option, none, some, ◌==◌,
  ltb, All, arith, if◌then◌else◌, ==_iff, if_decided,
}
use ssc.Udpgw.{lookup, delete, Flows, sweep, janitor, idle_timeout}
use ssc.Udpgw.Allocation.{DistinctKeys, lookup-delete, delete-absent}

-- whether a flow that was last used at a time is idle for too long
abbrev pub is_expired : ℕ → Option ℕ → Bool
is_expired now none = false
is_expired now (some seen) = ltb (seen + idle_timeout) now

lookup-absent :
    {A : Type 0} (id : ℕ) (m : List (ℕ × A)) → All (λ c. c.0 ≢ id) m → lookup id m ≡ none
unfolding lookup
lookup-absent id [] h = refl
lookup-absent id ((n, a) ∷ m) (h, hs) = ground (arith, ==_iff n id, lookup-absent id m hs)

lookup-delete_self : {A : Type 0} (id : ℕ) (m : List (ℕ × A)) → lookup id (delete id m) ≡ none
lookup-delete_self id m = lookup-absent id (delete id m) (delete-absent id m)

-- what is left of an entry after a sweep
abbrev pub left_of : {A : Type 0} → Bool → Option A → Option A
left_of true o = none
left_of false o = o

left_of-none : {A : Type 0} (b : Bool) → left_of {A = A} b none ≡ none
left_of-none true = refl
left_of-none false = refl

abbrev swept : ℕ → ℕ → ℕ → Flows → Flows
swept now id seen s =
    if ltb (seen + idle_timeout) now
    then record s { src_by_id = delete id s.src_by_id; idle_by_id = delete id s.idle_by_id }
    else s

-- what both maps show of an identifier, after a sweep of some flows, against that before
abbrev Left : ℕ → Bool → Flows → Flows → Type 0
Left id gone s t =
    (lookup id t.src_by_id ≡ left_of gone (lookup id s.src_by_id))
    × (lookup id t.idle_by_id ≡ left_of gone (lookup id s.idle_by_id))

swept-Left_self :
    (now id seen : ℕ) (s : Flows) → Left id (ltb (seen + idle_timeout) now) s (swept now id seen s)
swept-Left_self now id seen s = by_test (ltb (seen + idle_timeout) now)
  where
    by_test :
        (b : Bool)
        → Left id b s (
            if b
            then record s { src_by_id = delete id s.src_by_id; idle_by_id = delete id s.idle_by_id }
            else s)
    by_test true = (lookup-delete_self id s.src_by_id, lookup-delete_self id s.idle_by_id)
    by_test false = (refl, refl)

swept-Left_other : (now id n seen : ℕ) (s : Flows) → id ≢ n → Left id false s (swept now n seen s)
swept-Left_other now id n seen s h =
    if_decided (Left id false s) (ltb (seen + idle_timeout) now) _ _
      (λ e. (lookup-delete id n s.src_by_id h, lookup-delete id n s.idle_by_id h))
      (λ e. (refl, refl))

left_of-or : {A : Type 0} (a b : Bool) (o : Option A) → left_of b (left_of a o) ≡ left_of (a || b) o
left_of-or true b o = left_of-none b
left_of-or false b o = refl

Left-trans :
    (id : ℕ) (a b c : Bool) (s t u : Flows)
    → Left id a s t
    → Left id b t u
    → (a || b) ≡ c
    → Left id c s u
Left-trans id a b c s t u (h, k) (l, m) e = (
  l
      ∙ ap (left_of b) h
      ∙ left_of-or a b (lookup id s.src_by_id)
      ∙ ap (λ x. left_of x (lookup id s.src_by_id)) e,
  m
      ∙ ap (left_of b) k
      ∙ left_of-or a b (lookup id s.idle_by_id)
      ∙ ap (λ x. left_of x (lookup id s.idle_by_id)) e,
)

or_false : (a b : Bool) → b ≡ false → (a || b) ≡ a
or_false true b h = refl
or_false false b h = h

sweep-Left :
    (now id : ℕ) (m : List (ℕ × ℕ)) (s : Flows)
    → DistinctKeys m
    → Left id (is_expired now (lookup id m)) s (sweep now m s)
unfolding sweep lookup
sweep-Left now id [] s d = (refl, refl)
sweep-Left now id ((n, seen) ∷ m) s (d, ds) =
    let t = swept now n seen s in
    let rest = sweep-Left now id m t ds in
    let old : Bool = ltb (seen + idle_timeout) now in
    let later : Bool = is_expired now (lookup id m) in
    if_decided (λ o. Left id (is_expired now o) s (sweep now m t)) (n == id) (some seen)
      (lookup id m)
      (λ e.
        let q : n ≡ id = (==_iff n id).0 e in
        let none_later : later ≡ false =
          ap (is_expired now) (lookup-absent id m (subst (λ x. All (λ c. c.0 ≢ x) m) q d)) in
        Left-trans id old later old s t (sweep now m t)
          (subst (λ x. Left x old s (swept now n seen s)) q (swept-Left_self now n seen s)) rest
          (or_false old later none_later))
      (λ e.
        let d : id ≢ n = ground (arith, ==_iff n id, e) in
        Left-trans id false later later s t (sweep now m t) (swept-Left_other now id n seen s d)
          rest refl)

-- A round of the janitor forgets, in both maps, exactly the flows that were not used for more than two
-- minutes, and leaves the others as they are.
pub janitor-left_of :
    (now id : ℕ) (s : Flows)
    → DistinctKeys s.idle_by_id
    → (lookup id (janitor now s).src_by_id
        ≡ left_of (is_expired now (lookup id s.idle_by_id)) (lookup id s.src_by_id))
      × (lookup id (janitor now s).idle_by_id
          ≡ left_of (is_expired now (lookup id s.idle_by_id)) (lookup id s.idle_by_id))
unfolding janitor
janitor-left_of now id s d = sweep-Left now id s.idle_by_id s d
