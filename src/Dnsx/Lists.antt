-- ===== src/Dnsx/Lists.antt =====
-- internal/dnsx/dnsx.go: the lists of servers and addresses have no duplicates, and rotating one
-- keeps what is in it.
use mathlib.Core.Path.{sym}
use mathlib.Core.Path.{subst}
use mathlib.Core.List.{Perm, perm_middle}
use mathlib.Core.List.Perm
use ssc.Base.{
  append-nil, if_holds, leb, length, ◌%◌, ℕ, take, take-append-drop, ◌≡◌, ◌≢◌, refl, Bool, true,
  false, List, [], ◌∷◌, ◌++◌, Option, none, some, if◌then◌else◌, Bytes, is_empty, ◌||◌, text_eq_iff,
  one_of, All, All-append, trim_space, arith, Bool-cases, inl, inr,
}
use ssc.Dnsx.{
  Splits, with_port, servers_from, normalize_servers, append_unique, ParseIpv4, keep_parsed,
  sanitize_from, rotate_ips,
}

-- no text stands in the list twice
abbrev pub IsDistinct : List Bytes → Type 0
IsDistinct [] = Unit
IsDistinct (s ∷ l) = All (λ t. t ≢ s) l × IsDistinct l

abbrev Unseen : List Bytes → List Bytes → Type 0
Unseen seen l = All (λ t. one_of t seen ≡ false) l × IsDistinct l

unseen_split :
    (s t : Bytes) (seen : List Bytes)
    → one_of t (s ∷ seen) ≡ false
    → (t ≢ s) × (one_of t seen ≡ false)
unfolding one_of
unseen_split s t seen h = (ground (arith, text_eq_iff t s), ground arith)

All-unseen :
    (s : Bytes) (seen l : List Bytes)
    → All (λ t. one_of t (s ∷ seen) ≡ false) l
    → All (λ t. t ≢ s) l × All (λ t. one_of t seen ≡ false) l
All-unseen s seen [] h = (tt, tt)
All-unseen s seen (t ∷ l) (h, hs) =
    let (a, b) = unseen_split s t seen h in
    let (others, fresh) = All-unseen s seen l hs in ((a, others), (b, fresh))

if-Unseen :
    (seen : List Bytes) (skip : Bool) (s : Bytes) (skipped added : List Bytes)
    → (skip ≡ false → one_of s seen ≡ false)
    → Unseen seen skipped
    → Unseen (s ∷ seen) added
    → Unseen seen (if skip then skipped else s ∷ added)
if-Unseen seen true s skipped added f h k = h
if-Unseen seen false s skipped added f h (k, d) =
    let (other, fresh) = All-unseen s seen added k in ((f refl, fresh), (other, d))

or_right : (a b : Bool) → (a || b) ≡ false → b ≡ false
or_right false b h = h
or_right true b h = cc

servers_from-Unseen :
    (splits : Splits) (xs seen : List Bytes) → Unseen seen (servers_from splits xs seen)
unfolding servers_from
servers_from-Unseen splits [] seen = (tt, tt)
servers_from-Unseen splits (x ∷ xs) seen =
    let s = with_port splits (trim_space x) in
    if-Unseen seen (is_empty (trim_space x) || one_of s seen) s (servers_from splits xs seen)
      (servers_from splits xs (s ∷ seen)) (or_right (is_empty (trim_space x)) (one_of s seen))
      (servers_from-Unseen splits xs seen) (servers_from-Unseen splits xs (s ∷ seen))

-- No server stands twice in a normalised list, also if it was written once with its port and once
-- without.
pub normalize_servers-IsDistinct :
    (splits : Splits) (xs : List Bytes) → IsDistinct (normalize_servers splits xs)
unfolding normalize_servers
normalize_servers-IsDistinct splits xs = (servers_from-Unseen splits xs []).1

one_of-All : (v : Bytes) (xs : List Bytes) → one_of v xs ≡ false → All (λ t. t ≢ v) xs
unfolding one_of
one_of-All v [] h = tt
one_of-All v (x ∷ xs) h = (ground (arith, text_eq_iff v x), one_of-All v xs (ground arith))

append-IsDistinct :
    (xs : List Bytes) (v : Bytes) → IsDistinct xs → All (λ t. t ≢ v) xs → IsDistinct (xs ++ v ∷ [])
append-IsDistinct [] v h k = (tt, tt)
append-IsDistinct (x ∷ xs) v (h, d) (k, ks) =
    (All-append (λ t. t ≢ x) xs (v ∷ []) h ((λ e. k (sym e)), tt), append-IsDistinct xs v d ks)

pub append_unique-IsDistinct :
    (xs : List Bytes) (v : Bytes) → IsDistinct xs → IsDistinct (append_unique xs v)
unfolding append_unique
append_unique-IsDistinct xs v h = elim (Bool-cases (one_of v xs)) [
  | inl e ↦ rw e h
  | inr e ↦ rw e (append-IsDistinct xs v h (one_of-All v xs e))
]

sanitize_from-IsDistinct :
    (parse : ParseIpv4) (ss out : List Bytes)
    → IsDistinct out
    → IsDistinct (sanitize_from parse ss out)
unfolding sanitize_from
sanitize_from-IsDistinct parse [] out h = h
sanitize_from-IsDistinct parse (s ∷ ss) out h =
    sanitize_from-IsDistinct parse ss (keep_parsed (parse (trim_space s)) out)
      (kept (parse (trim_space s)))
  where
    kept : (o : Option Bytes) → IsDistinct (keep_parsed o out)
    kept none = h
    kept (some ip) = append_unique-IsDistinct out ip h

-- Rotating keeps every address, and each as often.
pub rotate_ips-Perm : (nanos : ℕ) (xs : List Bytes) → Perm (rotate_ips nanos xs) xs
unfolding rotate_ips
rotate_ips-Perm nanos xs =
    if_holds (λ ys. Perm ys xs) (leb (length xs) 1) _ _ (Perm.refl xs)
      (subst (Perm _) (take-append-drop (nanos % length xs) xs)
        (swapped (take (nanos % length xs) xs) _))
  where
    swapped : (as_ bs : List Bytes) → Perm (bs ++ as_) (as_ ++ bs)
    swapped [] bs = subst (λ ys. Perm ys bs) (sym (append-nil bs)) (Perm.refl bs)
    swapped (a ∷ as_) bs = Perm.trans (perm_middle bs as_) (Perm.cons a (swapped as_ bs))
