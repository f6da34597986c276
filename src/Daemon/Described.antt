-- ===== src/Daemon/Described.antt =====
-- cmd/sshcustomd/main.go: a later description of the module replaces an earlier one.
use ssc.Base.{
  ℕ, ◌≡◌, refl, ap, ◌∙◌, Bool, true, false, List, [], ◌∷◌, ◌++◌, Bytes, codes, if◌then◌else◌,
  if_holds, if_decided, ◌==◌, has_prefix,
}
use ssc.Daemon.ModuleProp.{split_newline, onto_first, join_newline, desc_of, set_desc, with_status}

-- The text is one line.
abbrev is_line : Bytes → Bool
is_line [] = true
is_line (c ∷ s) = let rest = is_line s in if c == b'\n' then false else rest

-- There is at least one line, and each is one.
abbrev AreLines : List Bytes → Type 0
AreLines [] = ⊥
AreLines (l ∷ []) = is_line l ≡ true
AreLines (l ∷ m ∷ lines) = (is_line l ≡ true) × AreLines (m ∷ lines)

split_newline-line : (l : Bytes) → is_line l ≡ true → split_newline l ≡ l ∷ []
unfolding split_newline
split_newline-line [] h = refl
split_newline-line (c ∷ l) h = by_test (c == b'\n') h (split_newline-line l)
  where
    by_test :
        (b : Bool)
        → (if b then false else is_line l) ≡ true
        → (is_line l ≡ true → split_newline l ≡ l ∷ [])
        → (if b then [] ∷ split_newline l else onto_first c (split_newline l)) ≡ (c ∷ l) ∷ []
    by_test true k f = absurd (cc)
    by_test false k f = ap (onto_first c) (f k)

split_newline-append :
    (l s : Bytes) → is_line l ≡ true → split_newline (l ++ b'\n' ∷ s) ≡ l ∷ split_newline s
unfolding split_newline
split_newline-append [] s h = refl
split_newline-append (c ∷ l) s h = by_test (c == b'\n') h (split_newline-append l s)
  where
    by_test :
        (b : Bool)
        → (if b then false else is_line l) ≡ true
        → (is_line l ≡ true → split_newline (l ++ b'\n' ∷ s) ≡ l ∷ split_newline s)
        → (if b
            then [] ∷ split_newline (l ++ b'\n' ∷ s)
            else onto_first c (split_newline (l ++ b'\n' ∷ s)))
          ≡ (c ∷ l) ∷ split_newline s
    by_test true k f = absurd (cc)
    by_test false k f = ap (onto_first c) (f k)

split_newline-join_newline :
    (lines : List Bytes) → AreLines lines → split_newline (join_newline lines) ≡ lines
unfolding join_newline
split_newline-join_newline [] h = absurd h
split_newline-join_newline (l ∷ []) h = split_newline-line l h
split_newline-join_newline (l ∷ m ∷ lines) (h, hs) =
    split_newline-append l (join_newline (m ∷ lines)) h
    ∙ ap (λ r. l ∷ r) (split_newline-join_newline (m ∷ lines) hs)

cons-is_line :
    (c : ℕ) (l : Bytes) → (c == b'\n') ≡ false → is_line l ≡ true → is_line (c ∷ l) ≡ true
cons-is_line c l h k = ap (λ b. if b then false else is_line l) h ∙ k

onto_first-AreLines :
    (c : ℕ) (lines : List Bytes)
    → (c == b'\n') ≡ false
    → AreLines lines
    → AreLines (onto_first c lines)
onto_first-AreLines c [] h k = absurd k
onto_first-AreLines c (l ∷ []) h k = cons-is_line c l h k
onto_first-AreLines c (l ∷ m ∷ lines) h (k, ks) = (cons-is_line c l h k, ks)

consed-AreLines : (lines : List Bytes) → AreLines lines → AreLines ([] ∷ lines)
consed-AreLines [] k = absurd k
consed-AreLines (l ∷ lines) k = (refl, k)

split_newline-AreLines : (s : Bytes) → AreLines (split_newline s)
unfolding split_newline
split_newline-AreLines [] = refl
split_newline-AreLines (c ∷ s) =
    if_decided AreLines (c == b'\n') ([] ∷ split_newline s) (onto_first c (split_newline s))
      (λ _. consed-AreLines (split_newline s) (split_newline-AreLines s))
      (λ h. onto_first-AreLines c (split_newline s) h (split_newline-AreLines s))

-- What holds of the three descriptions holds of each.
desc_of-holds :
    (P : Bytes → Type 0) (status : Bytes)
    → P (codes "description=[*] SSHCustom-Magisk - running")
    → P (codes "description=[~] SSHCustom-Magisk - standby")
    → P (codes "description=[ ] SSHCustom-Magisk - disconnected")
    → P (desc_of status)
unfolding desc_of
desc_of-holds P status h k l = if_holds P _ _ _ h (if_holds P _ _ _ k l)

desc_of-is_line : (status : Bytes) → is_line (desc_of status) ≡ true
desc_of-is_line status = desc_of-holds (λ d. is_line d ≡ true) status refl refl refl

abbrev describes : Bytes → Bool
describes l = has_prefix l (codes "description=")

desc_of-describes : (status : Bytes) → describes (desc_of status) ≡ true
unfolding has_prefix
desc_of-describes status = desc_of-holds (λ d. describes d ≡ true) status refl refl refl

set_desc-AreLines :
    (desc : Bytes) (lines : List Bytes)
    → is_line desc ≡ true
    → AreLines lines
    → AreLines (set_desc desc lines)
unfolding set_desc
set_desc-AreLines desc [] h k = k
set_desc-AreLines desc (l ∷ []) h k = if_holds AreLines (describes l) (desc ∷ []) (l ∷ []) h k
set_desc-AreLines desc (l ∷ m ∷ lines) h (k, ks) =
    if_holds AreLines (describes l) (desc ∷ m ∷ lines) (l ∷ set_desc desc (m ∷ lines)) (h, ks)
      (longer (set_desc desc (m ∷ lines)) (set_desc-AreLines desc (m ∷ lines) h ks))
  where
    longer : (rest : List Bytes) → AreLines rest → AreLines (l ∷ rest)
    longer [] o = absurd o
    longer (r ∷ rest) o = (k, o)

-- The second description replaces the first.
set_desc-set_desc :
    (d e : Bytes) (lines : List Bytes)
    → describes e ≡ true
    → set_desc d (set_desc e lines) ≡ set_desc d lines
unfolding set_desc
set_desc-set_desc d e [] h = refl
set_desc-set_desc d e (l ∷ lines) h = by_test (describes l) refl (set_desc-set_desc d e lines h)
  where
    by_test :
        (b : Bool)
        → describes l ≡ b
        → set_desc d (set_desc e lines) ≡ set_desc d lines
        → set_desc d (if b then e ∷ lines else l ∷ set_desc e lines)
          ≡ (if b then d ∷ lines else l ∷ set_desc d lines)
    by_test true k f = ap (λ b. if b then d ∷ lines else e ∷ set_desc d lines) h
    by_test false k f =
        ap (λ b. if b then d ∷ set_desc e lines else l ∷ set_desc d (set_desc e lines)) k
        ∙ ap (λ r. l ∷ r) f

pub with_status-with_status :
    (s t text : Bytes) → with_status s (with_status t text) ≡ with_status s text
unfolding with_status
with_status-with_status s t text =
    ap (λ lines. join_newline (set_desc (desc_of s) lines))
      (split_newline-join_newline (set_desc (desc_of t) (split_newline text)) (
        set_desc-AreLines (desc_of t) (split_newline text) (desc_of-is_line t)
          (split_newline-AreLines text)))
    ∙ ap join_newline
        (set_desc-set_desc (desc_of s) (desc_of t) (split_newline text) (desc_of-describes t))
