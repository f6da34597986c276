-- ===== src/Dnsx/Racing.antt =====
-- That the answers do not depend on which server is the fastest, but for the choice among them, and
-- where the addresses of a resolution come from.
use mathlib.Core.List.{
  Mem, Perm, mem-cons_self, mem-cons_of_mem, eq-or-mem_of_mem-cons, not-mem-nil, is_set,
}
use mathlib.Core.List.Perm
use mathlib.Core.Logic.Or
use native.Mathlib.Nat.{ℕ_set}
use ssc.Base.{◌≡◌, ◌≢◌, refl, ap, ◌∙◌, ◌⊎◌, inl, inr, List, [], ◌∷◌, Option, map, Bytes}
use ssc.Dnsx.{ParseIpv4}
use ssc.Dnsx.Sources.{answer_of, first_answer, resolve_via_direct_dns}

-- Nobody has an answer, or the answer is that of a server and not empty.
abbrev pub Answered : (Bytes → List Bytes) → List Bytes → List Bytes → Type 0
Answered answer servers r =
    ((r ≡ []) × ((s : Bytes) → Mem s servers → answer s ≡ []))
    ⊎ ((s : Bytes) × Mem s servers × (answer s ≡ r) × (r ≢ []))

first_answer-Answered :
    (answer : Bytes → List Bytes) (arrival : List Bytes)
    → Answered answer arrival (first_answer (map answer arrival))
unfolding first_answer
first_answer-Answered answer [] = inl (refl, λ s m. absurd (not-mem-nil m))
first_answer-Answered answer (s ∷ ss) = by_first (answer s) refl (first_answer-Answered answer ss)
  where
    by_first :
        (r : List Bytes)
        → answer s ≡ r
        → Answered answer ss (first_answer (map answer ss))
        → Answered answer (s ∷ ss) (first_answer (r ∷ map answer ss))
    by_first (ip ∷ ips) e h = inr (s, mem-cons_self, e, cc)
    by_first [] e (inr (t, m, k, n)) = inr (t, mem-cons_of_mem s m, k, n)
    by_first [] e (inl (k, none_has)) = inl (
      k,
      λ t m.
          Or.elim (is_set (is_set ℕ_set) (answer t) []) (eq-or-mem_of_mem-cons m)
            (λ p. ap answer p ∙ e) (none_has t),
    )

-- In whatever order the results arrive, `resolveViaDirectDNS` fails only if every server fails, and
-- otherwise it gives the addresses of one of them.
pub resolve_via_direct_dns-Answered :
    (parse : ParseIpv4) (ask : Bytes → Option (List Bytes)) (servers arrival : List Bytes)
    → Perm arrival servers
    → Answered (λ s. answer_of parse (ask s)) servers (resolve_via_direct_dns parse ask arrival)
unfolding resolve_via_direct_dns
resolve_via_direct_dns-Answered parse ask servers arrival p =
    of_servers (first_answer-Answered (λ s. answer_of parse (ask s)) arrival)
  where
    of_servers :
        {r : List Bytes}
        → Answered (λ s. answer_of parse (ask s)) arrival r
        → Answered (λ s. answer_of parse (ask s)) servers r
    of_servers (inl (e, h)) = inl (e, λ s m. h s ((Perm.mem_iff p).1 m))
    of_servers (inr (s, m, e, n)) = inr (s, (Perm.mem_iff p).0 m, e, n)
