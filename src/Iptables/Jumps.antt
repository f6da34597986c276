-- ===== src/Iptables/Jumps.antt =====
-- internal/iptables/iptables.go: every command that `Apply` runs, and that each jump it inserts into
-- the tables nat and mangle is one that the clean-up removes.
use ssc.Base.{
  ◌≡◌, ◌⊎◌, ◌∙◌, ap, sym, refl, Bool, true, false, List, [], ◌∷◌, ◌++◌, append_assoc, append-nil,
  All, All-append, ◌&&◌, Bytes,
}
use ssc.Iptables.{
  append, insert, delete, check, flush, create, destroy, list, Command, ipt, ip6t, sh, sysctl, Log,
  del_rule,
}
use ssc.Iptables.Removals.{Has}
use ssc.Iptables.Rules.{RulesConfig, nat, mangle, cleanup_commands}

abbrev pub IsJumpTable : Bytes → Type 0
IsJumpTable table = (table ≡ nat) ⊎ (table ≡ mangle)

-- a rule that is inserted into one of the two tables is removed by the clean-up
abbrev pub Undone : RulesConfig → Command → Type 0
Undone cfg (ipt insert table chain args) =
    IsJumpTable table → Has (del_rule table chain args) (cleanup_commands cfg)
Undone cfg other = Unit

-- From the first log to the second, commands were run that are undone.
abbrev pub Adds : RulesConfig → Log → Log → Type 0
Adds cfg l m = (more : List Command) × (m ≡ l ++ more) × All (Undone cfg) more

pub adds :
    (cfg : RulesConfig) (l : Log) (cs : List Command) → All (Undone cfg) cs → Adds cfg l (l ++ cs)
adds cfg l cs h = (cs, refl, h)

pub Adds-refl : (cfg : RulesConfig) (l : Log) → Adds cfg l l
Adds-refl cfg l = ([], sym (append-nil l), tt)

pub Adds-trans : (cfg : RulesConfig) (l m n : Log) → Adds cfg l m → Adds cfg m n → Adds cfg l n
Adds-trans cfg l m n (xs, e, h) (ys, f, k) =
    (xs ++ ys, f ∙ ap (λ r. r ++ ys) e ∙ append_assoc l xs ys, All-append (Undone cfg) xs ys h k)

-- a command that inserts no rule
abbrev pub is_plain : Command → Bool
is_plain (ipt insert table chain args) = false
is_plain other = true

plain-Undone : (cfg : RulesConfig) (c : Command) → is_plain c ≡ true → Undone cfg c
plain-Undone cfg (ipt append t ch a) h = tt
plain-Undone cfg (ipt insert t ch a) h = absurd (cc)
plain-Undone cfg (ipt delete t ch a) h = tt
plain-Undone cfg (ipt check t ch a) h = tt
plain-Undone cfg (ipt flush t ch a) h = tt
plain-Undone cfg (ipt create t ch a) h = tt
plain-Undone cfg (ipt destroy t ch a) h = tt
plain-Undone cfg (ipt list t ch a) h = tt
plain-Undone cfg (ip6t v t ch a) h = tt
plain-Undone cfg (sh a) h = tt
plain-Undone cfg (sysctl a) h = tt

abbrev pub are_plain : List Command → Bool
are_plain [] = true
are_plain (c ∷ cs) = is_plain c && are_plain cs

and_both : (a b : Bool) → (a && b) ≡ true → (a ≡ true) × (b ≡ true)
and_both true b h = (refl, h)
and_both false b h = absurd (cc)

pub plain-AllUndone :
    (cfg : RulesConfig) (cs : List Command) → are_plain cs ≡ true → All (Undone cfg) cs
plain-AllUndone cfg [] h = tt
plain-AllUndone cfg (c ∷ cs) h =
    let k = and_both (is_plain c) (are_plain cs) h in
    (plain-Undone cfg c k.0, plain-AllUndone cfg cs k.1)
