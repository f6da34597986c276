-- ===== src/Iptables/Inserted.antt =====
-- internal/iptables/iptables.go: the stages of `Apply`, and the jumps that they insert.
use ssc.Base.{
  ◌≡◌, inl, inr, refl, ℕ, zero, suc, Bool, false, List, [], ◌∷◌, ◌++◌, if◌then◌else◌, if_holds,
  if_decided, All, All-append, Bytes, codes, is_empty, trim_space, ℤ, non_pos,
}
use ssc.Iptables.{flush, create, Command, ipt, Log, World, run, del_rule, rule_exists, ensure_chain}
use ssc.Iptables.Removals.{Has}
use ssc.Iptables.Rules.{
  RulesConfig, prefix_of, ifaces_of, all_chains, for_ifaces, detach_iface, detach_chain,
  detach_first, detach_last, detach_chains, cleanup_commands, last_cleanup, remove_rule,
  unblock_quic, cleanup_rules,
}
use ssc.Iptables.Setup.{bypass, bypass_ports, when}
use ssc.Iptables.Jumps.{Undone, Adds, adds, Adds-refl, Adds-trans}

pub if-Adds :
    (cfg : RulesConfig) (l : Log) (b : Bool) (x y : Log)
    → Adds cfg l x
    → Adds cfg l y
    → Adds cfg l (if b then x else y)
if-Adds cfg l b x y h k = if_holds (Adds cfg l) b x y h k

pub one : (cfg : RulesConfig) (l : Log) (c : Command) → Undone cfg c → Adds cfg l (run c l)
one cfg l c h = adds cfg l (c ∷ []) (h, tt)

pub ensure_chain-Adds :
    (w : World) (cfg : RulesConfig) (table name : Bytes) (l : Log)
    → Adds cfg l (ensure_chain w table name l)
unfolding ensure_chain
ensure_chain-Adds w cfg table name l =
    Adds-trans cfg l _ _
      (if-Adds cfg l (w l _) _ _ (one cfg l _ tt)
        (Adds-trans cfg l _ _ (one cfg l _ tt) (one cfg _ (ipt create table name []) tt)))
      (one cfg _ (ipt flush table name []) tt)

pub for_ifaces-Undone :
    (cfg : RulesConfig) (commands : Bytes → List Command) (ifaces : List Bytes)
    → ((i : Bytes)
        → Has i ifaces
        → is_empty (trim_space i) ≡ false
        → All (Undone cfg) (commands (trim_space i)))
    → All (Undone cfg) (for_ifaces commands ifaces)
unfolding for_ifaces
for_ifaces-Undone cfg commands [] h = tt
for_ifaces-Undone cfg commands (i ∷ ifaces) h =
    let rest = for_ifaces-Undone cfg commands ifaces (λ j k e. h j (inr k) e) in
    if_decided (All (Undone cfg)) (is_empty (trim_space i)) _ _ (λ _. rest)
      (λ e. All-append (Undone cfg) (commands (trim_space i)) _ (h i (inl refl) e) rest)

detach_chains-Undone :
    (cfg : RulesConfig) (ifaces chs : List Bytes) → All (Undone cfg) (detach_chains ifaces chs)
unfolding detach_chains
detach_chains-Undone cfg ifaces [] = tt
detach_chains-Undone cfg ifaces (ch ∷ chs) =
    All-append (Undone cfg) (detach_chain ifaces ch) (detach_chains ifaces chs)
      (All-append (Undone cfg) (detach_first ch)
        (for_ifaces (detach_iface ch) ifaces ++ detach_last ch)
        (tt, (tt, (tt, (tt, (tt, (tt, tt))))))
        (All-append (Undone cfg) (for_ifaces (detach_iface ch) ifaces) (detach_last ch)
          (for_ifaces-Undone cfg (detach_iface ch) ifaces (λ i k e. (tt, (tt, (tt, tt)))))
          (tt, (tt, (tt, (tt, (tt, (tt, tt))))))))
      (detach_chains-Undone cfg ifaces chs)

cleanup_commands-Undone : (cfg : RulesConfig) → All (Undone cfg) (cleanup_commands cfg)
unfolding cleanup_commands
cleanup_commands-Undone cfg = (
  tt,
  (
    tt,
    (
      tt,
      All-append (Undone cfg)
          (detach_chains (ifaces_of cfg.hotspot_ifaces) (all_chains (prefix_of cfg))) last_cleanup
          (detach_chains-Undone cfg (ifaces_of cfg.hotspot_ifaces) (all_chains (prefix_of cfg)))
          (tt, (tt, (tt, tt))),
    ),
  ),
)

remove_rule-Adds :
    (w : World) (cfg : RulesConfig) (rounds : ℕ) (args : List Bytes) (l : Log)
    → Adds cfg l (remove_rule w rounds args l)
unfolding remove_rule
remove_rule-Adds w cfg zero args l = Adds-refl cfg l
remove_rule-Adds w cfg (suc rounds) args l =
    let check = rule_exists (codes "filter") (codes "OUTPUT") args in
    let del = del_rule (codes "filter") (codes "OUTPUT") args in
    if-Adds cfg l (w l check) _ _
      (Adds-trans cfg l _ _ (adds cfg l (check ∷ []) (tt, tt)) (
        Adds-trans cfg (run check l) _ _ (adds cfg (run check l) (del ∷ []) (tt, tt))
          (remove_rule-Adds w cfg rounds args (run del (run check l)))))
      (adds cfg l (check ∷ []) (tt, tt))

pub cleanup_rules-Adds :
    (w : World) (cfg : RulesConfig) (l : Log) → Adds cfg l (cleanup_rules w cfg l)
unfolding cleanup_rules unblock_quic
cleanup_rules-Adds w cfg l =
    Adds-trans cfg l _ _ (adds cfg l (cleanup_commands cfg) (cleanup_commands-Undone cfg)) (
      Adds-trans cfg _ _ _ (remove_rule-Adds w cfg 4 _ _) (
        Adds-trans cfg _ _ _ (remove_rule-Adds w cfg 4 _ _)
          (Adds-trans cfg _ _ _ (remove_rule-Adds w cfg 4 _ _) (remove_rule-Adds w cfg 4 _ _))))

pub bypass-Undone :
    (cfg : RulesConfig) (table chain : Bytes) (ips : List Bytes)
    → All (Undone cfg) (bypass table chain ips)
unfolding bypass
bypass-Undone cfg table chain [] = tt
bypass-Undone cfg table chain (ip ∷ ips) =
    let rest = bypass-Undone cfg table chain ips in
    if_holds (All (Undone cfg)) (is_empty (trim_space ip)) _ _ rest (tt, rest)

pub bypass_ports-Undone :
    (cfg : RulesConfig) (chain : Bytes) (ps : List ℤ) → All (Undone cfg) (bypass_ports chain ps)
unfolding bypass_ports
bypass_ports-Undone cfg chain [] = tt
bypass_ports-Undone cfg chain (p ∷ ps) =
    let rest = bypass_ports-Undone cfg chain ps in
    if_holds (All (Undone cfg)) (non_pos p) _ _ rest (tt, rest)

pub when-Undone :
    (cfg : RulesConfig) (b : Bool) (cs : List Command)
    → All (Undone cfg) cs
    → All (Undone cfg) (when b cs)
when-Undone cfg b cs h = if_holds (All (Undone cfg)) b cs [] h tt
