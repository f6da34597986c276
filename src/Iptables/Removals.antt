-- ===== src/Iptables/Removals.antt =====
-- internal/iptables/iptables.go: what the list of the clean-up holds.
use mathlib.Core.Path.{subst}
use ssc.Base.{
  ◌≡◌, ◌⊎◌, inl, inr, refl, ℕ, zero, suc, Bool, true, false, List, [], ◌∷◌, ◌++◌, if◌then◌else◌,
  Bytes, codes, is_empty, trim_space,
}
use ssc.Iptables.{Command, Log, World, run, del_rule, rule_exists, jump}
use ssc.Iptables.Rules.{
  RulesConfig, nat, mangle, prefix_of, ifaces_of, out_chain, pre_chain, dns_chain, all_chains,
  for_ifaces, detach_iface, detach_chain, detach_chains, divert_args, on_iface, cleanup_commands,
  last_cleanup, remove_rule, unblock_quic, cleanup_rules,
}
use ssc.Iptables.Setup.{cleanup_firewall, dns_args}

-- The command is in the log.
abbrev pub Has : {A : Type 0} → A → List A → Type 0
Has c [] = ⊥
Has c (d ∷ l) = (c ≡ d) ⊎ Has c l

pub Has-left : {A : Type 0} (c : A) (xs ys : List A) → Has c xs → Has c (xs ++ ys)
Has-left c [] ys h = absurd h
Has-left c (x ∷ xs) ys (inl e) = inl e
Has-left c (x ∷ xs) ys (inr h) = inr (Has-left c xs ys h)

pub Has-right : {A : Type 0} (c : A) (xs ys : List A) → Has c ys → Has c (xs ++ ys)
Has-right c [] ys h = h
Has-right c (x ∷ xs) ys h = inr (Has-right c xs ys h)

Has-remove_rule :
    (c : Command) (w : World) (rounds : ℕ) (args : List Bytes) (log : Log)
    → Has c log
    → Has c (remove_rule w rounds args log)
unfolding remove_rule
Has-remove_rule c w zero args log h = h
Has-remove_rule c w (suc rounds) args log h =
    let check = rule_exists (codes "filter") (codes "OUTPUT") args in
    let del = del_rule (codes "filter") (codes "OUTPUT") args in
    let asked = Has-left c log (check ∷ []) h in
    if-Has (w log check) _ _
      (Has-remove_rule c w rounds args (run del (run check log))
        (Has-left c (run check log) (del ∷ []) asked))
      asked
  where
    if-Has : (b : Bool) (x y : Log) → Has c x → Has c y → Has c (if b then x else y)
    if-Has true x y h k = h
    if-Has false x y h k = k

pub Has-for_ifaces :
    (c : Command) (commands : Bytes → List Command) (iface : Bytes) (ifaces : List Bytes)
    → Has iface ifaces
    → is_empty (trim_space iface) ≡ false
    → Has c (commands (trim_space iface))
    → Has c (for_ifaces commands ifaces)
unfolding for_ifaces
Has-for_ifaces c commands iface [] h e k = absurd h
Has-for_ifaces c commands iface (x ∷ xs) (inl same) e k =
    let blank : is_empty (trim_space x) ≡ false = rw (← same) e in
    let there : Has c (commands (trim_space x)) = rw (← same) k in
    rw blank (Has-left c (commands (trim_space x)) (for_ifaces commands xs) there)
Has-for_ifaces c commands iface (x ∷ xs) (inr h) e k =
    skip (is_empty (trim_space x)) (Has-for_ifaces c commands iface xs h e k)
  where
    skip :
        (b : Bool)
        → Has c (for_ifaces commands xs)
        → Has c (
            if b then for_ifaces commands xs else commands (trim_space x) ++ for_ifaces commands xs)
    skip true m = m
    skip false m = Has-right c (commands (trim_space x)) (for_ifaces commands xs) m

pub Has-cleanup :
    (c : Command) (w : World) (cfg : RulesConfig) (log : Log)
    → Has c (cleanup_commands cfg)
    → Has c (cleanup_firewall w cfg log)
unfolding cleanup_firewall cleanup_rules unblock_quic
Has-cleanup c w cfg log h =
    let ready = Has-right c log (cleanup_commands cfg) h in
    Has-left c _ _ (
      Has-remove_rule c w 4 _ _
        (Has-remove_rule c w 4 _ _ (Has-remove_rule c w 4 _ _ (Has-remove_rule c w 4 _ _ ready))))

Has-detach_chains :
    (c : Command) (ifaces : List Bytes) (ch : Bytes) (chs : List Bytes)
    → Has ch chs
    → Has c (detach_chain ifaces ch)
    → Has c (detach_chains ifaces chs)
unfolding detach_chains
Has-detach_chains c ifaces ch [] h k = absurd h
Has-detach_chains c ifaces ch (x ∷ xs) (inl same) k =
    let here : Has c (detach_chain ifaces x) = subst (λ y. Has c (detach_chain ifaces y)) same k in
    Has-left c (detach_chain ifaces x) (detach_chains ifaces xs) here
Has-detach_chains c ifaces ch (x ∷ xs) (inr h) k =
    Has-right c (detach_chain ifaces x) (detach_chains ifaces xs)
      (Has-detach_chains c ifaces ch xs h k)

pub in_dns_chain :
    (c : Command) (cfg : RulesConfig)
    → Has c (detach_chain (ifaces_of cfg.hotspot_ifaces) (dns_chain (prefix_of cfg)))
    → Has c (cleanup_commands cfg)
unfolding cleanup_commands detach_chains
in_dns_chain c cfg h =
    let chains = all_chains (prefix_of cfg) in
    let ifaces = ifaces_of cfg.hotspot_ifaces in
    inr (
      inr (
        inr (
          Has-left c (detach_chains ifaces chains) last_cleanup (
            Has-detach_chains c ifaces (dns_chain (prefix_of cfg)) chains (inr (inr (inl refl)))
              h))))

-- the removal of a jump of DNS queries, of the device and on an interface that is not blank
pub removes_dns :
    (cfg : RulesConfig)
    → Has
        (del_rule nat (codes "OUTPUT") (dns_args (dns_chain (prefix_of cfg))))
        (cleanup_commands cfg)
removes_dns cfg = in_dns_chain _ cfg (inr (inr (inl refl)))

pub removes_dns_iface :
    (cfg : RulesConfig) (iface : Bytes)
    → Has iface (ifaces_of cfg.hotspot_ifaces)
    → is_empty (trim_space iface) ≡ false
    → Has
        (del_rule nat (codes "PREROUTING") (
          on_iface (trim_space iface) (codes "-p udp --dport 53 -j")
          ++ dns_chain (prefix_of cfg) ∷ []))
        (cleanup_commands cfg)
removes_dns_iface cfg iface h e =
    let ch = dns_chain (prefix_of cfg) in
    let ifaces = ifaces_of cfg.hotspot_ifaces in
    in_dns_chain _ cfg (
      inr (
        inr (
          inr (
            inr (
              inr (
                inr (
                  Has-left _ (for_ifaces (detach_iface ch) ifaces) _ (
                    Has-for_ifaces _ (detach_iface ch) iface ifaces h e
                      (inr (inr (inl refl)))))))))))

pub removes_redirect :
    (cfg : RulesConfig)
    → Has
        (del_rule nat (codes "OUTPUT") (jump (codes "-p tcp -j") (out_chain (prefix_of cfg))))
        (cleanup_commands cfg)
unfolding cleanup_commands
removes_redirect cfg = inl refl

pub removes_tproxy :
    (cfg : RulesConfig)
    → Has
        (del_rule mangle (codes "PREROUTING") (jump (codes "-j") (pre_chain (prefix_of cfg))))
        (cleanup_commands cfg)
unfolding cleanup_commands
removes_tproxy cfg = inr (inl refl)

pub removes_divert :
    (cfg : RulesConfig)
    → Has (del_rule mangle (codes "PREROUTING") divert_args) (cleanup_commands cfg)
unfolding cleanup_commands
removes_divert cfg = inr (inr (inl refl))
