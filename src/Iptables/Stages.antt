-- ===== src/Iptables/Stages.antt =====
-- internal/iptables/iptables.go: what the stages of `Apply` add to the commands.
use ssc.Base.{
  text_eq, ap, inl, inr, refl, List, [], ◌∷◌, ◌++◌, if◌then◌else◌, All, All-append, ◌&&◌, not,
  Bytes, codes, non_pos,
}
use ssc.Iptables.{sysctl, Log, World, run, words, ins_rule, add_rule, rule_exists}
use ssc.Iptables.Removals.{removes_dns, removes_dns_iface, removes_divert}
use ssc.Iptables.Rules.{
  RulesConfig, drop_quic, nat, mangle, prefix_of, ifaces_of, dns_chain, out_chain, pre_chain,
  for_ifaces, local_cidrs,
}
use ssc.Iptables.Leaks.{
  block_quic, unless_rule, or_drop, block_port, disable_ipv6, ipv6_off, ipv6_hooks, tune_tcp,
  disable_captive_portal,
}
use ssc.Iptables.Setup.{
  bypass, bypass_ports, redirect_rules, tproxy_rules, divert, dns_iface, dns_rules, dns_return,
  tcp_port_of, setup_dns, forwarding, complete, redirect, tproxy,
}
use ssc.Iptables.Jumps.{IsJumpTable, Undone, Adds, adds, Adds-refl, Adds-trans, plain-AllUndone}
use ssc.Iptables.Inserted.{
  if-Adds, one, ensure_chain-Adds, for_ifaces-Undone, bypass-Undone, bypass_ports-Undone,
  when-Undone,
}

dns_return-Undone :
    (cfg : RulesConfig) (table chain : Bytes) → All (Undone cfg) (dns_return table chain cfg)
dns_return-Undone cfg table chain =
    when-Undone cfg (not (non_pos cfg.dns_forward_port))
      (add_rule table chain (words (codes "-p udp --dport 53 -j RETURN")) ∷ []) (tt, tt)

redirect_rules-Undone :
    (cfg : RulesConfig) (ips : List Bytes) → All (Undone cfg) (redirect_rules cfg ips)
unfolding redirect_rules
redirect_rules-Undone cfg ips =
    let chain = out_chain (prefix_of cfg) in
    let a = bypass nat chain local_cidrs in
    let b = bypass nat chain ips in
    let ports = cfg.api_port ∷ cfg.socks_port ∷ tcp_port_of cfg ∷ [] in
    let c = bypass_ports chain ports in
    let d = dns_return nat chain cfg in
    (
      tt,
      All-append (Undone cfg) (a ++ b ++ c ++ d) _
          (All-append (Undone cfg) (a ++ b ++ c) d
            (All-append (Undone cfg) (a ++ b) c
              (All-append (Undone cfg) a b (bypass-Undone cfg nat chain local_cidrs)
                (bypass-Undone cfg nat chain ips))
              (bypass_ports-Undone cfg chain ports))
            (dns_return-Undone cfg nat chain))
          (tt, (tt, tt)),
    )

tproxy_rules-Undone :
    (cfg : RulesConfig) (ips : List Bytes) → All (Undone cfg) (tproxy_rules cfg ips)
unfolding tproxy_rules
tproxy_rules-Undone cfg ips =
    let chain = pre_chain (prefix_of cfg) in
    let a = bypass mangle chain local_cidrs in
    let b = bypass mangle chain ips in
    let d = dns_return mangle chain cfg in
    All-append (Undone cfg) (a ++ b ++ (_ ∷ d)) _
      (All-append (Undone cfg) (a ++ b) (_ ∷ d)
        (All-append (Undone cfg) a b (bypass-Undone cfg mangle chain local_cidrs)
          (bypass-Undone cfg mangle chain ips))
        (tt, dns_return-Undone cfg mangle chain))
      (tt, (tt, tt))

pub redirect-Adds :
    (w : World) (cfg : RulesConfig) (ips : List Bytes) (l : Log) → Adds cfg l (redirect w cfg ips l)
redirect-Adds w cfg ips l =
    Adds-trans cfg l _ _ (ensure_chain-Adds w cfg nat (out_chain (prefix_of cfg)) l)
      (adds cfg _ (redirect_rules cfg ips) (redirect_rules-Undone cfg ips))

pub tproxy-Adds :
    (w : World) (cfg : RulesConfig) (ips : List Bytes) (l : Log) → Adds cfg l (tproxy w cfg ips l)
tproxy-Adds w cfg ips l =
    Adds-trans cfg l _ _ (ensure_chain-Adds w cfg mangle (pre_chain (prefix_of cfg)) l)
      (adds cfg _ (tproxy_rules cfg ips) (tproxy_rules-Undone cfg ips))

not-IsJumpTable : ¬ (IsJumpTable (codes "filter"))
unfolding text_eq
not-IsJumpTable (inl e) = let k = ap (text_eq (codes "filter")) e in absurd (cc)
not-IsJumpTable (inr e) = let k = ap (text_eq (codes "filter")) e in absurd (cc)

filter-Undone :
    (cfg : RulesConfig) (chain : Bytes) (args : List Bytes)
    → Undone cfg (ins_rule (codes "filter") chain args)
filter-Undone cfg chain args h = absurd (not-IsJumpTable h)

divert-Adds : (w : World) (cfg : RulesConfig) (l : Log) → Adds cfg l (divert w l)
divert-Adds w cfg l =
    Adds-trans cfg l _ _ (ensure_chain-Adds w cfg mangle (codes "DIVERT") l)
      (adds cfg _ (_ ∷ _ ∷ _ ∷ _ ∷ []) (tt, (tt, (tt, ((λ h. removes_divert cfg), tt)))))

setup_dns-Adds : (w : World) (cfg : RulesConfig) (l : Log) → Adds cfg l (setup_dns w cfg l)
unfolding setup_dns
setup_dns-Adds w cfg l =
    let chain = dns_chain (prefix_of cfg) in
    Adds-trans cfg l _ _ (ensure_chain-Adds w cfg nat chain l) (
      adds cfg _ (dns_rules cfg) (
        tt,
        (
          tt,
          (
            tt,
            (
              (λ h. removes_dns cfg),
              when-Undone cfg (cfg.hotspot && cfg.hotspot_dns)
                  (for_ifaces (dns_iface chain) (ifaces_of cfg.hotspot_ifaces))
                  (for_ifaces-Undone cfg (dns_iface chain) (ifaces_of cfg.hotspot_ifaces)
                    (λ i h e. (tt, ((λ t. removes_dns_iface cfg i h e), tt)))),
            ),
          ),
        ),
      ))

forwarding-Adds : (w : World) (cfg : RulesConfig) (l : Log) → Adds cfg l (forwarding w l)
forwarding-Adds w cfg l =
    Adds-trans cfg l _ _ (one cfg l (sysctl (codes "net.ipv4.ip_forward=1")) tt) (
      if-Adds cfg _ (w (run (sysctl (codes "net.ipv4.ip_forward=1")) l) _) _ _ (one cfg _ _ tt)
        (Adds-trans cfg _ _ _ (one cfg _ _ tt) (one cfg _ _ (filter-Undone cfg _ _))))

unless_rule-Adds :
    (w : World) (cfg : RulesConfig) (args : List Bytes) (other : Log → Log) (l : Log)
    → ((m : Log) → Adds cfg m (other m))
    → Adds cfg l (unless_rule w args other l)
unless_rule-Adds w cfg args other l h =
    let asked = run (rule_exists (codes "filter") (codes "OUTPUT") args) l in
    if-Adds cfg l (w l (rule_exists (codes "filter") (codes "OUTPUT") args)) asked (other asked)
      (one cfg l _ tt) (Adds-trans cfg l asked _ (one cfg l _ tt) (h asked))

block_port-Adds :
    (w : World) (cfg : RulesConfig) (port : Bytes) (l : Log) → Adds cfg l (block_port w port l)
block_port-Adds w cfg port l = unless_rule-Adds w cfg _ (or_drop w port) l (λ m.
    if-Adds cfg m _ _ _ (one cfg m _ (filter-Undone cfg _ _)) (
      Adds-trans cfg m _ _ (one cfg m _ (filter-Undone cfg _ _)) (
        unless_rule-Adds w cfg (drop_quic port)
          (run (ins_rule (codes "filter") (codes "OUTPUT") (drop_quic port))) _
          (λ n.
            one cfg n (ins_rule (codes "filter") (codes "OUTPUT") (drop_quic port))
              (filter-Undone cfg (codes "OUTPUT") (drop_quic port))))))

disable_ipv6-Adds : (w : World) (cfg : RulesConfig) (l : Log) → Adds cfg l (disable_ipv6 w l)
unfolding disable_ipv6
disable_ipv6-Adds w cfg l =
    Adds-trans cfg l (l ++ ipv6_off) _ (adds cfg l ipv6_off (tt, (tt, (tt, (tt, (tt, tt)))))) (
      Adds-trans cfg _ _ _
        (if-Adds cfg _ _ _ _ (one cfg _ _ tt)
          (Adds-trans cfg _ _ _ (one cfg _ _ tt) (one cfg _ _ tt)))
        (adds cfg _ ipv6_hooks (tt, (tt, (tt, (tt, tt))))))

pub complete-Adds : (w : World) (cfg : RulesConfig) (l : Log) → Adds cfg l (complete w cfg l)
unfolding complete block_quic
complete-Adds w cfg l =
    let hijacks = cfg.dns_hijack && not (non_pos cfg.dns_forward_port) in
    let diverted = divert w l in
    let hijacked = if hijacks then setup_dns w cfg diverted else diverted in
    let forwarded = if cfg.hotspot then forwarding w hijacked else hijacked in
    Adds-trans cfg l diverted _ (divert-Adds w cfg l) (
      Adds-trans cfg diverted hijacked _
        (if-Adds cfg diverted hijacks (setup_dns w cfg diverted) diverted
          (setup_dns-Adds w cfg diverted) (Adds-refl cfg diverted))
        (Adds-trans cfg hijacked forwarded _
          (if-Adds cfg hijacked cfg.hotspot (forwarding w hijacked) hijacked
            (forwarding-Adds w cfg hijacked) (Adds-refl cfg hijacked))
          (Adds-trans cfg forwarded _ _ (block_port-Adds w cfg (codes "443") forwarded) (
            Adds-trans cfg _ _ _ (block_port-Adds w cfg (codes "80") _) (
              Adds-trans cfg _ _ _ (disable_ipv6-Adds w cfg _) (
                adds cfg _ (tune_tcp ++ disable_captive_portal)
                  (plain-AllUndone cfg (tune_tcp ++ disable_captive_portal) refl)))))))
