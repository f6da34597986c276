-- ===== src/Iptables/Setup.antt =====
-- internal/iptables/iptables.go: `Apply` and `Cleanup`. The broadcast that asks Android to look at
-- the network again, ten seconds later, is left out.
use ssc.Base.{
  Bool, true, false, List, [], ◌∷◌, ◌++◌, if◌then◌else◌, Bytes, codes, is_empty, trim_space, ℤ, pos,
  non_pos, not, ◌&&◌,
}
use ssc.Base.Decimal.{int_text}
use ssc.Iptables.{
  Command, sh, sysctl, Log, World, run, run_all, words, add_rule, del_rule, ins_rule, rule_exists,
  jump, ensure_chain,
}
use ssc.Iptables.Rules.{
  RulesConfig, local_cidrs, prefix_of, ifaces_of, out_chain, pre_chain, dns_chain, nat, mangle,
  on_iface, for_ifaces, divert_args, cleanup_rules,
}
use ssc.Iptables.Leaks.{
  block_quic, disable_ipv6, enable_ipv6, tune_tcp, disable_captive_portal, restore_captive_portal,
}

-- `setupPolicyRouting`
abbrev pub policy_routing : List Command
policy_routing =
    sh (codes "ip rule del fwmark 1 table 100 2>/dev/null || true")
    ∷ sh (codes "ip rule add fwmark 1 table 100 prio 100")
    ∷ sh (codes "ip route flush table 100 2>/dev/null || true")
    ∷ sh (codes "ip route add local 0.0.0.0/0 dev lo table 100")
    ∷ []

-- `setupSysctls`
abbrev pub sysctls : List Command
sysctls =
    sh (
      codes
        "sysctl -w net.ipv4.conf.all.route_localnet=1 2>/dev/null || echo 1 > /proc/sys/net/ipv4/conf/all/route_localnet")
    ∷ sh (
        codes
          "sysctl -w net.ipv4.conf.all.rp_filter=0 2>/dev/null || echo 0 > /proc/sys/net/ipv4/conf/all/rp_filter")
    ∷ sh (
        codes
          "sysctl -w net.ipv4.conf.lo.rp_filter=0 2>/dev/null || echo 0 > /proc/sys/net/ipv4/conf/lo/rp_filter")
    ∷ sh (
        codes
          "sysctl -w net.ipv4.conf.all.accept_local=1 2>/dev/null || echo 1 > /proc/sys/net/ipv4/conf/all/accept_local")
    ∷ []

-- a rule that lets the traffic to each address pass
unfoldable pub bypass : Bytes → Bytes → List Bytes → List Command
bypass table chain [] = []
bypass table chain (ip ∷ ips) =
    let rest = bypass table chain ips in
    let rule = add_rule table chain (codes "-d" ∷ trim_space ip ∷ words (codes "-j RETURN")) in
    if is_empty (trim_space ip) then rest else rule ∷ rest

unfoldable pub bypass_ports : Bytes → List ℤ → List Command
bypass_ports chain [] = []
bypass_ports chain (p ∷ ps) =
    let rest = bypass_ports chain ps in
    let rule =
      add_rule nat chain
        (words (codes "-p tcp --dport") ++ int_text p ∷ words (codes "-j RETURN")) in
    if non_pos p then rest else rule ∷ rest

abbrev pub when : Bool → List Command → List Command
when b cs = if b then cs else []

abbrev pub tcp_port_of : RulesConfig → ℤ
tcp_port_of cfg = if non_pos cfg.tcp_port then pos 10810 else cfg.tcp_port

abbrev pub dns_return : Bytes → Bytes → RulesConfig → List Command
dns_return table chain cfg =
    when (not (non_pos cfg.dns_forward_port))
      (add_rule table chain (words (codes "-p udp --dport 53 -j RETURN")) ∷ [])

-- phase 2, after the chain is there and up to its hook
unfoldable pub redirect_rules : RulesConfig → List Bytes → List Command
unfolding bypass bypass_ports
redirect_rules cfg ips =
    let chain = out_chain (prefix_of cfg) in
    add_rule nat chain (words (codes "-m owner --uid-owner 0 -j RETURN"))
      ∷ bypass nat chain local_cidrs
    ++ bypass nat chain ips
    ++ bypass_ports chain (cfg.api_port ∷ cfg.socks_port ∷ tcp_port_of cfg ∷ [])
    ++ dns_return nat chain cfg
    ++ add_rule nat chain
        (words (codes "-p tcp -j REDIRECT --to-ports") ++ int_text (tcp_port_of cfg) ∷ [])
      ∷ del_rule nat (codes "OUTPUT") (jump (codes "-p tcp -j") chain)
      ∷ []

-- phase 3, after the chain is there and up to its hook
unfoldable pub tproxy_rules : RulesConfig → List Bytes → List Command
unfolding bypass
tproxy_rules cfg ips =
    let chain = pre_chain (prefix_of cfg) in
    bypass mangle chain local_cidrs
    ++ bypass mangle chain ips
    ++ add_rule mangle chain (words (codes "-i lo -m mark ! --mark 0x1/0x1 -j RETURN"))
      ∷ dns_return mangle chain cfg
    ++ add_rule mangle chain (
        words (codes "-p tcp -j TPROXY --on-port")
        ++ int_text (tcp_port_of cfg) ∷ words (codes "--tproxy-mark 0x1/0x1"))
      ∷ del_rule mangle (codes "PREROUTING") (jump (codes "-j") chain)
      ∷ []

abbrev pub redirect_hook : RulesConfig → Command
redirect_hook cfg =
    ins_rule nat (codes "OUTPUT") (jump (codes "-p tcp -j") (out_chain (prefix_of cfg)))

abbrev pub tproxy_hook : RulesConfig → Command
tproxy_hook cfg =
    ins_rule mangle (codes "PREROUTING") (jump (codes "-j") (pre_chain (prefix_of cfg)))

-- phase 4
abbrev pub divert : World → Log → Log
divert w log =
    run_all
      (add_rule mangle (codes "DIVERT") (words (codes "-j MARK --set-xmark 0x1/0x1"))
        ∷ add_rule mangle (codes "DIVERT") (words (codes "-j ACCEPT"))
        ∷ del_rule mangle (codes "PREROUTING") divert_args
        ∷ ins_rule mangle (codes "PREROUTING") divert_args
        ∷ [])
      (ensure_chain w mangle (codes "DIVERT") log)

abbrev pub dns_args : Bytes → List Bytes
dns_args chain = jump (codes "-p udp --dport 53 -j") chain

abbrev pub dns_iface : Bytes → Bytes → List Command
dns_iface chain iface =
    del_rule nat (codes "PREROUTING") (on_iface iface (codes "-p udp --dport 53 -j") ++ chain ∷ [])
    ∷ ins_rule nat (codes "PREROUTING")
        (on_iface iface (codes "-p udp --dport 53 -j") ++ chain ∷ [])
    ∷ []

abbrev pub dns_hotspot : RulesConfig → List Command
dns_hotspot cfg =
    when (cfg.hotspot && cfg.hotspot_dns)
      (for_ifaces (dns_iface (dns_chain (prefix_of cfg))) (ifaces_of cfg.hotspot_ifaces))

abbrev pub dns_rules : RulesConfig → List Command
dns_rules cfg =
    let chain = dns_chain (prefix_of cfg) in
    add_rule nat chain (words (codes "-m owner --uid-owner 0 -j RETURN"))
    ∷ add_rule nat chain (
        words (codes "-p udp --dport 53 -j DNAT --to-destination")
        ++ (codes "127.0.0.1:" ++ int_text cfg.dns_forward_port) ∷ [])
    ∷ del_rule nat (codes "OUTPUT") (dns_args chain)
    ∷ ins_rule nat (codes "OUTPUT") (dns_args chain)
    ∷ dns_hotspot cfg

-- `setupDNS`, for a port that is positive
unfoldable pub setup_dns : World → RulesConfig → Log → Log
unfolding for_ifaces
setup_dns w cfg log = run_all (dns_rules cfg) (ensure_chain w nat (dns_chain (prefix_of cfg)) log)

-- phase 6
abbrev pub forwarding : World → Log → Log
forwarding w log =
    let on = run (sysctl (codes "net.ipv4.ip_forward=1")) log in
    let asked =
      run (rule_exists (codes "filter") (codes "FORWARD") (words (codes "-j ACCEPT"))) on in
    if w on (rule_exists (codes "filter") (codes "FORWARD") (words (codes "-j ACCEPT")))
    then asked
    else run (ins_rule (codes "filter") (codes "FORWARD") (words (codes "1 -j ACCEPT"))) asked

-- phases 4 to 7
unfoldable pub complete : World → RulesConfig → Log → Log
unfolding ensure_chain setup_dns block_quic disable_ipv6
complete w cfg log =
    let diverted = divert w log in
    let hijacked =
      if cfg.dns_hijack && not (non_pos cfg.dns_forward_port)
      then setup_dns w cfg diverted
      else diverted in
    let forwarded = if cfg.hotspot then forwarding w hijacked else hijacked in
    run_all (tune_tcp ++ disable_captive_portal) (disable_ipv6 w (block_quic w forwarded))

-- an attempt to insert a hook: what follows it, or the clean-up and the error
abbrev pub hook : World → RulesConfig → Command → (Log → Bool × Log) → Log → Bool × Log
hook w cfg c next log =
    if w log c then next (run c log) else (false, cleanup_rules w cfg (run c log))

abbrev pub redirect : World → RulesConfig → List Bytes → Log → Log
redirect w cfg ips log =
    run_all (redirect_rules cfg ips) (ensure_chain w nat (out_chain (prefix_of cfg)) log)

abbrev pub tproxy : World → RulesConfig → List Bytes → Log → Log
tproxy w cfg ips log =
    run_all (tproxy_rules cfg ips) (ensure_chain w mangle (pre_chain (prefix_of cfg)) log)

-- `Apply`: whether it succeeds, and the commands
unfoldable pub apply : World → RulesConfig → List Bytes → Log → Bool × Log
unfolding cleanup_rules ensure_chain redirect_rules tproxy_rules complete
apply w cfg ips log =
    hook w cfg (redirect_hook cfg)
      (λ l. hook w cfg (tproxy_hook cfg) (λ m. (true, complete w cfg m)) (tproxy w cfg ips l))
      (redirect w cfg ips (run_all (policy_routing ++ sysctls) (cleanup_rules w cfg log)))

-- `Cleanup`, with `cleanupPolicyRouting`
unfoldable pub cleanup_firewall : World → RulesConfig → Log → Log
unfolding cleanup_rules
cleanup_firewall w cfg log =
    run_all
      (sh (codes "ip rule del fwmark 1 table 100 2>/dev/null || true")
          ∷ sh (codes "ip route flush table 100 2>/dev/null || true")
          ∷ []
        ++ enable_ipv6
        ++ restore_captive_portal)
      (cleanup_rules w cfg log)
