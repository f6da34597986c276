-- ===== src/Iptables/Examples.antt =====
-- The theorems on the firewall rules at concrete inputs, and tests.
use ssc.Base.{◌++◌, sym, ◌≡◌, refl, true, false, inl, [], ◌∷◌, codes, pos}
use ssc.Iptables.{World, Log, Command, ipt, insert, words, run, run_all, del_rule, jump}
use ssc.Iptables.Rules.{RulesConfig, nat, prefix_of, out_chain, cleanup_rules}
use ssc.Iptables.Setup.{apply, cleanup_firewall, redirect_hook, redirect, policy_routing, sysctls}
use mathlib.Core.Path.{subst}
use ssc.Iptables.Inserted.{cleanup_rules-Adds}
use ssc.Iptables.Removals.{Has, Has-left, Has-right}
use ssc.Iptables.Rollback.{Ended, apply-Ended, cleanup_firewall-Removes}

-- a kernel that refuses to insert rules
abbrev refusing : World
refusing log (ipt insert table chain args) = false
refusing log c = true

abbrev hotspot_rules : RulesConfig
hotspot_rules = record {
  chains_prefix = [];
  tcp_port = pos 0;
  api_port = pos 9190;
  socks_port = pos 1080;
  dns_forward_port = pos 5353;
  dns_hijack = true;
  hotspot = true;
  hotspot_dns = true;
  hotspot_ifaces = codes " wlan1 " ∷ [];
}

words_are_split : words (codes "-p tcp -j") ≡ codes "-p" ∷ codes "tcp" ∷ codes "-j" ∷ []
unfolding ssc.Iptables.words_from
words_are_split = refl

apply-Ended_example :
    Ended refusing hotspot_rules [] (apply refusing hotspot_rules (codes "1.2.3.4" ∷ []) [])
apply-Ended_example = apply-Ended refusing hotspot_rules (codes "1.2.3.4" ∷ []) []

-- the hook that is refused is among the commands of the failed run
hook_is_asked :
    Has (redirect_hook hotspot_rules) (apply refusing hotspot_rules (codes "1.2.3.4" ∷ []) []).1
unfolding apply
hook_is_asked =
    let cleaned = run_all (policy_routing ++ sysctls) (cleanup_rules refusing hotspot_rules []) in
    let ready = redirect refusing hotspot_rules (codes "1.2.3.4" ∷ []) cleaned in
    let asked = run (redirect_hook hotspot_rules) ready in
    let (more, e, undone) = cleanup_rules-Adds refusing hotspot_rules asked in
    subst (Has (redirect_hook hotspot_rules)) (sym e)
      (Has-left _ asked more (Has-right _ ready (redirect_hook hotspot_rules ∷ []) (inl refl)))

cleanup_firewall-Removes_example :
    Has
      (del_rule nat
        (codes "OUTPUT")
        (jump (codes "-p tcp -j") (out_chain (prefix_of hotspot_rules))))
      (cleanup_firewall refusing hotspot_rules [])
cleanup_firewall-Removes_example =
    cleanup_firewall-Removes refusing refusing hotspot_rules (codes "1.2.3.4" ∷ []) [] nat
      (codes "OUTPUT") (jump (codes "-p tcp -j") (out_chain (prefix_of hotspot_rules)))
      hook_is_asked (inl refl)
