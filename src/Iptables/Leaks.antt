-- ===== src/Iptables/Leaks.antt =====
-- internal/iptables/iptables.go: what keeps traffic from leaving beside the tunnel: QUIC, IPv6, TCP and
-- the captive portal.
use ssc.Base.{List, [], ◌∷◌, ◌++◌, if◌then◌else◌, Bytes, codes}
use ssc.Iptables.{
  Verb, flush, destroy, create, append, insert, delete, Command, ip6t, sh, Log, World, run, run_all,
  words, ins_rule, rule_exists,
}
use ssc.Iptables.Rules.{drop_quic, reject_quic}

-- a command if a rule is not there, for `blockQUIC`
abbrev pub unless_rule : World → List Bytes → (Log → Log) → Log → Log
unless_rule w args other log =
    let asked = run (rule_exists (codes "filter") (codes "OUTPUT") args) log in
    if w log (rule_exists (codes "filter") (codes "OUTPUT") args) then asked else other asked

abbrev pub or_drop : World → Bytes → Log → Log
or_drop w port log =
    let reject = ins_rule (codes "filter") (codes "OUTPUT") (reject_quic port) in
    if w log reject
    then run reject log
    else unless_rule w (drop_quic port)
        (run (ins_rule (codes "filter") (codes "OUTPUT") (drop_quic port))) (run reject log)

-- a round of `blockQUIC`
abbrev pub block_port : World → Bytes → Log → Log
block_port w port log = unless_rule w (reject_quic port) (or_drop w port) log

-- `blockQUIC`
unfoldable pub block_quic : World → Log → Log
block_quic w log = block_port w (codes "80") (block_port w (codes "443") log)

abbrev pub drop6 : List Bytes → Verb → Command
drop6 args verb = ip6t verb (codes "filter") (codes "SSHC_DROP6") args

abbrev pub reject6 : Command
reject6 = drop6 (words (codes "-j REJECT --reject-with icmp6-adm-prohibited")) append

abbrev pub ipv6_off : List Command
ipv6_off =
    sh (
      codes
        "sysctl -w net.ipv6.conf.all.disable_ipv6=1 2>/dev/null || echo 1 > /proc/sys/net/ipv6/conf/all/disable_ipv6")
    ∷ sh (
        codes
          "sysctl -w net.ipv6.conf.default.disable_ipv6=1 2>/dev/null || echo 1 > /proc/sys/net/ipv6/conf/default/disable_ipv6")
    ∷ drop6 [] create
    ∷ drop6 [] flush
    ∷ drop6 (words (codes "-o lo -j RETURN")) append
    ∷ []

abbrev pub ipv6_hooks : List Command
ipv6_hooks =
    ip6t delete (codes "filter") (codes "OUTPUT") (words (codes "-j SSHC_DROP6"))
    ∷ ip6t insert (codes "filter") (codes "OUTPUT") (words (codes "1 -j SSHC_DROP6"))
    ∷ ip6t delete (codes "filter") (codes "FORWARD") (words (codes "-j SSHC_DROP6"))
    ∷ ip6t insert (codes "filter") (codes "FORWARD") (words (codes "1 -j SSHC_DROP6"))
    ∷ []

-- `disableIPv6`
unfoldable pub disable_ipv6 : World → Log → Log
disable_ipv6 w log =
    let ready = run_all ipv6_off log in
    let refused =
      if w ready reject6
      then run reject6 ready
      else run (drop6 (words (codes "-j DROP")) append) (run reject6 ready) in
    run_all ipv6_hooks refused

-- `enableIPv6`
abbrev pub enable_ipv6 : List Command
enable_ipv6 =
    sh (
      codes
        "sysctl -w net.ipv6.conf.all.disable_ipv6=0 2>/dev/null || echo 0 > /proc/sys/net/ipv6/conf/all/disable_ipv6")
    ∷ sh (
        codes
          "sysctl -w net.ipv6.conf.default.disable_ipv6=0 2>/dev/null || echo 0 > /proc/sys/net/ipv6/conf/default/disable_ipv6")
    ∷ ip6t delete (codes "filter") (codes "OUTPUT") (words (codes "-j SSHC_DROP6"))
    ∷ ip6t delete (codes "filter") (codes "FORWARD") (words (codes "-j SSHC_DROP6"))
    ∷ drop6 [] flush
    ∷ drop6 [] destroy
    ∷ []

-- `tuneTCP`
abbrev pub tune_tcp : List Command
tune_tcp =
    sh (
      codes
        "sysctl -w net.core.rmem_max=4194304 2>/dev/null || echo 4194304 > /proc/sys/net/core/rmem_max")
    ∷ sh (
        codes
          "sysctl -w net.core.wmem_max=4194304 2>/dev/null || echo 4194304 > /proc/sys/net/core/wmem_max")
    ∷ sh (codes "sysctl -w net.ipv4.tcp_congestion_control=bbr 2>/dev/null || true")
    ∷ sh (codes "sysctl -w net.ipv4.tcp_notsent_lowat=131072 2>/dev/null || true")
    ∷ []

abbrev quote : Bytes
quote = 34 ∷ []

-- `disableCaptivePortal`
abbrev pub disable_captive_portal : List Command
disable_captive_portal =
    sh (codes "settings put global captive_portal_mode 0")
    ∷ sh (codes "settings put global captive_portal_use_https 0")
    ∷ sh (codes "settings put global captive_portal_server 127.0.0.1")
    ∷ sh (
        codes "settings put global captive_portal_http_url "
        ++ quote
        ++ codes "http://127.0.0.1:9190/generate_204"
        ++ quote)
    ∷ sh (codes "settings delete global captive_portal_https_url 2>/dev/null || true")
    ∷ sh (codes "ndc resolver clearnetdns 2>/dev/null || true")
    ∷ []

-- `restoreCaptivePortal`
abbrev pub restore_captive_portal : List Command
restore_captive_portal =
    sh (codes "settings put global captive_portal_mode 1")
    ∷ sh (codes "settings put global captive_portal_use_https 1")
    ∷ sh (codes "settings delete global captive_portal_server 2>/dev/null || true")
    ∷ sh (codes "settings delete global captive_portal_http_url 2>/dev/null || true")
    ∷ sh (codes "settings delete global captive_portal_https_url 2>/dev/null || true")
    ∷ []
