-- ===== src/Iptables/Rules.antt =====
-- internal/iptables/iptables.go: the commands whose results are not looked at, as lists, and
-- `cleanupRules`.
use ssc.Base.{
  ℕ, zero, suc, Bool, List, [], ◌∷◌, ◌++◌, if◌then◌else◌, Bytes, codes, is_empty, trim_space, ℤ,
}
use ssc.Iptables.{
  flush, destroy, Command, ipt, Log, World, run, run_all, words, del_rule, rule_exists, jump,
}

-- `Config`
pub record RulesConfig : Type 0 where
  pub chains_prefix : Bytes
  pub tcp_port : ℤ
  pub api_port : ℤ
  pub socks_port : ℤ
  pub dns_forward_port : ℤ
  pub dns_hijack : Bool
  pub hotspot : Bool
  pub hotspot_dns : Bool
  pub hotspot_ifaces : List Bytes

abbrev pub default_ifaces : List Bytes
default_ifaces = words (codes "wlan+ swlan+ ap+ rndis+ ncm+ bt-pan+")

abbrev pub local_cidrs : List Bytes
local_cidrs = words (
    codes
      "0.0.0.0/8 10.0.0.0/8 100.64.0.0/10 127.0.0.0/8 169.254.0.0/16 172.16.0.0/12 192.168.0.0/16 224.0.0.0/4 240.0.0.0/4")

abbrev pub prefix_of : RulesConfig → Bytes
prefix_of cfg = if is_empty cfg.chains_prefix then codes "SSHC" else cfg.chains_prefix

abbrev pub ifaces_of : List Bytes → List Bytes
ifaces_of ifaces = if is_empty ifaces then default_ifaces else ifaces

abbrev pub out_chain : Bytes → Bytes
out_chain prefix = prefix ++ codes "_OUT"

abbrev pub pre_chain : Bytes → Bytes
pre_chain prefix = prefix ++ codes "_PRE"

abbrev pub dns_chain : Bytes → Bytes
dns_chain prefix = prefix ++ codes "_DNS"

-- `allChains`
abbrev pub all_chains : Bytes → List Bytes
all_chains prefix =
    out_chain prefix
    ∷ pre_chain prefix
    ∷ dns_chain prefix
    ∷ (prefix ++ codes "_MOUT")
    ∷ (prefix ++ codes "_OUTPUT")
    ∷ (prefix ++ codes "_PREROUTING")
    ∷ (prefix ++ codes "_PROXY")
    ∷ (prefix ++ codes "_HOTSPOT")
    ∷ (prefix ++ codes "_HOTSPOT_DNS")
    ∷ (prefix ++ codes "_TPROXY")
    ∷ []

abbrev pub nat : Bytes
nat = codes "nat"

abbrev pub mangle : Bytes
mangle = codes "mangle"

abbrev pub on_iface : Bytes → Bytes → List Bytes
on_iface iface s = codes "-i" ∷ iface ∷ words s

-- the commands for each interface that is not blank
unfoldable pub for_ifaces : (Bytes → List Command) → List Bytes → List Command
for_ifaces commands [] = []
for_ifaces commands (iface ∷ more) =
    let rest = for_ifaces commands more in
    let name = trim_space iface in if is_empty name then rest else commands name ++ rest

abbrev pub detach_iface : Bytes → Bytes → List Command
detach_iface ch iface =
    del_rule nat (codes "PREROUTING") (on_iface iface (codes "-p tcp -j") ++ ch ∷ [])
    ∷ del_rule nat (codes "PREROUTING") (on_iface iface (codes "-j") ++ ch ∷ [])
    ∷ del_rule nat (codes "PREROUTING") (on_iface iface (codes "-p udp --dport 53 -j") ++ ch ∷ [])
    ∷ []

abbrev pub detach_first : Bytes → List Command
detach_first ch =
    del_rule nat (codes "OUTPUT") (jump (codes "-p tcp -j") ch)
    ∷ del_rule nat (codes "OUTPUT") (jump (codes "-j") ch)
    ∷ del_rule nat (codes "OUTPUT") (jump (codes "-p udp --dport 53 -j") ch)
    ∷ del_rule nat (codes "PREROUTING") (jump (codes "-p tcp -j") ch)
    ∷ del_rule nat (codes "PREROUTING") (jump (codes "-j") ch)
    ∷ del_rule nat (codes "PREROUTING") (jump (codes "-p udp --dport 53 -j") ch)
    ∷ []

abbrev pub detach_last : Bytes → List Command
detach_last ch =
    del_rule mangle (codes "PREROUTING") (jump (codes "-j") ch)
    ∷ del_rule mangle (codes "OUTPUT") (jump (codes "-j") ch)
    ∷ ipt flush nat ch []
    ∷ ipt destroy nat ch []
    ∷ ipt flush mangle ch []
    ∷ ipt destroy mangle ch []
    ∷ []

abbrev pub detach_chain : List Bytes → Bytes → List Command
detach_chain ifaces ch = detach_first ch ++ for_ifaces (detach_iface ch) ifaces ++ detach_last ch

unfoldable pub detach_chains : List Bytes → List Bytes → List Command
unfolding for_ifaces
detach_chains ifaces [] = []
detach_chains ifaces (ch ∷ chs) = detach_chain ifaces ch ++ detach_chains ifaces chs

abbrev pub divert_args : List Bytes
divert_args = words (codes "-p tcp -m socket --transparent -j DIVERT")

abbrev pub last_cleanup : List Command
last_cleanup =
    ipt flush mangle (codes "DIVERT") []
    ∷ ipt destroy mangle (codes "DIVERT") []
    ∷ del_rule (codes "filter") (codes "FORWARD") (words (codes "-j ACCEPT"))
    ∷ []

-- what `cleanupRules` does before it unblocks QUIC
unfoldable pub cleanup_commands : RulesConfig → List Command
unfolding detach_chains
cleanup_commands cfg =
    let prefix = prefix_of cfg in
    (del_rule nat (codes "OUTPUT") (jump (codes "-p tcp -j") (out_chain prefix))
      ∷ del_rule mangle (codes "PREROUTING") (jump (codes "-j") (pre_chain prefix))
      ∷ del_rule mangle (codes "PREROUTING") divert_args
      ∷ [])
    ++ detach_chains (ifaces_of cfg.hotspot_ifaces) (all_chains prefix)
    ++ last_cleanup

abbrev pub quic_args : Bytes → Bytes → List Bytes
quic_args port target = words (codes "-p udp --dport") ++ port ∷ codes "-j" ∷ words target

abbrev pub drop_quic : Bytes → List Bytes
drop_quic port = quic_args port (codes "DROP")

abbrev pub reject_quic : Bytes → List Bytes
reject_quic port = quic_args port (codes "REJECT --reject-with icmp-port-unreachable")

-- a loop of `unblockQUIC`, for at most `rounds` rounds
unfoldable pub remove_rule : World → ℕ → List Bytes → Log → Log
remove_rule w zero args log = log
remove_rule w (suc rounds) args log =
    let filter = codes "filter" in
    let asked = run (rule_exists filter (codes "OUTPUT") args) log in
    let rest = remove_rule w rounds args (run (del_rule filter (codes "OUTPUT") args) asked) in
    if w log (rule_exists filter (codes "OUTPUT") args) then rest else asked

-- `unblockQUIC`
unfoldable pub unblock_quic : World → Log → Log
unfolding remove_rule
unblock_quic w log =
    let a =
      remove_rule w 4 (reject_quic (codes "443")) (remove_rule w 4 (drop_quic (codes "443")) log) in
    remove_rule w 4 (reject_quic (codes "80")) (remove_rule w 4 (drop_quic (codes "80")) a)

-- `cleanupRules`
unfoldable pub cleanup_rules : World → RulesConfig → Log → Log
unfolding cleanup_commands unblock_quic
cleanup_rules w cfg log = unblock_quic w (run_all (cleanup_commands cfg) log)
