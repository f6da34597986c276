-- ===== src/Iptables.antt =====
-- internal/iptables/iptables.go: the commands that install and remove the rules. What the kernel
-- answers to a command is a function of the commands before it.
pub mod Rules
pub mod Leaks
pub mod Setup
pub mod Removals
pub mod Jumps
pub mod Inserted
pub mod Stages
pub mod Rollback
mod Examples
use Prim.Native.String.{String}
use ssc.Base.{
  ℕ, zero, suc, Bool, true, false, List, [], ◌∷◌, ◌++◌, if◌then◌else◌, Bytes, codes, ◌==◌, is_empty,
}

-- The operations of `iptables`: -A, -I, -D, -C, -F, -N, -X and -L.
pub data Verb : Type 0 where
  append insert delete check flush create destroy list : Verb

pub data Command : Type 0 where
  ipt : Verb → Bytes → Bytes → List Bytes → Command
  ip6t : Verb → Bytes → Bytes → List Bytes → Command
  sh : Bytes → Command
  sysctl : Bytes → Command

abbrev pub Log : Type 0
Log = List Command

-- whether a command exits with 0, after the commands of the log
abbrev pub World : Type 0
World = Log → Command → Bool

-- a command whose result is not looked at
abbrev pub run : Command → Log → Log
run c log = log ++ c ∷ []

abbrev pub run_all : List Command → Log → Log
run_all cs log = log ++ cs

-- the arguments in a text with single spaces between them
unfoldable pub words_from : Bytes → Bytes → List Bytes
words_from word [] = word ∷ []
words_from word (c ∷ s) =
    let more = words_from [] s in
    let longer = words_from (word ++ c ∷ []) s in if c == 32 then word ∷ more else longer

abbrev pub words : Bytes → List Bytes
words s = words_from [] s

-- `addRule`, `delRule`, and the command of `insRule` and of `ruleExists`
abbrev pub add_rule : Bytes → Bytes → List Bytes → Command
add_rule table chain args = ipt append table chain args

abbrev pub del_rule : Bytes → Bytes → List Bytes → Command
del_rule table chain args = ipt delete table chain args

abbrev pub ins_rule : Bytes → Bytes → List Bytes → Command
ins_rule table chain args = ipt insert table chain args

abbrev pub rule_exists : Bytes → Bytes → List Bytes → Command
rule_exists table chain args = ipt check table chain args

abbrev pub jump : Bytes → Bytes → List Bytes
jump s chain = words s ++ chain ∷ []

-- `ensureChain`
unfoldable pub ensure_chain : World → Bytes → Bytes → Log → Log
ensure_chain w table name log =
    let asked = run (ipt list table name (words (codes "-n"))) log in
    let there =
      if w log (ipt list table name (words (codes "-n")))
      then asked
      else run (ipt create table name []) asked in
    run (ipt flush table name []) there
