-- ===== src/Daemon/ModuleProp.antt =====
-- cmd/sshcustomd/main.go: `setModDesc`, which writes the status into the description of the
-- module, and the goroutine in `run` that calls it when the status has changed.
use ssc.Base.{
  Bool, Option, ℕ, List, [], ◌∷◌, ◌++◌, none, some, Bytes, codes, if◌then◌else◌, ◌==◌, text_eq,
  has_prefix,
}
use ssc.Config.Files.{Disk, put, WriteOutcome, written, failed}

-- `strings.Split(s, "\n")`
abbrev pub onto_first : ℕ → List Bytes → List Bytes
onto_first c [] = (c ∷ []) ∷ []
onto_first c (l ∷ lines) = (c ∷ l) ∷ lines

unfoldable pub split_newline : Bytes → List Bytes
split_newline [] = [] ∷ []
split_newline (c ∷ s) =
    let rest = split_newline s in if c == b'\n' then [] ∷ rest else onto_first c rest

-- `strings.Join(lines, "\n")`
unfoldable pub join_newline : List Bytes → Bytes
join_newline [] = []
join_newline (l ∷ []) = l
join_newline (l ∷ m ∷ lines) = l ++ b'\n' ∷ join_newline (m ∷ lines)

unfoldable pub desc_of : Bytes → Bytes
desc_of status =
    if text_eq status (codes "running")
    then codes "description=[*] SSHCustom-Magisk - running"
    else if text_eq status (codes "standby")
    then codes "description=[~] SSHCustom-Magisk - standby"
    else codes "description=[ ] SSHCustom-Magisk - disconnected"

-- The first line with a description is replaced.
unfoldable pub set_desc : Bytes → List Bytes → List Bytes
set_desc desc [] = []
set_desc desc (l ∷ lines) =
    let rest = set_desc desc lines in
    if has_prefix l (codes "description=") then desc ∷ lines else l ∷ rest

unfoldable pub with_status : Bytes → Bytes → Bytes
unfolding split_newline join_newline desc_of set_desc
with_status status text = join_newline (set_desc (desc_of status) (split_newline text))

abbrev pub prop_path : Bytes
prop_path = codes "/data/adb/modules/sshcustom/module.prop"

-- what `os.WriteFile` leaves
abbrev pub left_by : WriteOutcome → Bytes → Option Bytes
left_by written text = some text
left_by (failed partial) text = partial

-- `setModDesc`; `none` is a file that cannot be read
unfoldable pub set_mod_desc : Bytes → Disk → WriteOutcome → Disk
unfolding with_status
set_mod_desc status disk w = elim (disk prop_path) [
  | none ↦ disk
  | some text ↦ put disk prop_path (left_by w (with_status status text))
]

-- a change of the state, and how the write that it leads to ends
pub record StateChange : Type 0 where
  pub connected : Bool
  pub running : Bool
  pub write : WriteOutcome

unfoldable pub status_at : StateChange → Bytes
status_at w =
    if w.connected
    then codes "running"
    else if w.running
    then codes "running"
    else codes "disconnected"

unfoldable pub show_status : List StateChange → Bytes → Disk → Disk
unfolding status_at set_mod_desc
show_status [] last disk = disk
show_status (w ∷ wakes) last disk =
    let status = status_at w in
    let same = show_status wakes last disk in
    let other = show_status wakes status (set_mod_desc status disk w.write) in
    if text_eq status last then same else other
