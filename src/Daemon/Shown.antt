-- ===== src/Daemon/Shown.antt =====
-- cmd/sshcustomd/main.go: the module's description against the state that it should show.
use ssc.Base.{
  ◌≡◌, refl, ap, ◌∙◌, sym, false, List, [], ◌∷◌, Option, none, some, Bytes, codes, if◌then◌else◌,
  if_holds, if_decided, All, text_eq, text_eq_iff, text_eq_refl,
}
use mathlib.Core.Option
use ssc.Daemon.Described.{with_status-with_status}
use ssc.Config.Files.{Disk, put, WriteOutcome, written}
use ssc.Daemon.ModuleProp.{
  with_status, prop_path, left_by, set_mod_desc, StateChange, status_at, show_status,
}

-- the file when its description shows a status
abbrev pub showing : Bytes → Option Bytes → Option Bytes
showing status file = Option.map (with_status status) file

showing-showing : (s t : Bytes) (file : Option Bytes) → showing s (showing t file) ≡ showing s file
showing-showing s t none = refl
showing-showing s t (some text) = ap some (with_status-with_status s t text)

set_mod_desc-showing :
    (status : Bytes) (disk : Disk) (w : WriteOutcome)
    → w ≡ written
    → set_mod_desc status disk w prop_path ≡ showing status (disk prop_path)
unfolding set_mod_desc
set_mod_desc-showing status disk w h = by_file (disk prop_path) refl
  where
    by_file :
        (file : Option Bytes)
        → disk prop_path ≡ file
        → (elim file as (λ x. Disk) [
          | none ↦ disk
          | some text ↦ put disk prop_path (left_by w (with_status status text))
        ])
            prop_path
          ≡ showing status file
    by_file none k = k
    by_file (some text) k =
        ap (λ b. if b then left_by w (with_status status text) else disk prop_path)
          (text_eq_refl prop_path)
        ∙ ap (λ o. left_by o (with_status status text)) h

-- the status after some changes of the state
abbrev pub last_status : Bytes → List StateChange → Bytes
last_status last [] = last
last_status last (w ∷ wakes) = last_status (status_at w) wakes

show_status-showing :
    (wakes : List StateChange) (last : Bytes) (disk : Disk) (file : Option Bytes)
    → All (λ w. w.write ≡ written) wakes
    → disk prop_path ≡ showing last file
    → show_status wakes last disk prop_path ≡ showing (last_status last wakes) file
unfolding show_status
show_status-showing [] last disk file h k = k
show_status-showing (w ∷ wakes) last disk file (h, hs) k =
    if_decided (λ (d : Disk). d prop_path ≡ showing (last_status (status_at w) wakes) file)
      (text_eq (status_at w) last) _ _
      (λ e.
        show_status-showing wakes last disk file hs k
        ∙ ap (λ s. showing (last_status s wakes) file) (sym ((text_eq_iff (status_at w) last).0 e)))
      (λ _.
        show_status-showing wakes (status_at w) (set_mod_desc (status_at w) disk w.write) file hs (
          set_mod_desc-showing (status_at w) disk w.write h
          ∙ ap (showing (status_at w)) k
          ∙ showing-showing (status_at w) last file))

status_at-some : (w : StateChange) → text_eq (status_at w) [] ≡ false
unfolding status_at text_eq
status_at-some w =
    if_holds (λ s. text_eq s [] ≡ false) w.connected (codes "running")
      (if w.running then codes "running" else codes "disconnected") refl
      (if_holds (λ s. text_eq s [] ≡ false) w.running (codes "running") (codes "disconnected") refl
        refl)

-- If the writes succeed, then after changes of the state, at least one, the description that the
-- goroutine has left in the module's file is that of the status after the last change: the file is
-- as if only that status had been written into what it was at the beginning. Writes by the rest of
-- the program in between are not part of this.
pub show_status-shows :
    (w : StateChange) (wakes : List StateChange) (disk : Disk)
    → All (λ k. k.write ≡ written) (w ∷ wakes)
    → show_status (w ∷ wakes) [] disk prop_path
      ≡ showing (last_status [] (w ∷ wakes)) (disk prop_path)
unfolding show_status
show_status-shows w wakes disk (h, hs) =
    if_decided
      (λ (d : Disk). d prop_path ≡ showing (last_status (status_at w) wakes) (disk prop_path))
      (text_eq (status_at w) []) _ _ (λ e. let some_text = status_at-some w in absurd (cc))
      (λ _.
        show_status-showing wakes (status_at w) (set_mod_desc (status_at w) disk w.write)
          (disk prop_path) hs (set_mod_desc-showing (status_at w) disk w.write h))
