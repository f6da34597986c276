-- ===== src/Api/LogFiles.antt =====
-- What the requests on the log files and on the marker of the automatic start do to the files.
use ssc.Base.{
  ◌≤◌, ◌≡◌, refl, ◌⊎◌, Bool, true, false, List, [], ◌∷◌, ◌++◌, Option, none, some, Bytes, codes,
  text_eq, length, text_eq_refl,
}
use ssc.Config.Files.{Disk, put, WriteOutcome, written}
use ssc.Api.Logs.{
  Reply, log_text, cleared, enabled, bad_request, not_found, not_allowed, internal_error, log_path,
  max_read, handle_autostart, marker_path,
}

-- the last 64 KiB of a content, or all of it
abbrev pub IsTail : Bytes → Bytes → Type 0
IsTail b t =
    ((front : Bytes) × (front ++ t ≡ b)) × (length t ≤ max_read) × (length b ≤ max_read → t ≡ b)

abbrev pub IsText : Option Bytes → Reply → Type 0
IsText content (log_text t) = (b : Bytes) × (content ≡ some b) × IsTail b t
IsText content (cleared name) = ⊥
IsText content (enabled b) = ⊥
IsText content bad_request = Unit
IsText content not_found = Unit
IsText content not_allowed = Unit
IsText content internal_error = Unit

-- the content of the log that the first part of the path names
abbrev pub named_content : Bytes → Disk → List Bytes → Option Bytes
named_content run_dir disk [] = none
named_content run_dir disk (name ∷ parts) = disk (log_path run_dir name)

-- The outcomes of a request: nothing changes and what is shown is the end of the log that is named,
-- or the log is emptied.
abbrev pub Outcome : Bytes → Disk → Bytes → List Bytes → Disk × Reply → Type 0
Outcome run_dir disk method parts r =
    ((r.0 ≡ disk) × IsText (named_content run_dir disk parts) r.1)
    ⊎ ((name : Bytes) × (parts ≡ name ∷ codes "clear" ∷ [])
        × (method ≡ codes "POST")
        × (r ≡ (put disk (log_path run_dir name) (some []), cleared name)))

-- What a request sets, the next one reports, if the files can be changed.
pub handle_autostart-handle_autostart :
    (run_dir : Bytes) (disk : Disk) (b : Bool) (w : WriteOutcome) (r : Bool)
    → (handle_autostart run_dir
        (handle_autostart run_dir disk (codes "POST") (some b) written true).0
        (codes "GET")
        none
        w
        r).1
      ≡ enabled b
unfolding handle_autostart text_eq
handle_autostart-handle_autostart run_dir disk true w r =
    rw (text_eq_refl (marker_path run_dir)) refl
handle_autostart-handle_autostart run_dir disk false w r =
    rw (text_eq_refl (marker_path run_dir)) refl
