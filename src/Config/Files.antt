-- ===== src/Config/Files.antt =====
-- internal/config/config.go: loading and saving. The encoder and the file system are parameters: a
-- disk maps a path to the file's bytes, and each system call's outcome is an argument.
pub mod Atomic
use ssc.Base.{
  Bool, true, false, [], ◌∷◌, ◌++◌, Option, none, some, ◌≡◌, if◌then◌else◌, Bytes, codes, text_eq,
}
use ssc.Config.{Config, normalize}
use ssc.Config.Types.{ProfilesFile}

-- `encoding/json` for one type: `MarshalIndent`, and `Unmarshal` into a zero value.
pub record Codec (A : Type 0) : Type 0 where
  pub marshal : A → Option Bytes
  pub unmarshal : Bytes → Option A

-- What `Unmarshal` reads of the text that `MarshalIndent` wrote for a value, with the line feed that
-- the program appends, is that value.
abbrev pub RoundTrips : {A : Type 0} → Codec A → A → Type 0
RoundTrips codec a =
    (b : Bytes) → codec.marshal a ≡ some b → codec.unmarshal (b ++ b'\n' ∷ []) ≡ some a

abbrev pub Disk : Type 0
Disk = Bytes → Option Bytes

abbrev pub put : Disk → Bytes → Option Bytes → Disk
put disk path content q = if text_eq q path then content else disk q

-- How `os.WriteFile` ends; a failed call leaves any content in the file.
pub data WriteOutcome : Type 0 where
  written : WriteOutcome
  failed : Option Bytes → WriteOutcome

pub data FileError : Type 0 where
  read_failed json_failed write_failed rename_failed : FileError

pub data Loaded (A : Type 0) : Type 0 where
  ok : A → Loaded A
  err : FileError → Loaded A

abbrev pub tmp_of : Bytes → Bytes
tmp_of path = path ++ codes ".tmp"

-- `os.Rename(tmp, path)`
unfoldable pub rename : Disk → Bytes → Bytes → Bool → Disk × Option FileError
rename disk from to true = (put (put disk to (disk from)) from none, none)
rename disk from to false = (disk, some rename_failed)

-- the part that `SaveConfig` and `SaveProfiles` share: the temporary file and the renaming
unfoldable pub replace : Disk → Bytes → Bytes → WriteOutcome → Bool → Disk × Option FileError
unfolding rename
replace disk path content written renames =
    rename (put disk (tmp_of path) (some content)) (tmp_of path) path renames
replace disk path content (failed partial) renames =
    (put disk (tmp_of path) partial, some write_failed)

module _ {A : Type 0} (codec : Codec A) where
  save : Disk → Bytes → A → WriteOutcome → Bool → Disk × Option FileError
  unfolding replace
  save disk path a w renames = elim (codec.marshal a) [
    | none ↦ (disk, some json_failed)
    | some b ↦ replace disk path (b ++ b'\n' ∷ []) w renames
  ]

  unfoldable pub load : Disk → Bytes → Loaded A
  load disk path = elim (disk path) [
    | none ↦ err read_failed
    | some text ↦ elim (codec.unmarshal text) [ none ↦ err json_failed | some a ↦ ok a ]
  ]

-- `SaveConfig`
unfoldable pub save_config :
    Codec Config → Disk → Bytes → Config → WriteOutcome → Bool → Disk × Option FileError
unfolding save
save_config codec disk path cfg w renames = save codec disk path (normalize cfg) w renames

-- `LoadConfig`
unfoldable pub load_config : Codec Config → Disk → Bytes → Loaded Config
unfolding load
load_config codec disk path = elim (load codec disk path) [
  | ok cfg ↦ ok (normalize cfg)
  | err e ↦ err e
]

-- `SaveProfiles`
unfoldable pub save_profiles :
    Codec ProfilesFile → Disk → Bytes → ProfilesFile → WriteOutcome → Bool → Disk × Option FileError
unfolding save
save_profiles codec disk path pf w renames = save codec disk path pf w renames

-- `LoadProfiles`
unfoldable pub load_profiles : Codec ProfilesFile → Disk → Bytes → Loaded ProfilesFile
unfolding load
load_profiles codec disk path = load codec disk path
