-- ===== src/Api/Handlers.antt =====
-- internal/api/api.go: the handlers on profiles. What is loaded shares its array with the server's
-- copy, so that a change shows there before it is saved.
use ssc.Base.{
  ℕ, Bool, true, false, List, [], ◌∷◌, Option, none, some, if◌then◌else◌, Bytes, ◌&&◌, ltb, length,
}
use ssc.Config.Types.{Profile, ProfilesFile, SaveProfileRequest, select_by_id, delete_profile}
use ssc.Config.Files.{Codec, Disk, FileError, Loaded, ok, err, save_profiles, load_profiles}
use ssc.Api.Upsert.{upsert_profile}
use ssc.Api.Server.{Server, Io, Response, failed, profiles_are, selected, deleted, is_post}

abbrev pub keep_loaded : Server → Loaded ProfilesFile → Server × Loaded ProfilesFile
keep_loaded srv (ok pf) = (record srv { pf = some pf }, ok pf)
keep_loaded srv (err e) = (srv, err e)

-- `ReloadProfiles`
unfoldable pub reload_profiles : Codec ProfilesFile → Server → Server × Loaded ProfilesFile
reload_profiles codec srv = keep_loaded srv (load_profiles codec srv.disk srv.pf_path)

abbrev pub keep_saved : Server → ProfilesFile → Disk × Option FileError → Server × Bool
keep_saved srv pf (disk, none) = (record srv { disk = disk; pf = some pf }, true)
keep_saved srv pf (disk, some e) = (record srv { disk = disk }, false)

-- `SaveProfiles` of the server
unfoldable pub store_profiles : Codec ProfilesFile → Io → Server → ProfilesFile → Server × Bool
store_profiles codec io srv pf =
    keep_saved srv pf (save_profiles codec srv.disk srv.pf_path pf io.write io.renames)

-- What a slice of `olds` shows after `news` was written to the array that it shares.
unfoldable pub overlay : List Profile → List Profile → List Profile
overlay news [] = []
overlay [] (o ∷ olds) = o ∷ olds
overlay (n ∷ news) (o ∷ olds) = n ∷ overlay news olds

-- `append` moves a slice that has no room left to a new array.
unfoldable pub shared : Bool → List Profile → List Profile → List Profile
unfolding overlay
shared moves news olds =
    if moves && ltb (length olds) (length news) then olds else overlay news olds

-- A change of the profiles in memory, and whether it succeeds.
abbrev pub Change : Type 0
Change = ProfilesFile → ProfilesFile × Bool

abbrev pub settle : {E : Type 0} → ProfilesFile × Option E → ProfilesFile × Bool
settle (pf, none) = (pf, true)
settle (pf, some e) = (pf, false)

abbrev pub show : Server → Bool → ProfilesFile → ProfilesFile → Server
show srv moves old new = record srv {
  pf = some (record old { profiles = shared moves new.profiles old.profiles });
}

abbrev pub save_if : Codec ProfilesFile → Io → Server → ProfilesFile × Bool → Server × Bool
save_if codec io srv (pf, true) = store_profiles codec io srv pf
save_if codec io srv (pf, false) = (srv, false)

abbrev pub change_loaded :
    Codec ProfilesFile → Io → Change → Server × Loaded ProfilesFile → Server × Bool
change_loaded codec io op (srv, err e) = (srv, false)
change_loaded codec io op (srv, ok pf) = save_if codec io (show srv io.moves pf (op pf).0) (op pf)

-- the part that the three handlers share: reload, change, save
unfoldable pub change_profiles : Codec ProfilesFile → Io → Change → Server → Server × Bool
unfolding reload_profiles store_profiles
change_profiles codec io op srv = change_loaded codec io op (reload_profiles codec srv)

abbrev pub answer : Response → Server × Bool → Server × Response
answer good (srv, true) = (srv, good)
answer good (srv, false) = (srv, failed 400)

abbrev pub select_change : Bytes → Change
select_change id pf = settle (select_by_id id pf)

abbrev pub delete_change : Bytes → Change
delete_change id pf = settle (delete_profile id pf)

abbrev pub save_change : SaveProfileRequest → ℕ → Change
save_change req clock pf = settle (upsert_profile pf req clock)

-- `handleProfileSelect`; the body is the identifier and whether to restart
unfoldable pub handle_profile_select :
    Codec ProfilesFile → Io → Server → Bytes → Option (Bytes × Bool) → Server × Response
unfolding change_profiles
handle_profile_select codec io srv method none = (srv, failed (if is_post method then 400 else 405))
handle_profile_select codec io srv method (some (id, restart)) =
    if is_post method
    then answer (selected id restart) (change_profiles codec io (select_change id) srv)
    else (srv, failed 405)

-- `handleProfileDelete`
unfoldable pub handle_profile_delete :
    Codec ProfilesFile → Io → Server → Bytes → Option Bytes → Server × Response
unfolding change_profiles
handle_profile_delete codec io srv method none = (srv, failed (if is_post method then 400 else 405))
handle_profile_delete codec io srv method (some id) =
    if is_post method
    then answer (deleted id) (change_profiles codec io (delete_change id) srv)
    else (srv, failed 405)

-- `handleProfileSave`; the answer holds the identifier of the request, as it was sent
unfoldable pub handle_profile_save :
    Codec ProfilesFile → Io → Server → Bytes → Option SaveProfileRequest → Server × Response
unfolding change_profiles
handle_profile_save codec io srv method none = (srv, failed (if is_post method then 400 else 405))
handle_profile_save codec io srv method (some req) =
    if is_post method
    then answer (selected req.id req.restart)
        (change_profiles codec io (save_change req io.clock) srv)
    else (srv, failed 405)

abbrev list_answer : Server × Loaded ProfilesFile → Server × Response
list_answer (srv, ok pf) = (srv, profiles_are pf)
list_answer (srv, err e) = (srv, failed 500)

-- `handleProfiles`
unfoldable pub handle_profiles : Codec ProfilesFile → Server → Server × Response
unfolding reload_profiles
handle_profiles codec srv = list_answer (reload_profiles codec srv)
