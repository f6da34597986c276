-- ===== src/Api/Coherence.antt =====
-- internal/api/api.go: the server's copies agree with the files after the handlers.
use mathlib.Core.Path.{subst, sym}
use ssc.Base.{
  ◌≡◌, ◌⊎◌, inl, inr, refl, ◌≢◌, Bool, true, false, Option, none, some, Bytes, codes, All, text_eq,
}
use ssc.Config.{Config, normalize}
use ssc.Config.Types.{ProfilesFile, SaveProfileRequest}
use ssc.Config.Files.{
  Codec, RoundTrips, Disk, FileError, Loaded, ok, err, load_config, save_profiles, load_profiles,
  load,
}
use ssc.Config.Files.Atomic.{save_profiles_cases}
use ssc.Api.Complete.{Complete}
use ssc.Api.Stored.{upsert_profile-Complete}
use ssc.Api.Upsert.{upsert_profile}
use ssc.Api.Server.{Server, Io, Response, failed, config_saved, selected, get_config}
use ssc.Api.Handlers.{
  reload_profiles, store_profiles, keep_saved, Change, show, save_if, change_profiles, answer,
  settle, save_change, handle_profile_save,
}

-- How a change of the file ends: it is saved, and the server's copy and the file are `new`, or it
-- is not, and the file is as it was.
abbrev pub Saved : Codec ProfilesFile → Server → ProfilesFile → Server × Bool → Type 0
Saved codec srv new r =
    ((r.1 ≡ true) × (r.0.pf ≡ some new) × (load_profiles codec r.0.disk r.0.pf_path ≡ ok new))
    ⊎ ((r.1 ≡ false) × (r.0.pf_path ≡ srv.pf_path) × (r.0.disk srv.pf_path ≡ srv.disk srv.pf_path))

store_profiles-Saved :
    (codec : Codec ProfilesFile) (io : Io) (srv : Server) (pf : ProfilesFile)
    → RoundTrips codec pf
    → Saved codec srv pf (store_profiles codec io srv pf)
unfolding store_profiles
store_profiles-Saved codec io srv pf rt =
    kept (save_profiles codec srv.disk srv.pf_path pf io.write io.renames)
      (save_profiles_cases codec srv.disk srv.pf_path pf io.write io.renames srv.pf_path rt).0
  where
    kept :
        (r : Disk × Option FileError)
        → ((r.1 ≡ none) × (load_profiles codec r.0 srv.pf_path ≡ ok pf))
          ⊎ ((r.1 ≢ none) × (r.0 srv.pf_path ≡ srv.disk srv.pf_path))
        → Saved codec srv pf (keep_saved srv pf r)
    kept (disk, none) (inl (_, loads)) = inl (refl, refl, loads)
    kept (disk, none) (inr (n, _)) = absurd (n refl)
    kept (disk, some e) (inl (n, _)) = cc
    kept (disk, some e) (inr (_, same)) = inr (refl, refl, same)

save_if-Saved :
    (codec : Codec ProfilesFile) (io : Io) (srv : Server) (p : ProfilesFile × Bool)
    → RoundTrips codec p.0
    → Saved codec srv p.0 (save_if codec io srv p)
save_if-Saved codec io srv (pf, true) rt = store_profiles-Saved codec io srv pf rt
save_if-Saved codec io srv (pf, false) rt = inr (refl, refl, refl)

-- If the file loads as `old` and the encoder's text of the changed profiles reads back, then however
-- the file system behaves, a handler's change ends in one of two ways: success, with the server's copy
-- and the file both the changed profiles, or failure, with the file's content as it was.
pub change_profiles-Saved :
    (codec : Codec ProfilesFile) (io : Io) (op : Change) (srv : Server) (old : ProfilesFile)
    → load_profiles codec srv.disk srv.pf_path ≡ ok old
    → RoundTrips codec (op old).0
    → Saved codec srv (op old).0 (change_profiles codec io op srv)
unfolding change_profiles reload_profiles
change_profiles-Saved codec io op srv old h rt = rw h (
    save_if-Saved codec io (show (record srv { pf = some old }) io.moves old (op old).0) (op old)
      rt)

load-same :
    (codec : Codec ProfilesFile) (d e : Disk) (path : Bytes)
    → d path ≡ e path
    → load_profiles codec d path ≡ load_profiles codec e path
unfolding load_profiles load
load-same codec d e path h = rw (h, load)

-- the profiles that a file loads as are complete
abbrev pub AllComplete : Loaded ProfilesFile → Type 0
AllComplete (ok pf) = All Complete pf.profiles
AllComplete (err e) = Unit

settle-profiles :
    {E : Type 0} (r : ProfilesFile × Option E)
    → All Complete r.0.profiles
    → All Complete (settle r).0.profiles
settle-profiles (pf, none) h = h
settle-profiles (pf, some e) h = h

Saved-AllComplete :
    (codec : Codec ProfilesFile) (srv : Server) (old new : ProfilesFile) (r : Server × Bool)
    → load_profiles codec srv.disk srv.pf_path ≡ ok old
    → All Complete old.profiles
    → All Complete new.profiles
    → Saved codec srv new r
    → AllComplete (load_profiles codec r.0.disk r.0.pf_path)
Saved-AllComplete codec srv old new r h a b (inl (_, _, loads)) = rw loads b
Saved-AllComplete codec srv old new r h a b (inr (_, p, same)) =
    rw p (rw (load-same codec r.0.disk srv.disk srv.pf_path same) (rw h a))

answer-server : (good : Response) (r : Server × Bool) → (answer good r).0 ≡ r.0
answer-server good (srv, true) = refl
answer-server good (srv, false) = refl

-- If every profile of the file is complete and the encoder's text reads back, then after a request to
-- save a profile, with any outcome, every profile of the file is complete: an SSH server with a host and
-- a user that are not blank and a port from 1 to 65535, a mode, an endpoint that `dialEndpoint` finds,
-- and the TLS settings exactly if its transport uses TLS.
pub handle_profile_save-AllComplete :
    (codec : Codec ProfilesFile) (io : Io) (srv : Server) (req : SaveProfileRequest)
    (old : ProfilesFile)
    → load_profiles codec srv.disk srv.pf_path ≡ ok old
    → RoundTrips codec (save_change req io.clock old).0
    → All Complete old.profiles
    → AllComplete (
        load_profiles codec
          (handle_profile_save codec io srv (codes "POST") (some req)).0.disk
          (handle_profile_save codec io srv (codes "POST") (some req)).0.pf_path)
unfolding handle_profile_save text_eq
handle_profile_save-AllComplete codec io srv req old h rt a =
    subst (λ s. AllComplete (load_profiles codec s.disk s.pf_path))
      (sym (
        answer-server (selected req.id req.restart)
          (change_profiles codec io (save_change req io.clock) srv)))
      (Saved-AllComplete codec srv old (save_change req io.clock old).0
        (change_profiles codec io (save_change req io.clock) srv) h a
        (settle-profiles (upsert_profile old req io.clock)
          (upsert_profile-Complete old req io.clock a))
        (change_profiles-Saved codec io (save_change req io.clock) srv old h rt))

-- How a patch of the configuration ends.
abbrev pub Patched : Codec Config → Server → Config → Bool → Server × Response → Type 0
Patched codec srv next restart r =
    ((r.1 ≡ config_saved next restart)
      × (get_config r.0 ≡ next)
      × (load_config codec r.0.disk r.0.cfg_path ≡ ok (normalize next)))
    ⊎ ((r.1 ≡ failed 500)
        × (get_config r.0 ≡ get_config srv)
        × (r.0.disk srv.cfg_path ≡ srv.disk srv.cfg_path))
