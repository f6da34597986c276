-- ===== src/Api/Examples.antt =====
-- The theorems on the dashboard's operations at concrete inputs, and tests.
use ssc.Base.{
  ◌≡◌, refl, true, false, [], ◌∷◌, ◌++◌, Bytes, codes, pos, some, none, text_eq, if◌then◌else◌,
}
use ssc.Config.{Config, default_config, normalize}
use ssc.Config.Types.{ProfilesFile}
use ssc.Config.Samples.{profile_of, two_profiles, sample_request}
use ssc.Config.Files.{Codec, RoundTrips, written, ok, load_profiles, load}
use ssc.Transport.{dial_endpoint, uses_tls, uses_http_proxy, chain_has}
use ssc.Api.Complete.{Complete}
use ssc.Api.Server.{Server, Io, ConfigPatch, apply_patch, get_config}
use ssc.Api.Handlers.{save_change, handle_profile_save, change_profiles, delete_change}
use ssc.Api.Coherence.{Saved, AllComplete, change_profiles-Saved, handle_profile_save-AllComplete}
use ssc.Api.Notify.{Subs}

sample-Complete : (id : Bytes) → Complete (profile_of id)
unfolding dial_endpoint uses_tls uses_http_proxy chain_has text_eq ssc.Base.trim_by
    ssc.Base.is_space ssc.Base.trim_end ssc.Base.drop_while
sample-Complete id = record {
  ssh_host = refl;
  ssh_port = refl;
  ssh_user = refl;
  has_mode = refl;
  host = codes "a.example";
  port = pos 22;
  dials = refl;
  has_tls = refl;
}

-- writes every value as one text and reads that text as `new`, any other as `old`
abbrev two_codec : {A : Type 0} → A → A → Codec A
two_codec old new = record {
  marshal = λ a. some (codes "new");
  unmarshal = λ b. if text_eq b (codes "new" ++ b'\n' ∷ []) then some new else some old;
}

two_codec-RoundTrips : {A : Type 0} (old new : A) → RoundTrips (two_codec old new) new
unfolding text_eq
two_codec-RoundTrips old new b e = let q : codes "new" ≡ b = cc in rw (← q)

abbrev server : Server
server = record {
  cfg = none;
  pf = none;
  disk = λ path. some (codes "old");
  cfg_path = codes "c.json";
  pf_path = codes "p.json";
}

abbrev calm : Io
calm = record { write = written; renames = true; clock = 7; moves = false }

loads_old :
    (new : ProfilesFile)
    → load_profiles (two_codec two_profiles new) server.disk server.pf_path ≡ ok two_profiles
unfolding load_profiles load text_eq
loads_old new = refl

abbrev deleting_codec : Codec ProfilesFile
deleting_codec = two_codec two_profiles (delete_change (codes "work") two_profiles).0

change_profiles-Saved_example :
    Saved deleting_codec server
      (delete_change (codes "work") two_profiles).0
      (change_profiles deleting_codec calm (delete_change (codes "work")) server)
change_profiles-Saved_example =
    change_profiles-Saved deleting_codec calm (delete_change (codes "work")) server two_profiles
      (loads_old (delete_change (codes "work") two_profiles).0)
      (two_codec-RoundTrips two_profiles (delete_change (codes "work") two_profiles).0)

abbrev saving_codec : Codec ProfilesFile
saving_codec = two_codec two_profiles (save_change sample_request 7 two_profiles).0

handle_profile_save-AllComplete_example : AllComplete (
    load_profiles saving_codec
      (handle_profile_save saving_codec calm server (codes "POST") (some sample_request)).0.disk
      (handle_profile_save saving_codec calm server (codes "POST") (some sample_request)).0.pf_path)
handle_profile_save-AllComplete_example =
    handle_profile_save-AllComplete saving_codec calm server sample_request two_profiles
      (loads_old (save_change sample_request 7 two_profiles).0)
      (two_codec-RoundTrips two_profiles (save_change sample_request 7 two_profiles).0)
      (sample-Complete (codes "home"), (sample-Complete (codes "work"), tt))

abbrev dns_patch : ConfigPatch
dns_patch = record {
  dns = some (record { mode = codes "Google"; timeout_seconds = pos 9; servers = [] });
  hotspot = none;
  restart = true;
}

abbrev patching_codec : Codec Config
patching_codec = two_codec default_config (normalize (apply_patch dns_patch (get_config server)))

abbrev two_subs : Subs
two_subs = record { next = 2; subs = (0, false) ∷ (1, false) ∷ [] }
