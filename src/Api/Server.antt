-- ===== src/Api/Server.antt =====
-- internal/api/api.go: the server's copies of the configuration and the profiles, and the handlers
-- that change them. A request is its method and its decoded body, `none` if it does not decode.
use ssc.Base.{
  ℕ, Bool, List, [], Option, none, some, if◌then◌else◌, Bytes, codes, ℤ, non_pos, ◌||◌, text_eq,
}
use ssc.Config.{Config, default_config}
use ssc.Config.Types.{Profile, ProfilesFile}
use ssc.Config.Files.{Codec, Disk, WriteOutcome, FileError, save_config}
use ssc.Transport.{normalize_dns_mode}

pub record Server : Type 0 where
  pub cfg : Option Config
  pub pf : Option ProfilesFile
  pub disk : Disk
  pub cfg_path : Bytes
  pub pf_path : Bytes

-- The decoded bodies of the requests.
pub record DnsPatch : Type 0 where
  pub mode : Bytes
  pub timeout_seconds : ℤ
  pub servers : List Bytes

pub record HotspotPatch : Type 0 where
  pub enabled : Option Bool
  pub tcp : Option Bool

pub record ConfigPatch : Type 0 where
  pub dns : Option DnsPatch
  pub hotspot : Option HotspotPatch
  pub restart : Bool

pub data Response : Type 0 where
  failed : ℕ → Response
  config_is : Config → Response
  config_saved : Config → Bool → Response
  profiles_are : ProfilesFile → Response
  current : Profile → Response
  selected : Bytes → Bool → Response
  deleted : Bytes → Response

-- How the calls of the file system end, and the clock.
pub record Io : Type 0 where
  pub write : WriteOutcome
  pub renames : Bool
  pub clock : ℕ
  pub moves : Bool

abbrev pub is_post : Bytes → Bool
is_post method = text_eq method (codes "POST")

-- `GetConfig`
unfoldable pub get_config : Server → Config
get_config srv = elim srv.cfg [ none ↦ default_config | some cfg ↦ cfg ]

-- `GetProfiles`
unfoldable pub get_profiles : Server → ProfilesFile
get_profiles srv = elim srv.pf [ none ↦ record { selected_id = []; profiles = [] } | some pf ↦ pf ]

abbrev pub keep_config : Server → Config → Disk × Option FileError → Server × Option FileError
keep_config srv cfg (disk, none) = (record srv { disk = disk; cfg = some cfg }, none)
keep_config srv cfg (disk, some e) = (record srv { disk = disk }, some e)

-- `UpdateConfig`
unfoldable pub update_config : Codec Config → Io → Server → Config → Server × Option FileError
update_config codec io srv cfg =
    keep_config srv cfg (save_config codec srv.disk srv.cfg_path cfg io.write io.renames)

abbrev or_old : Option Bool → Bool → Bool
or_old none old = old
or_old (some b) old = b

abbrev patch_dns : Option DnsPatch → Config → Config
patch_dns none cfg = cfg
patch_dns (some d) cfg =
    let mode = normalize_dns_mode d.mode in
    record cfg {
      dns = record cfg.dns {
        mode = mode;
        timeout_sec = if non_pos d.timeout_seconds then cfg.dns.timeout_sec else d.timeout_seconds;
        servers = if text_eq mode (codes "custom") then d.servers else cfg.dns.servers;
      };
    }

abbrev patch_hotspot : Option HotspotPatch → Config → Config
patch_hotspot none cfg = cfg
patch_hotspot (some h) cfg = record cfg {
  hotspot = record cfg.hotspot {
    enabled = or_old h.enabled cfg.hotspot.enabled;
    tcp = or_old h.tcp cfg.hotspot.tcp;
  };
}

-- `Apply patch`
unfoldable pub apply_patch : ConfigPatch → Config → Config
apply_patch req cfg = patch_hotspot req.hotspot (patch_dns req.dns cfg)

abbrev pub config_answer : Config → Bool → Server × Option FileError → Server × Response
config_answer next restart (srv, none) = (srv, config_saved next restart)
config_answer next restart (srv, some e) = (srv, failed 500)

abbrev pub patch_config : Codec Config → Io → Server → Option ConfigPatch → Server × Response
patch_config codec io srv none = (srv, failed 400)
patch_config codec io srv (some req) =
    let next = apply_patch req (get_config srv) in
    config_answer next req.restart (update_config codec io srv next)

-- `handleConfig`
unfoldable pub handle_config :
    Codec Config → Io → Server → Bytes → Option ConfigPatch → Server × Response
unfolding get_config update_config apply_patch
handle_config codec io srv method body =
    if text_eq method (codes "GET")
    then (srv, config_is (get_config srv))
    else if is_post method || text_eq method (codes "PATCH")
    then patch_config codec io srv body
    else (srv, failed 405)
