-- ===== src/Api/Upsert.antt =====
-- internal/api/api.go: `upsertProfile`. The result is the file as it is left and the error.
use ssc.Base.{
  ℕ, Bool, false, List, [], ◌∷◌, ◌++◌, Option, none, some, if◌then◌else◌, Bytes, codes, non_pos,
  gt_nat, is_empty, ◌||◌, text_eq, trim_space,
}
use ssc.Config.Types.{Ssh, Profile, ProfilesFile, SaveProfileRequest, find, has_id, select_by_id}
use ssc.Config.Slug.{slugify, unique_profile_id}
use ssc.Transport.{normalize_mode}
use ssc.Api.Build.{build_transport}

pub data SaveError : Type 0 where
  host_required bad_port username_required invalid_mode : SaveError

unfoldable pub request_name : SaveProfileRequest → Bytes
request_name req =
    let name = trim_space req.name in if is_empty name then codes "SSHCustom Profile" else name

abbrev pub creating_new : SaveProfileRequest → Bool
creating_new req = is_empty (trim_space req.id)

-- the identifier under which the profile is stored; `nanos` is the clock
unfoldable pub stored_id : ProfilesFile → SaveProfileRequest → ℕ → Bytes
stored_id pf req nanos =
    if creating_new req
    then unique_profile_id pf (slugify (request_name req)) nanos
    else trim_space req.id

-- the four checks
unfoldable pub check_request : SaveProfileRequest → Option SaveError
check_request req =
    if is_empty (trim_space req.ssh.host)
    then some host_required
    else if non_pos req.ssh.port || gt_nat req.ssh.port 65535
    then some bad_port
    else if is_empty (trim_space req.ssh.username)
    then some username_required
    else if is_empty (normalize_mode req.mode)
    then some invalid_mode
    else none

abbrev password_of : Option Profile → Bytes
password_of none = []
password_of (some p) = p.ssh.password

-- the profile that has the place of the new one
abbrev pub existing : ProfilesFile → SaveProfileRequest → Bytes → Option Profile
existing pf req id = if creating_new req then none else find (has_id id) pf.profiles

abbrev pub stored_ssh : ProfilesFile → SaveProfileRequest → Bytes → Ssh
stored_ssh pf req id = record req.ssh {
  password =
      if is_empty req.ssh.password then password_of (existing pf req id) else req.ssh.password;
  auth_type = if is_empty req.ssh.auth_type then codes "password" else req.ssh.auth_type;
}

unfoldable pub new_profile : ProfilesFile → SaveProfileRequest → Bytes → Profile
unfolding request_name
new_profile pf req id = record {
  id = id;
  name = request_name req;
  selected = false;
  ssh = stored_ssh pf req id;
  transport =
      build_transport (normalize_mode req.mode) req.payload req.http_proxy req.tls
        (stored_ssh pf req id);
}

-- in the place of the first profile with the identifier, or at the end
unfoldable pub place : Profile → List Profile → List Profile
place q [] = q ∷ []
place q (p ∷ ps) = if text_eq p.id q.id then q ∷ ps else p ∷ place q ps

unfoldable pub store : ProfilesFile → SaveProfileRequest → Bytes → ProfilesFile
unfolding place new_profile
store pf req id = record pf {
  profiles =
      if creating_new req
      then pf.profiles ++ new_profile pf req id ∷ []
      else place (new_profile pf req id) pf.profiles;
}

-- the selection at the end
unfoldable pub choose : ProfilesFile → Bool → Bytes → ProfilesFile
choose pf select id =
    if select || is_empty pf.selected_id || text_eq pf.selected_id id
    then (select_by_id id pf).0
    else pf

-- what follows the checks
abbrev pub finish :
    Option SaveError → ProfilesFile → SaveProfileRequest → ℕ → ProfilesFile × Option SaveError
finish (some e) pf req nanos = (pf, some e)
finish none pf req nanos =
    let id = stored_id pf req nanos in (choose (store pf req id) req.select id, none)

-- `upsertProfile`
unfoldable pub upsert_profile :
    ProfilesFile → SaveProfileRequest → ℕ → ProfilesFile × Option SaveError
unfolding check_request
upsert_profile pf req nanos = finish (check_request req) pf req nanos
