-- ===== src/Config/Samples.antt =====
-- Profiles and files that the tests and examples share.
use ssc.Base.{false, [], ◌∷◌, none, Bytes, codes, pos}
use ssc.Config.Types.{Ssh, PayloadCfg, Transport, Profile, ProfilesFile, SaveProfileRequest}

abbrev pub sample_ssh : Ssh
sample_ssh = record {
  host = codes "a.example";
  port = pos 22;
  username = codes "u";
  password = codes "pw";
  auth_type = codes "password";
  fallback_ips = [];
}

abbrev pub sample_payload : PayloadCfg
sample_payload = record {
  enabled = false;
  template = [];
  send_timing = [];
  read_response = false;
  allow_statuses = [];
}

abbrev pub sample_transport : Transport
sample_transport = record {
  mode = codes "direct";
  chain = codes "tcp" ∷ codes "ssh" ∷ [];
  http_proxy = none;
  tls = none;
  payload = sample_payload;
}

abbrev pub profile_of : Bytes → Profile
profile_of id = record {
  id = id;
  name = id;
  selected = false;
  ssh = sample_ssh;
  transport = sample_transport;
}

abbrev pub two_profiles : ProfilesFile
two_profiles = record {
  selected_id = codes "home";
  profiles = profile_of (codes "home") ∷ profile_of (codes "work") ∷ [];
}

abbrev pub sample_request : SaveProfileRequest
sample_request = record {
  id = [];
  name = codes "My VPS";
  select = false;
  restart = false;
  ssh = sample_ssh;
  mode = codes "ssh";
  http_proxy = none;
  tls = none;
  payload = sample_payload;
}
