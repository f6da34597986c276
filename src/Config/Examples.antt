-- ===== src/Config/Examples.antt =====
-- The theorems on configuration and profiles at concrete inputs, and tests.
use ssc.Base.{
  ◌≡◌, refl, ◌⊎◌, ◌≢◌, ◌↔◌, true, false, [], ◌∷◌, ◌++◌, List, Option, none, some, Bytes, codes,
  is_empty, any, All, ℤ, pos, arith, if◌then◌else◌, length, text_eq, trim_space, trim_by, is_space,
  drop_while, trim_end, ap,
}
use ssc.Config.{Config, normalize}
use ssc.Config.Types.{select_by_id}
use ssc.Config.Slug.{slugify, used, unique_profile_id, first_unused}
use ssc.Config.Slug.Unique.{used-unique_profile_id}
use ssc.Config.Files.{Codec, RoundTrips, Disk, written, ok, load_config, save_config}
use ssc.Config.Files.Atomic.{save_config_cases}
use ssc.Config.Samples.{two_profiles}

-- a configuration with nothing set
abbrev empty_config : Config
empty_config = record {
  module_info = record { name = []; work_dir = []; log_dir = []; manual_start = false };
  api = record { enabled = false; host = []; port = pos 0 };
  dns = record {
    enabled = false;
    mode = [];
    hijack = false;
    doh = false;
    servers = [];
    timeout_sec = pos 0;
    note = [];
  };
  transport = record { supported_modes = []; payload_is_core = false };
  local_proxy = record { socks_enabled = false; socks_host = []; socks_port = pos 0 };
  transparent_proxy = record {
    enabled = false;
    tcp_port = pos 0;
    chains_prefix = [];
    apply_after_ssh = false;
  };
  hotspot = record { enabled = false; tcp = false; dns = false; interfaces = [] };
  performance = record {
    buffer_size = pos 0;
    connect_timeout_sec = pos 0;
    keep_alive_sec = pos 0;
    ssh_pool_size = pos 0;
    max_streams_per_ssh = pos 0;
    stream_idle_timeout_sec = pos 0;
    verbose_transparent_logs = false;
    memory_limit_mb = pos 0;
  };
}

normalize_streams : (normalize empty_config).performance.max_streams_per_ssh ≡ pos 256
unfolding normalize
normalize_streams = refl

abbrev selected_work : (select_by_id (codes " work ") two_profiles).1 ≡ none
unfolding select_by_id trim_by drop_while trim_end is_space text_eq
selected_work = refl

slugify_sample : slugify (codes "  My  VPS #1! ") ≡ codes "my-vps-1"
unfolding slugify ssc.Base.Text.lower trim_by drop_while trim_end is_space
slugify_sample = refl

used-unique_profile_id_example :
    used (unique_profile_id two_profiles (codes "Home") 0) two_profiles.profiles ≡ false
used-unique_profile_id_example = used-unique_profile_id two_profiles (codes "Home") 0 (omega arith)

unique_sample : unique_profile_id two_profiles (codes "Home") 0 ≡ codes "home-2"
unfolding unique_profile_id first_unused used slugify ssc.Base.Text.lower trim_by drop_while
    trim_end is_space text_eq ssc.Base.Decimal.itoa
unique_sample = refl

-- an encoder that knows one value
abbrev fixed_codec : {A : Type 0} → A → Codec A
fixed_codec a = record { marshal = λ _. some (codes "{}"); unmarshal = λ _. some a }

abbrev old_disk : Disk
old_disk path = if text_eq path (codes "p.json") then some (codes "old") else none

fixed_codec-RoundTrips : {A : Type 0} (a : A) → RoundTrips (fixed_codec a) a
fixed_codec-RoundTrips a b e = refl

save_config_cases_example :
    (((save_config
          (fixed_codec (normalize empty_config))
          old_disk
          (codes "p.json")
          empty_config
          written
          false).1
        ≡ none)
      × (load_config
            (fixed_codec (normalize empty_config))
            (save_config
              (fixed_codec (normalize empty_config))
              old_disk
              (codes "p.json")
              empty_config
              written
              false).0
            (codes "p.json")
          ≡ ok (normalize empty_config)))
    ⊎ (((save_config
            (fixed_codec (normalize empty_config))
            old_disk
            (codes "p.json")
            empty_config
            written
            false).1
          ≢ none)
        × ((save_config
                (fixed_codec (normalize empty_config))
                old_disk
                (codes "p.json")
                empty_config
                written
                false).0
              (codes "p.json")
            ≡ old_disk (codes "p.json")))
save_config_cases_example =
    save_config_cases (fixed_codec (normalize empty_config)) old_disk (codes "p.json") empty_config
      written false (fixed_codec-RoundTrips (normalize empty_config))
