-- ===== src/Config/Types.antt =====
-- internal/config/config.go: the profile types and the profile helpers. A pointer to an optional
-- section is an `Option`.
use mathlib.Core.List.{head?}
use ssc.Base.{
  Bool, List, [], ◌∷◌, Option, none, some, if◌then◌else◌, Bytes, ℤ, is_empty, any, text_eq,
  trim_space,
}

pub record Ssh : Type 0 where
  pub host : Bytes
  pub port : ℤ
  pub username : Bytes
  pub password : Bytes
  pub auth_type : Bytes
  pub fallback_ips : List Bytes

pub record HttpProxyCfg : Type 0 where
  pub host : Bytes
  pub port : ℤ
  pub connect_method : Bytes
  pub fallback_ips : List Bytes

pub record TlsCfg : Type 0 where
  pub enabled : Bool
  pub server_name : Bytes
  pub insecure_skip_verify : Bool
  pub alpn : List Bytes

pub record PayloadCfg : Type 0 where
  pub enabled : Bool
  pub template : Bytes
  pub send_timing : Bytes
  pub read_response : Bool
  pub allow_statuses : List ℤ

pub record Transport : Type 0 where
  pub mode : Bytes
  pub chain : List Bytes
  pub http_proxy : Option HttpProxyCfg
  pub tls : Option TlsCfg
  pub payload : PayloadCfg

pub record Profile : Type 0 where
  pub id : Bytes
  pub name : Bytes
  pub selected : Bool
  pub ssh : Ssh
  pub transport : Transport

pub record ProfilesFile : Type 0 where
  pub selected_id : Bytes
  pub profiles : List Profile

pub record SaveProfileRequest : Type 0 where
  pub id : Bytes
  pub name : Bytes
  pub select : Bool
  pub restart : Bool
  pub ssh : Ssh
  pub mode : Bytes
  pub http_proxy : Option HttpProxyCfg
  pub tls : Option TlsCfg
  pub payload : PayloadCfg

-- the first profile that passes a test
unfoldable pub find : (Profile → Bool) → List Profile → Option Profile
find test [] = none
find test (p ∷ ps) = if test p then some p else find test ps

abbrev or_else : Option Profile → Option Profile → Option Profile
or_else none other = other
or_else (some p) other = some p

abbrev pub has_id : Bytes → Profile → Bool
has_id id p = text_eq p.id id

-- `SelectedProfile`: the three loops, each tried if those before it found nothing
unfoldable pub selected_profile : ProfilesFile → Option Profile
unfolding find
selected_profile pf =
    or_else (if is_empty pf.selected_id then none else find (has_id pf.selected_id) pf.profiles)
      (or_else (find (λ p. p.selected) pf.profiles) (head? pf.profiles))

pub data ProfileError : Type 0 where
  id_required : ProfileError
  not_found : ProfileError

-- the loop of `SelectByID`
unfoldable pub mark : Bytes → List Profile → List Profile
mark id [] = []
mark id (p ∷ ps) = record p { selected = text_eq p.id id } ∷ mark id ps

-- `SelectByID`: the file as it is left, and the error if there is one. The flags stay as the loop
-- left them when no profile has the identifier.
unfoldable pub select_by_id : Bytes → ProfilesFile → ProfilesFile × Option ProfileError
unfolding mark
select_by_id id pf =
    let key = trim_space id in
    let marked = mark key pf.profiles in
    if is_empty key
    then (pf, some id_required)
    else if any (λ p. p.selected) marked
    then (record { selected_id = key; profiles = marked }, none)
    else (record pf { profiles = marked }, some not_found)

-- the profiles without the first that has the identifier
unfoldable pub remove : Bytes → List Profile → Option (List Profile)
remove id [] = none
remove id (p ∷ ps) =
    if text_eq p.id id
    then some ps
    else elim (remove id ps) [ none ↦ none | some rest ↦ some (p ∷ rest) ]

-- `DeleteProfile`
unfoldable pub delete_profile : Bytes → ProfilesFile → ProfilesFile × Option ProfileError
unfolding remove
delete_profile id pf = elim (remove id pf.profiles) [
  | none ↦ (pf, some not_found)
  | some rest ↦ (
    record {
      selected_id = if text_eq pf.selected_id id then [] else pf.selected_id;
      profiles = rest;
    },
    none,
  )
]
