-- ===== src/Api/Complete.antt =====
-- internal/api/api.go with internal/transport/transport.go: what the dashboard stores is complete.
use ssc.Base.{
  trim_space, trim_by, trim_end, drop_while, gt_nat, ◌≡◌, refl, Bool, true, false, [], ◌∷◌, ◌++◌,
  Option, none, some, if◌then◌else◌, Bytes, codes, ℤ, pos, non_pos, int_eq, is_empty, ◌||◌, ◌&&◌,
  text_eq, inl, inr, Bool-cases,
}
use ssc.Config.Types.{Profile, HttpProxyCfg, TlsCfg, PayloadCfg}
use ssc.Transport.{
  chain_has, uses_http_proxy, uses_tls, endpoint, dial_endpoint, check_endpoint, proxy_endpoint,
}
use ssc.Api.Build.{
  given_proxy, tls_port, part, needs_proxy, needs_tls, build_chain, build_proxy, build_tls,
  build_transport,
}

abbrev pub is_some : {A : Type 0} → Option A → Bool
is_some none = false
is_some (some a) = true

-- The profile names an SSH server by a host and a user that are not blank and a port from 1 to 65535,
-- and has a mode; `dialEndpoint` finds an endpoint for it, and there are TLS settings exactly if its
-- transport uses TLS. The port of a proxy is only known to be positive.
pub record Complete (p : Profile) : Type 0 where
  pub ssh_host : is_empty (trim_space p.ssh.host) ≡ false
  pub ssh_port : (non_pos p.ssh.port || gt_nat p.ssh.port 65535) ≡ false
  pub ssh_user : is_empty (trim_space p.ssh.username) ≡ false
  pub has_mode : is_empty p.transport.mode ≡ false
  pub host : Bytes
  pub port : ℤ
  pub dials : dial_endpoint p ≡ endpoint host port
  pub has_tls : uses_tls p ≡ is_some p.transport.tls

chain-proxy :
    (a b c : Bool)
    → chain_has
        (codes "tcp" ∷ part a (codes "http_proxy")
          ++ part b (codes "tls")
          ++ part c (codes "payload")
          ++ codes "ssh" ∷ [])
        (codes "http_proxy")
      ≡ a
unfolding chain_has text_eq
chain-proxy true b c = refl
chain-proxy false true true = refl
chain-proxy false true false = refl
chain-proxy false false true = refl
chain-proxy false false false = refl

chain-tls :
    (a b c : Bool)
    → chain_has
        (codes "tcp" ∷ part a (codes "http_proxy")
          ++ part b (codes "tls")
          ++ part c (codes "payload")
          ++ codes "ssh" ∷ [])
        (codes "tls")
      ≡ b
unfolding chain_has text_eq
chain-tls true true c = refl
chain-tls false true c = refl
chain-tls true false true = refl
chain-tls true false false = refl
chain-tls false false true = refl
chain-tls false false false = refl

or_same : (a b c : Bool) → c ≡ (a || b) → (a || b || c) ≡ (a || b)
or_same true b c h = refl
or_same false true c h = refl
or_same false false c h = h

uses_http_proxy-build_transport :
    (p : Profile) (payload : PayloadCfg) (hp : Option HttpProxyCfg) (t : Option TlsCfg)
    (mode : Bytes)
    → uses_http_proxy (record p { transport = build_transport mode payload hp t p.ssh })
      ≡ needs_proxy mode
unfolding uses_http_proxy build_transport build_chain
uses_http_proxy-build_transport p payload hp t mode =
    or_same (text_eq mode (codes "http_proxy")) (text_eq mode (codes "http_proxy_tls_sni")) _
      (chain-proxy (needs_proxy mode) (needs_tls mode) payload.enabled)

uses_tls-build_transport :
    (p : Profile) (payload : PayloadCfg) (hp : Option HttpProxyCfg) (t : Option TlsCfg)
    (mode : Bytes)
    → uses_tls (record p { transport = build_transport mode payload hp t p.ssh }) ≡ needs_tls mode
unfolding uses_tls build_transport build_chain
uses_tls-build_transport p payload hp t mode =
    or_same (text_eq mode (codes "tls_sni")) (text_eq mode (codes "http_proxy_tls_sni")) _
      (chain-tls (needs_proxy mode) (needs_tls mode) payload.enabled)

check_endpoint_ok :
    (host : Bytes) (port : ℤ)
    → is_empty host ≡ false
    → non_pos port ≡ false
    → check_endpoint host port ≡ endpoint host port
check_endpoint_ok host port h k = rw (h, k)

host_filled : (x y : Bytes) → is_empty y ≡ false → is_empty (if is_empty x then y else x) ≡ false
host_filled [] y h = h
host_filled (c ∷ x) y h = refl

filled_port : (x y : ℤ) → non_pos y ≡ false → non_pos (if non_pos x then y else x) ≡ false
filled_port x y h = elim (Bool-cases (non_pos x)) [ inl e ↦ rw (e, h) | inr e ↦ rw (e, e) ]

tls_port_positive : (mode : Bytes) (x : ℤ) → non_pos x ≡ false → non_pos (tls_port mode x) ≡ false
tls_port_positive mode x h =
    elim (Bool-cases (text_eq mode (codes "http_proxy_tls_sni") && int_eq x (pos 80))) [
      | inl e ↦ rw e
      | inr e ↦ rw (e, h)
    ]

is_some-if : {A : Type 0} (b : Bool) (a : A) → is_some (if b then some a else none) ≡ b
is_some-if true a = refl
is_some-if false a = refl

endpoint_of :
    (p : Profile) (hp : Option HttpProxyCfg) (mode : Bytes)
    → is_empty p.ssh.host ≡ false
    → non_pos p.ssh.port ≡ false
    → (b : Bool)
    → (host : Bytes) × (port : ℤ) × ((if b
          then proxy_endpoint (if b then some (build_proxy mode hp p.ssh) else none)
          else check_endpoint p.ssh.host p.ssh.port)
        ≡ endpoint host port)
unfolding build_proxy
endpoint_of p hp mode h k true =
    let r = given_proxy hp p.ssh in
    (
      _,
      _,
      check_endpoint_ok _ _ (host_filled r.host p.ssh.host h)
          (tls_port_positive mode _ (filled_port r.port p.ssh.port k)),
    )
endpoint_of p hp mode h k false = (_, _, check_endpoint_ok _ _ h k)

trim_space_empty : (s : Bytes) → is_empty (trim_space s) ≡ false → is_empty s ≡ false
unfolding trim_by trim_end drop_while
trim_space_empty [] h = h
trim_space_empty (c ∷ s) h = refl

or_left : (a b : Bool) → (a || b) ≡ false → a ≡ false
or_left false b h = refl
or_left true b h = h

-- The transport that is built makes a profile with a named SSH server complete, in every mode and
-- whatever the optional sections say.
pub build_transport-Complete :
    (p : Profile) (payload : PayloadCfg) (hp : Option HttpProxyCfg) (t : Option TlsCfg)
    (mode : Bytes)
    → is_empty (trim_space p.ssh.host) ≡ false
    → (non_pos p.ssh.port || gt_nat p.ssh.port 65535) ≡ false
    → is_empty (trim_space p.ssh.username) ≡ false
    → is_empty mode ≡ false
    → Complete (record p { transport = build_transport mode payload hp t p.ssh })
unfolding dial_endpoint build_transport
build_transport-Complete p payload hp t mode h k user m =
    let (host, port, e) =
      endpoint_of p hp mode (trim_space_empty p.ssh.host h) (or_left (non_pos p.ssh.port) _ k)
        (needs_proxy mode) in
    record {
      ssh_host = h;
      ssh_port = k;
      ssh_user = user;
      has_mode = m;
      host = host;
      port = port;
      dials = rw (uses_http_proxy-build_transport p payload hp t mode, e);
      has_tls = rw (
        uses_tls-build_transport p payload hp t mode,
        is_some-if (needs_tls mode) (build_tls t p.ssh),
      );
    }
