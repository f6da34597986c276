-- ===== src/Transport/Client.antt =====
-- internal/transport/transport.go: `DialContext`, which prepares a connection and makes an SSH
-- client of it. The SSH library's handshake is a parameter.
use ssc.Base.{
  true, false, ◌≤◌, ◌-◌, ℕ, ◌+◌, ◌≡◌, refl, Bool, List, [], ◌∷◌, ◌++◌, map, Bytes, codes, ℤ, arith,
  is_empty, if◌then◌else◌,
}
use ssc.Base.Decimal.{int_text}
use ssc.Config.{Config, seconds_default}
use ssc.Config.Types.{Profile}
use ssc.Socks5.Server.{join_host_port}
use ssc.Transport.Closing.{
  dials, closes, held, open_prepared_conn-closes, dials-open_prepared_conn, closes-closed,
  dials-other,
}
use ssc.Transport.Prepare.{
  Network, Action, closed, PrepareError, Prepared, Outcome, ok, err, open_prepared_conn,
}
use ssc.Transport.Render.{MapOrder}

-- `xssh.ClientConfig`; the host's key is not checked.
pub record ClientConfig : Type 0 where
  pub user : Bytes
  pub password : Bytes
  pub keyboard_interactive : List Bytes → List Bytes
  pub timeout : ℤ
  pub key_exchanges : List Bytes
  pub ciphers : List Bytes
  pub macs : List Bytes

-- the password, or the user's name for legacy profiles
unfoldable pub pass_of : Profile → Bytes
pass_of p = if is_empty p.ssh.password then p.ssh.username else p.ssh.password

unfoldable pub client_config : Config → Profile → ClientConfig
unfolding pass_of
client_config cfg p = record {
  user = p.ssh.username;
  password = pass_of p;
  keyboard_interactive = λ questions. map (λ _. pass_of p) questions;
  timeout = seconds_default cfg.performance.connect_timeout_sec 20;
  key_exchanges =
      codes "curve25519-sha256"
      ∷ codes "curve25519-sha256@libssh.org"
      ∷ codes "ecdh-sha2-nistp256"
      ∷ codes "diffie-hellman-group14-sha256"
      ∷ codes "diffie-hellman-group14-sha1"
      ∷ codes "diffie-hellman-group-exchange-sha256"
      ∷ [];
  ciphers =
      codes "chacha20-poly1305@openssh.com"
      ∷ codes "aes128-ctr"
      ∷ codes "aes192-ctr"
      ∷ codes "aes256-ctr"
      ∷ [];
  macs = codes "hmac-sha1" ∷ codes "hmac-sha2-256" ∷ [];
}

-- How `xssh.NewClientConn` ends; when it fails, the library may have closed the connection itself.
pub data Handshaken : Type 0 where
  authenticated : Handshaken
  refused : Bool → Handshaken

-- the handshake on a connection, an address and a configuration
abbrev pub Handshake : Type 0
Handshake = Prepared → Bytes → ClientConfig → Handshaken

pub data DialOutcome : Type 0 where
  client : Prepared → DialOutcome
  not_prepared : PrepareError → DialOutcome
  handshake_failed : Prepared → DialOutcome

-- what the library does to the connection, and `conn.Close()` after its error
abbrev pub after_handshake : Handshaken → Prepared → List Action → DialOutcome × List Action
after_handshake authenticated c log = (client c, log)
after_handshake (refused true) c log = (handshake_failed c, (log ++ closed ∷ []) ++ closed ∷ [])
after_handshake (refused false) c log = (handshake_failed c, log ++ closed ∷ [])

unfoldable pub with_handshake :
    Handshake → Config → Profile → Outcome Prepared × List Action → DialOutcome × List Action
unfolding client_config
with_handshake ssh cfg p (err e, log) = (not_prepared e, log)
with_handshake ssh cfg p (ok c, log) =
    after_handshake (ssh c (join_host_port p.ssh.host (int_text p.ssh.port)) (client_config cfg p))
      c log

-- `DialContext`
unfoldable pub dial_context :
    Handshake → MapOrder → Network → Config → Profile → DialOutcome × List Action
unfolding with_handshake
dial_context ssh order net cfg p = with_handshake ssh cfg p (open_prepared_conn order net p)

-- the connections that belong to a client afterwards
abbrev pub in_use : DialOutcome → ℕ
in_use (client c) = 1
in_use (not_prepared e) = 0
in_use (handshake_failed c) = 0

-- The connections that are open at the end of a log with at most one dial: a second `Close` of a
-- connection does nothing.
abbrev pub open_at_end : List Action → ℕ
open_at_end log = dials log - closes log

-- For every network and every handshake, whether the library closes the connection of a failed
-- handshake itself or not, `DialContext` dials at most one connection, and that is open afterwards
-- exactly when a client is returned, to which it belongs.
pub dial_context-closes :
    (ssh : Handshake) (order : MapOrder) (net : Network) (cfg : Config) (p : Profile)
    → (dials (dial_context ssh order net cfg p).1 ≤ 1)
      × (open_at_end (dial_context ssh order net cfg p).1
          ≡ in_use (dial_context ssh order net cfg p).0)
unfolding dial_context with_handshake
dial_context-closes ssh order net cfg p =
    after (open_prepared_conn order net p) (dials-open_prepared_conn order net p)
      (open_prepared_conn-closes order net p)
  where
    Good : DialOutcome × List Action → Type 0
    Good r = (dials r.1 ≤ 1) × (open_at_end r.1 ≡ in_use r.0)

    shaken :
        (h : Handshaken) (c : Prepared) (log : List Action)
        → dials log ≤ 1
        → dials log ≡ closes log + 1
        → Good (after_handshake h c log)
    shaken authenticated c log k e = (k, omega (arith, e))
    shaken (refused true) c log k e = (
      omega (arith, k, dials-other closed (log ++ closed ∷ []) refl, dials-other closed log refl),
      omega (
        arith,
        e,
        k,
        dials-other closed (log ++ closed ∷ []) refl,
        dials-other closed log refl,
        closes-closed (log ++ closed ∷ []),
        closes-closed log,
      ),
    )
    shaken (refused false) c log k e = (
      omega (arith, k, dials-other closed log refl),
      omega (arith, e, k, dials-other closed log refl, closes-closed log),
    )

    after :
        (r : Outcome Prepared × List Action)
        → dials r.1 ≤ 1
        → dials r.1 ≡ closes r.1 + held r.0
        → Good (with_handshake ssh cfg p r)
    after (err e, log) k h = (k, omega (arith, h))
    after (ok c, log) k h = shaken _ c log k h
