-- ===== src/Daemon/Loop.antt =====
-- cmd/sshcustomd/main.go: `tunnelLoop`. A round is what the environment answers to one pass of the
-- loop; the firewall is the log of the commands, and the resolver's cache is that of internal/dnsx.
use ssc.Base.{
  ℕ, suc, ◌-◌, ◌*◌, Bool, true, false, List, [], ◌∷◌, Option, none, some, Bytes, codes, ℤ, pos,
  non_pos, lt_nat, ◌&&◌, leb, if◌then◌else◌,
}
use ssc.Config.{Config}
use ssc.Config.Types.{Profile, HttpProxyCfg}
use ssc.Dnsx.{Entries, evict_host}
use ssc.Iptables.{World, Log}
use ssc.Iptables.Setup.{apply, cleanup_firewall}
use ssc.Tunnel.{next_delay}
use ssc.Daemon.{iptables_cfg}

pub data Phase : Type 0 where
  starting paused_no_network connecting_ssh retry_backoff connected reconnecting : Phase

-- The fields of `State` that the loop sets, without the texts and what a probe reported.
pub record Status : Type 0 where
  pub phase : Phase
  pub is_connected : Bool
  pub ssh_authenticated : Bool
  pub transport_ready : Bool
  pub network_online : Bool
  pub transparent_applied : Bool
  pub hotspot_running : Bool
  pub pool_size : ℕ
  pub pool_healthy : ℕ
  pub pool_reconnecting : ℕ
  pub pool_streams : ℕ
  pub pool_max_streams : ℤ

-- What the loop hears while it is connected: the end of its context, the end of the SSH connection
-- with its error, or a tick with the count of streams and of transport errors.
pub data Heard : Type 0 where
  context_done : Heard
  wait_done : Option Bytes → Heard
  health : ℕ → ℕ → Heard

pub record Round : Type 0 where
  pub done_before : Bool
  pub online : Bool
  -- the addresses that a successful dial resolved
  pub dialled : Option (List Bytes)
  pub heard : List Heard

-- What the loop keeps; `open_clients` counts the SSH connections that were not closed.
pub record LoopState : Type 0 where
  pub delay : ℤ
  pub client : Bool
  pub listeners : Bool
  pub iptables_up : Bool
  pub open_clients : ℕ
  pub firewall : Log
  pub cache : Entries
  pub status : Status

abbrev pub second : ℕ
second = 1000000000

abbrev pub base_delay : ℕ
base_delay = 1 * second

abbrev pub max_delay : ℕ
max_delay = 30 * second

-- the state of the pool's limit that a tick shows
unfoldable pub max_streams : Config → ℤ
max_streams cfg =
    if non_pos cfg.performance.max_streams_per_ssh
    then pos 256
    else cfg.performance.max_streams_per_ssh

-- How the loop `wait` ends.
pub data Waited : Type 0 where
  cancelled still_waiting : Waited
  ended : Option Bytes → Waited

-- the loop `wait`
unfoldable pub wait_loop : Config → List Heard → Status → Status × Waited
unfolding max_streams
wait_loop cfg [] st = (st, still_waiting)
wait_loop cfg (context_done ∷ hs) st = (st, cancelled)
wait_loop cfg (wait_done e ∷ hs) st = (st, ended e)
wait_loop cfg (health streams te ∷ hs) st =
    let rest =
      wait_loop cfg hs (record st { pool_streams = streams; pool_max_streams = max_streams cfg }) in
    if leb 5 te then (st, ended (some (codes "forced reconnect"))) else rest

abbrev evict_proxy_host : Option HttpProxyCfg → Entries → Entries
evict_proxy_host none es = es
evict_proxy_host (some h) es = evict_host h.host es

-- the branch of a dial that fails
unfoldable pub dial_failed : Profile → LoopState → LoopState
dial_failed sp l = record l {
  status = record l.status { phase = retry_backoff; is_connected = false };
  cache =
      if lt_nat l.delay (8 * second)
      then l.cache
      else evict_proxy_host sp.transport.http_proxy (evict_host sp.ssh.host l.cache);
  delay = next_delay l.delay base_delay max_delay;
}

abbrev pub applied : Config → Bool × Log → LoopState → LoopState
applied cfg (true, log) l = record l {
  firewall = log;
  iptables_up = true;
  status = record l.status {
    transparent_applied = true;
    hotspot_running = cfg.hotspot.enabled && cfg.hotspot.tcp;
  };
}
applied cfg (false, log) l = record l {
  firewall = log;
  status = record l.status { transparent_applied = false };
}

-- the listeners and the rules, which the first connection brings up
unfoldable pub bring_up : World → Config → List Bytes → LoopState → LoopState
bring_up w cfg ips l =
    let started = record l { listeners = true } in
    if l.listeners
    then l
    else if cfg.transparent_proxy.enabled
    then applied cfg (apply w (iptables_cfg cfg) ips l.firewall) started
    else started

unfoldable pub dial_worked : LoopState → LoopState
dial_worked l = record l {
  delay = pos base_delay;
  client = true;
  open_clients = suc l.open_clients;
  status = record l.status {
    phase = connected;
    is_connected = true;
    ssh_authenticated = true;
    transport_ready = true;
    pool_size = 1;
    pool_healthy = 1;
    pool_streams = 0;
  };
}

-- How a pass of the loop ends: the function returns, the next pass follows, or it still waits.
pub data Pass : Type 0 where
  returns goes_on waits : LoopState → Pass

-- `tc.Close(); clientPtr.Store(nil)`
abbrev pub close_client : LoopState → LoopState
close_client l = record l { client = false; open_clients = l.open_clients - 1 }

abbrev pub lost : LoopState → LoopState
lost l = record l {
  delay = pos base_delay;
  status = record l.status {
    phase = reconnecting;
    is_connected = false;
    ssh_authenticated = false;
    transport_ready = false;
    pool_healthy = 0;
    pool_reconnecting = 1;
    pool_streams = 0;
  };
}

abbrev pub after_wait : Waited → LoopState → Pass
after_wait cancelled l = returns (close_client l)
after_wait (ended e) l = goes_on (lost (close_client l))
after_wait still_waiting l = waits l

-- from the successful dial on
unfoldable pub connection : World → Config → List Heard → List Bytes → LoopState → Pass
unfolding bring_up dial_worked wait_loop
connection w cfg heard ips l =
    let up = bring_up w cfg ips (dial_worked l) in
    let (st, waited) = wait_loop cfg heard up.status in
    after_wait waited (record up { status = st })

abbrev pub after_dial :
    World → Config → Profile → List Heard → Option (List Bytes) → LoopState → Pass
after_dial w cfg sp heard none l = goes_on (dial_failed sp l)
after_dial w cfg sp heard (some ips) l = connection w cfg heard ips l

abbrev pub offline : LoopState → LoopState
offline l = record l {
  delay = pos (5 * second);
  status = record l.status { phase = paused_no_network; is_connected = false };
}

abbrev pub connecting : LoopState → LoopState
connecting l = record l { status = record l.status { phase = connecting_ssh } }

abbrev pub route_known : Bool → LoopState → LoopState
route_known online l = record l { status = record l.status { network_online = online } }

-- one pass of the loop
unfoldable pub pass : World → Config → Profile → Round → LoopState → Pass
unfolding dial_failed connection
pass w cfg sp r l =
    let known = route_known r.online l in
    if r.done_before
    then returns l
    else if r.online
    then after_dial w cfg sp r.heard r.dialled (connecting known)
    else goes_on (offline known)

abbrev pub follow : (LoopState → Pass) → Pass → Pass
follow next (goes_on l) = next l
follow next (returns l) = returns l
follow next (waits l) = waits l

-- the loop, for as many passes as the environment answers to
unfoldable pub passes : World → Config → Profile → List Round → LoopState → Pass
unfolding pass
passes w cfg sp [] l = waits l
passes w cfg sp (r ∷ rs) l = follow (passes w cfg sp rs) (pass w cfg sp r l)

-- `teardown`
unfoldable pub teardown : World → Config → LoopState → LoopState
teardown w cfg l = record l {
  listeners = false;
  client = false;
  iptables_up = false;
  firewall = if l.iptables_up then cleanup_firewall w (iptables_cfg cfg) l.firewall else l.firewall;
}

abbrev pub torn_down : World → Config → Pass → Pass
torn_down w cfg (returns l) = returns (teardown w cfg l)
torn_down w cfg (goes_on l) = goes_on l
torn_down w cfg (waits l) = waits l

-- `tunnelLoop`
unfoldable pub tunnel_loop : World → Config → Profile → List Round → LoopState → Pass
unfolding passes teardown
tunnel_loop w cfg sp rs l = torn_down w cfg (passes w cfg sp rs (record l { delay = pos 0 }))
