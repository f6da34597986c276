-- ===== src/Daemon/Examples.antt =====
-- The theorems on the daemon at concrete inputs, and tests.
use ssc.Base.{
  ◌++◌, ◌||◌, ◌&&◌, ◌==◌, ◌/◌, List, ℕ, ◌≡◌, refl, Bool, true, false, inl, [], ◌∷◌, none, some,
  Bytes, codes, ℤ, pos, arith,
}
use ssc.Config.{default_config}
use ssc.Config.Types.{Profile}
use ssc.Config.Samples.{profile_of}
use ssc.Iptables.{World}
use ssc.Daemon.{flag_arg}
use ssc.Daemon.Loop.{
  Status, starting, wait_done, health, Round, LoopState, returns, passes, tunnel_loop,
}
use ssc.Daemon.Reconnect.{IsIdle, Settled, IsReleased, passes-Settled}
use ssc.Daemon.Returns.{tunnel_loop_returns}
use ssc.Daemon.Rules.{Story, tunnel_loop-Story}
use ssc.Daemon.Lifecycle.{
  Life, returned, ending, gone, free, at_boot, start_tunnel, enter_stop, store_stop, cancel_tunnel,
  move, stored, Reach, here, next, starts, stops, stores, cancels, stop_ends, ends, ended,
  loop_returns,
}
use ssc.Daemon.OneLoop.{IsStuck, IsRestart, looping_once, never_restarts, panic_is_final}

flag_is_found :
    flag_arg (codes "-c" ∷ codes "/x" ∷ codes "-p" ∷ []) (codes "-c") (codes "/d") ≡ codes "/x"
unfolding flag_arg ssc.Base.text_eq
flag_is_found = refl

-- a flag without its value counts as absent
flag_is_last : flag_arg (codes "-c" ∷ []) (codes "-c") (codes "/d") ≡ codes "/d"
unfolding flag_arg
flag_is_last = refl

-- a kernel that accepts everything
abbrev accepting : World
accepting log c = true

abbrev quiet : Status
quiet = record {
  phase = starting;
  is_connected = false;
  ssh_authenticated = false;
  transport_ready = false;
  network_online = false;
  transparent_applied = false;
  hotspot_running = false;
  pool_size = 0;
  pool_healthy = 0;
  pool_reconnecting = 0;
  pool_streams = 0;
  pool_max_streams = pos 0;
}

abbrev fresh : LoopState
fresh = record {
  delay = pos 0;
  client = false;
  listeners = false;
  iptables_up = false;
  open_clients = 0;
  firewall = [];
  cache = [];
  status = quiet;
}

fresh-IsIdle : IsIdle fresh
fresh-IsIdle = record {
  no_client = refl;
  none_open = refl;
  not_connected = refl;
  bounded = omega arith;
  served = λ e. absurd (cc);
}

abbrev no_network : Round
no_network = record {
  done_before = false;
  online = false;
  dialled = none;
  heard = wait_done none ∷ [];
}

abbrev refused_dial : Round
refused_dial = record {
  done_before = false;
  online = true;
  dialled = none;
  heard = wait_done none ∷ [];
}

abbrev short_connection : Round
short_connection = record {
  done_before = false;
  online = true;
  dialled = some (codes "1.2.3.4" ∷ []);
  heard = health 3 0 ∷ wait_done (some (codes "EOF")) ∷ [];
}

abbrev stop : Round
stop = record { done_before = true; online = true; dialled = none; heard = [] }

abbrev profile : Profile
profile = profile_of (codes "p")

passes-Settled_example : Settled (
    passes accepting default_config profile
      (refused_dial ∷ no_network ∷ short_connection ∷ [])
      fresh)
passes-Settled_example =
    passes-Settled accepting default_config profile
      (refused_dial ∷ no_network ∷ short_connection ∷ []) fresh fresh-IsIdle

tunnel_loop_returns_example :
    (m : LoopState) × (tunnel_loop accepting default_config profile
        (no_network ∷ refused_dial ∷ short_connection ∷ stop ∷ [])
        fresh
      ≡ returns m)
    × IsReleased m
tunnel_loop_returns_example =
    tunnel_loop_returns accepting default_config profile
      (no_network ∷ refused_dial ∷ short_connection ∷ []) stop fresh fresh-IsIdle
      (refl, (refl, (refl, tt))) refl

abbrev left_behind : LoopState
left_behind =
    (tunnel_loop_returns accepting default_config profile (short_connection ∷ []) stop fresh
      fresh-IsIdle (refl, tt) refl).0

tunnel_loop-Story_example : Story accepting default_config [] left_behind.firewall
tunnel_loop-Story_example =
    tunnel_loop-Story accepting default_config profile (short_connection ∷ stop ∷ []) fresh
      left_behind refl
      (tunnel_loop_returns accepting default_config profile (short_connection ∷ []) stop fresh
        fresh-IsIdle (refl, tt) refl).1

abbrev serving : LoopState
serving = record fresh { listeners = true; iptables_up = true }

abbrev first : Life
first = start_tunnel at_boot

first-Reach : Reach at_boot first
first-Reach = next at_boot first here (starts at_boot refl refl)

abbrev cancelled_first : Life
cancelled_first = cancel_tunnel (store_stop (enter_stop first))

cancelled-Reach : Reach at_boot cancelled_first
cancelled-Reach =
    let s1 = enter_stop first in
    let s2 = store_stop s1 in
    next s2 cancelled_first
      (next s1 s2 (next first s1 first-Reach (stops first refl refl)) (stores s1 refl))
      (cancels s2 refl)

-- a start, a stop that waits for the loop, and a second start
abbrev stopped : Life
stopped = record (move 0 gone (stored (move 0 ending (move 0 returned cancelled_first)))) {
  lock = free;
}

abbrev second : Life
second = start_tunnel stopped

second-Reach : Reach at_boot second
second-Reach =
    let s1 = cancelled_first in
    let s2 = move 0 returned s1 in
    let s3 = move 0 ending s2 in
    let s4 = move 0 gone (stored s3) in
    next stopped second
      (next s4 stopped
        (next s3 s4
          (next s2 s3 (next s1 s2 cancelled-Reach (loop_returns 0 s1 refl (inl refl)))
            (ends 0 s2 refl (inl refl)))
          (ended 0 s3 refl))
        (stop_ends s4 refl))
      (starts stopped refl refl)

looping_once_example : (◌≡◌ {A = ℕ} 1 1) × (◌≡◌ {A = ℕ} 2 second.started) × (second.running ≡ true)
looping_once_example = looping_once second 1 1 second-Reach refl refl

never_restarts_example : ¬ (IsRestart (second.pc 0))
never_restarts_example = never_restarts second 0 second-Reach

abbrev panicked : Life
panicked = move 0 gone first

panic_is_final_example : IsStuck 1 (enter_stop panicked)
panic_is_final_example =
    panic_is_final first (enter_stop panicked) 0 first-Reach refl
      (next panicked (enter_stop panicked) here (stops panicked refl refl))
