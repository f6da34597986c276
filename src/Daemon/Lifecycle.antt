-- ===== src/Daemon/Lifecycle.antt =====
-- cmd/sshcustomd/main.go: `startTunnel`, `stopTunnel` and the goroutine of a run of the tunnel, as
-- the steps of the threads that share `tunnelRunning`, `explicitStop` and `lifecycleMu`.
use ssc.Base.{ℕ, suc, ◌-◌, ◌≡◌, Bool, true, false, ◌⊎◌, ◌==◌, if◌then◌else◌}

-- Where the goroutine of a run stands: in `tunnelLoop`, behind it, in the branch of an end before
-- `tunnelRunning.Store(false)`, in the branch of a restart before it, in the delay of the restart,
-- and before its call of `startTunnel`.
pub data Pc : Type 0 where
  gone looping returned ending restarting delaying resuming : Pc

-- Who holds the mutex: nobody, or a `stopTunnel` that has found the tunnel running, that has stored
-- `explicitStop`, or that has called `tunnelCancel` and waits.
pub data Lock : Type 0 where
  free found_running stored_stop waiting : Lock

-- The variables that the threads share; the runs are numbered from 0, `cancelled` tells for each
-- whether its context is.
pub record Life : Type 0 where
  pub running : Bool
  pub explicit_stop : Bool
  pub ctx_done : Bool
  pub lock : Lock
  pub started : ℕ
  pub cancelled : ℕ → Bool
  pub pc : ℕ → Pc

abbrev pub put {ℓ} : {A : Type ℓ} → ℕ → A → (ℕ → A) → ℕ → A
put i a f j = if j == i then a else f j

-- the daemon before the first start
abbrev pub at_boot : Life
at_boot = record {
  running = false;
  explicit_stop = false;
  ctx_done = false;
  lock = free;
  started = 0;
  cancelled = λ i. false;
  pc = λ i. gone;
}

-- what `startTunnel` does when there is a selected profile
abbrev pub start_tunnel : Life → Life
start_tunnel s = record s {
  running = true;
  explicit_stop = false;
  started = suc s.started;
  cancelled = put s.started false s.cancelled;
  pc = put s.started looping s.pc;
}

-- The steps of `stopTunnel` up to its wait for the goroutine. The goroutine reads `explicitStop`
-- without the mutex, between any two of them.
abbrev pub enter_stop : Life → Life
enter_stop s = record s { lock = found_running }

abbrev pub store_stop : Life → Life
store_stop s = record s { explicit_stop = true; lock = stored_stop }

-- `tunnelCancel` is that of the last run
abbrev pub cancel_tunnel : Life → Life
cancel_tunnel s = record s { lock = waiting; cancelled = put (s.started - 1) true s.cancelled }

abbrev pub move : ℕ → Pc → Life → Life
move i p s = record s { pc = put i p s.pc }

abbrev pub stored : Life → Life
stored s = record s { running = false }

pub data Step : Life → Life → Type 0 where
  starts : (s : Life) → s.lock ≡ free → s.running ≡ false → Step s (start_tunnel s)
  stops : (s : Life) → s.lock ≡ free → s.running ≡ true → Step s (enter_stop s)
  stores : (s : Life) → s.lock ≡ found_running → Step s (store_stop s)
  cancels : (s : Life) → s.lock ≡ stored_stop → Step s (cancel_tunnel s)
  -- the goroutine is done or 5 s have passed
  stop_ends : (s : Life) → s.lock ≡ waiting → Step s (record s { lock = free })
  -- `tunnelLoop` returns, which it does only when its context is done
  loop_returns :
      (i : ℕ) (s : Life)
      → s.pc i ≡ looping
      → (s.cancelled i ≡ true) ⊎ (s.ctx_done ≡ true)
      → Step s (move i returned s)
  panics : (i : ℕ) (s : Life) → s.pc i ≡ looping → Step s (move i gone s)
  ends :
      (i : ℕ) (s : Life)
      → s.pc i ≡ returned
      → (s.explicit_stop ≡ true) ⊎ (s.ctx_done ≡ true)
      → Step s (move i ending s)
  ended : (i : ℕ) (s : Life) → s.pc i ≡ ending → Step s (move i gone (stored s))
  restarts :
      (i : ℕ) (s : Life)
      → s.pc i ≡ returned
      → s.explicit_stop ≡ false
      → s.ctx_done ≡ false
      → Step s (move i restarting s)
  delays : (i : ℕ) (s : Life) → s.pc i ≡ restarting → Step s (move i delaying (stored s))
  gives_up : (i : ℕ) (s : Life) → s.pc i ≡ delaying → Step s (move i gone s)
  resumes :
      (i : ℕ) (s : Life)
      → s.pc i ≡ delaying
      → s.explicit_stop ≡ false
      → s.ctx_done ≡ false
      → Step s (move i resuming s)
  starts_again :
      (i : ℕ) (s : Life)
      → s.pc i ≡ resuming
      → s.lock ≡ free
      → s.running ≡ false
      → Step s (start_tunnel (move i gone s))
  finds_running :
      (i : ℕ) (s : Life)
      → s.pc i ≡ resuming
      → s.lock ≡ free
      → s.running ≡ true
      → Step s (move i gone s)
  shuts_down : (s : Life) → Step s (record s { ctx_done = true })

pub data Reach (s : Life) : Life → Type 0 where
  here : Reach s s
  next : (t u : Life) → Reach s t → Step t u → Reach s u
