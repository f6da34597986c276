-- ===== src/Api/Events.antt =====
-- internal/api/api.go: the stream of events of one client (`handleEvents`), beside the changes of
-- the state (`State.Set`) and the other subscribers. The state is its version, counted by changes.
use ssc.Base.{ℕ, suc, ◌-◌, ◌≤◌, ◌≡◌, true}
use ssc.Api.Notify.{Subs, subscribe, cleanup, broadcast, receive, pending, Op, step, Spares}

-- where the handler stands: `woken` is between the receive and the sending that follows it
pub data EventPhase : Type 0 where
  opened greeted finished : EventPhase
  listening woken : ℕ → EventPhase

-- `due` counts the changes whose broadcast is still to come, and `sent` is the last version that
-- the client was sent.
pub record World : Type 0 where
  pub version : ℕ
  pub due : ℕ
  pub subs : Subs
  pub phase : EventPhase
  pub sent : ℕ

-- the first part of `Set`, under its lock, and its broadcast
abbrev pub change : World → World
change w = record w { version = suc w.version; due = suc w.due }

abbrev pub announce : World → World
announce w = record w { due = w.due - 1; subs = broadcast w.subs }

abbrev pub send_status : EventPhase → World → World
send_status next w = record w { sent = w.version; phase = next }

abbrev pub listen : World → World
listen w = record w { subs = subscribe w.subs; phase = listening w.subs.next }

abbrev pub wake : ℕ → World → World
wake id w = record w { subs = receive id w.subs; phase = woken id }

abbrev pub leave : ℕ → World → World
leave id w = record w { subs = cleanup id w.subs; phase = finished }

-- An operation of another subscriber: it is none on the channel of this handler.
abbrev pub IsOther : EventPhase → Op → Type 0
IsOther (listening id) o = Spares id o
IsOther (woken id) o = Spares id o
IsOther _ o = Unit

pub data Step : World → World → Type 0 where
  changes : (w : World) → Step w (change w)
  announces : (w : World) → 1 ≤ w.due → Step w (announce w)
  others : (o : Op) (w : World) → IsOther w.phase o → Step w (record w { subs = step o w.subs })
  greets : (w : World) → w.phase ≡ opened → Step w (send_status greeted w)
  -- the first status cannot be sent, or the writer does not stream
  gives_up : (w : World) → w.phase ≡ opened → Step w (record w { phase = finished })
  listens : (w : World) → w.phase ≡ greeted → Step w (listen w)
  wakes :
      (id : ℕ) (w : World) → w.phase ≡ listening id → pending id w.subs ≡ true → Step w (wake id w)
  sends : (id : ℕ) (w : World) → w.phase ≡ woken id → Step w (send_status (listening id) w)
  -- the status cannot be sent
  fails : (id : ℕ) (w : World) → w.phase ≡ woken id → Step w (leave id w)
  -- a heartbeat is written
  beats : (id : ℕ) (w : World) → w.phase ≡ listening id → Step w w
  -- the request is done, or the heartbeat cannot be written
  ends : (id : ℕ) (w : World) → w.phase ≡ listening id → Step w (leave id w)

pub data Reach : World → World → Type 0 where
  here : (w : World) → Reach w w
  next : (u v w : World) → Reach u v → Step v w → Reach u w
