-- ===== src/Daemon/Released.antt =====
-- That a redirected connection leaves nothing behind.
use ssc.Base.{
  append_assoc, ◌≡◌, refl, Bool, true, false, List, [], ◌∷◌, ◌++◌, Option, none, some, Bytes, ◌&&◌,
  not, if◌then◌else◌, if_decided, if_holds,
}
use ssc.Tunnel.{Dial, connected, refused_with, is_transport_error}
use ssc.Daemon.Transparent.{
  Act, take_slot, free_slot, set_options, count_error, copy, dial, close_local, close_remote,
  add_stream, remove_stream, Asked, dialling, to_target, in_slot, handle_transparent_conn,
}

-- what a handler holds
pub record Held : Type 0 where
  pub slot : Bool
  pub local_open : Bool
  pub remote_open : Bool
  pub counted : Bool

abbrev pub accepted : Held
accepted = record { slot = false; local_open = true; remote_open = false; counted = false }

abbrev pub released : Held
released = record { slot = false; local_open = false; remote_open = false; counted = false }

abbrev pub only_if : Bool → Held → Option Held
only_if true h = some h
only_if false h = none

-- What each action needs, and what is held after it: no slot and no count is given back that is not
-- held, nothing is copied without both connections, and no local target is dialled. A second `Close`
-- of a connection does nothing.
abbrev pub act : (Bytes → Bool) → Act → Held → Option Held
act is_local take_slot h = only_if (not h.slot) (record h { slot = true })
act is_local free_slot h =
    only_if (h.slot && not h.remote_open && not h.counted) (record h { slot = false })
act is_local set_options h = only_if h.local_open h
act is_local count_error h = only_if h.slot h
act is_local copy h = only_if (h.local_open && h.remote_open && h.counted) h
act is_local (dial target ok) h =
    only_if (h.slot && not h.remote_open && not (is_local target)) (record h { remote_open = ok })
act is_local close_local h = some (record h { local_open = false })
act is_local close_remote h = some (record h { remote_open = false })
act is_local add_stream h = only_if (not h.counted) (record h { counted = true })
act is_local remove_stream h = only_if h.counted (record h { counted = false })

abbrev pub then_run : (Held → Option Held) → Option Held → Option Held
then_run next none = none
then_run next (some h) = next h

abbrev pub run : (Bytes → Bool) → List Act → Held → Option Held
run is_local [] h = some h
run is_local (a ∷ acts) h = then_run (run is_local acts) (act is_local a h)

-- with a slot, before the deferred calls
abbrev slotted : Held
slotted = record { slot = true; local_open = true; remote_open = false; counted = false }

-- the deferred calls of `handleTransparentConn` itself
abbrev deferred : List Act
deferred = free_slot ∷ close_local ∷ []

-- After the actions `acts`, the deferred calls give the rest back.
abbrev Restores : (Bytes → Bool) → List Act → Type 0
Restores is_local acts = run is_local (acts ++ deferred) slotted ≡ some released

dialling-Restores :
    (is_local : Bytes → Bool) (target : Bytes) (d : Dial) (after : Bool)
    → is_local target ≡ false
    → Restores is_local (dialling target d after)
dialling-Restores is_local target (connected c) true e = rw e refl
dialling-Restores is_local target (connected c) false e = rw e refl
dialling-Restores is_local target (refused_with x) after e =
    rw e (by_error (is_transport_error (some x)))
  where
    by_error :
        (t : Bool)
        → run is_local ((if t then count_error ∷ [] else []) ++ deferred) slotted ≡ some released
    by_error true = refl
    by_error false = refl

to_target-Restores : (a : Asked) (target : Bytes) → Restores a.is_local (to_target a target)
to_target-Restores a target =
    if_decided (Restores a.is_local) (a.is_local target) _ _ (λ e. refl)
      (λ e.
        if_holds (λ acts. run a.is_local (acts ++ deferred) slotted ≡ some released) a.client _ _
          (dialling-Restores a.is_local target _ a.client_after e) refl)

in_slot-Restores : (a : Asked) (t : Option Bytes) → Restores a.is_local (in_slot a t)
in_slot-Restores a none = refl
in_slot-Restores a (some target) = to_target-Restores a target

-- The handling of a redirected connection ends, on every path, with both connections closed, the slot
-- of the semaphore free and the stream no longer counted. The slot and the count are given back once,
-- each after it was taken; and it dials only with a slot, and no local target.
pub handle_transparent_conn-released :
    (a : Asked) → run a.is_local (handle_transparent_conn a) accepted ≡ some released
unfolding handle_transparent_conn
handle_transparent_conn-released a =
    if_holds (λ acts. run a.is_local (acts ++ close_local ∷ []) accepted ≡ some released) a.slot _ _
      (if_holds
        (λ acts.
          run a.is_local ((acts ++ free_slot ∷ []) ++ close_local ∷ []) slotted ≡ some released)
        a.is_tcp _ _
        (rw (append_assoc (in_slot a a.target) (free_slot ∷ []) (close_local ∷ []))
          (in_slot-Restores a a.target))
        refl)
      refl
