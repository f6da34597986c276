-- ===== src/Api/EventExamples.antt =====
-- The theorem on the stream of events at a concrete run, and a test.
use ssc.Base.{◌≡◌, refl, false, [], ◌∷◌, arith}
use ssc.Api.Notify.{Subs, pending}
use ssc.Api.Events.{
  opened, greeted, listening, World, change, announce, send_status, listen, wake, changes,
  announces, greets, listens, wakes, sends, Reach, here, next,
}
use ssc.Api.Current.{Reach-sent}

-- one other subscriber, and no change since the greeting
abbrev greeted_world : World
greeted_world = record {
  version = 3;
  due = 0;
  subs = record { next = 1; subs = (0, false) ∷ [] };
  phase = greeted;
  sent = 3;
}

-- the state changes, and the client is told
abbrev told_world : World
told_world = send_status (listening 1) (wake 1 (announce (change (listen greeted_world))))

told : Reach (listen greeted_world) told_world
unfolding ssc.Api.Notify.subscribe ssc.Api.Notify.broadcast ssc.Api.Notify.filled
    ssc.Api.Notify.pending_in
told =
    next _ _ _
      (next _ _ _
        (next _ _ _ (next _ _ _ (here (listen greeted_world)) (changes (listen greeted_world)))
          (announces (change (listen greeted_world)) (omega arith)))
        (wakes 1 (announce (change (listen greeted_world))) refl refl))
      (sends 1 (wake 1 (announce (change (listen greeted_world)))) refl)

nothing_waits : pending 1 told_world.subs ≡ false
unfolding ssc.Api.Notify.subscribe ssc.Api.Notify.broadcast ssc.Api.Notify.filled
    ssc.Api.Notify.pending_in ssc.Api.Notify.receive ssc.Api.Notify.emptied
nothing_waits = refl

Reach-sent_example : told_world.sent ≡ told_world.version
Reach-sent_example = Reach-sent greeted_world told_world 1 refl told refl nothing_waits refl

-- a change between the greeting and the subscription: the client has version 3, nothing waits for
-- it, and the state has version 4
abbrev missed_world : World
missed_world =
    listen (announce (change (send_status greeted (record greeted_world { phase = opened }))))

update_is_missed :
    Reach (record greeted_world { phase = opened }) missed_world
    × (missed_world.phase ≡ listening 1)
    × (pending 1 missed_world.subs ≡ false)
    × (missed_world.due ≡ 0)
    × (missed_world.sent ≡ 3)
    × (missed_world.version ≡ 4)
unfolding ssc.Api.Notify.subscribe ssc.Api.Notify.broadcast ssc.Api.Notify.filled
    ssc.Api.Notify.pending_in
update_is_missed = (
  next _ _ _
      (next _ _ _
        (next _ _ _ (next _ _ _ (here start) (greets start refl))
          (changes (send_status greeted start)))
        (announces (change (send_status greeted start)) (omega arith)))
      (listens (announce (change (send_status greeted start))) refl),
  refl,
  refl,
  refl,
  refl,
  refl,
)
  where
    start : World
    start = record greeted_world { phase = opened }
