-- ===== src/Daemon/Returns.antt =====
-- When `tunnelLoop` returns: at the end of its context, and only then.
use ssc.Base.{
  ◌++◌, ◌≡◌, refl, ap, Bool, true, false, List, [], ◌∷◌, none, some, pos, All, leb, if_holds,
  if_decided,
}
use mathlib.Core.Path.{subst}
use ssc.Config.{Config}
use ssc.Config.Types.{Profile}
use ssc.Iptables.{World}
use ssc.Daemon.Loop.{
  Status, Heard, context_done, wait_done, health, Round, LoopState, Waited, cancelled,
  still_waiting, ended, wait_loop, Pass, returns, goes_on, waits, after_wait, connection,
  after_dial, connecting, route_known, pass, follow, passes, teardown, torn_down, tunnel_loop,
}
use ssc.Daemon.Rules.{torn_down_returns}
use ssc.Daemon.Reconnect.{IsIdle, IsReleased, tunnel_loop-IsReleased}

-- whether the loop `wait` hears an end
abbrev pub hears_end : List Heard → Bool
hears_end [] = false
hears_end (context_done ∷ hs) = true
hears_end (wait_done e ∷ hs) = true
hears_end (health s te ∷ hs) = hears_end hs

abbrev Ends : Waited → Type 0
Ends still_waiting = ⊥
Ends cancelled = Unit
Ends (ended e) = Unit

wait_loop-Ends :
    (cfg : Config) (hs : List Heard) (st : Status)
    → hears_end hs ≡ true
    → Ends (wait_loop cfg hs st).1
unfolding wait_loop
wait_loop-Ends cfg [] st h = absurd (cc)
wait_loop-Ends cfg (context_done ∷ hs) st h = tt
wait_loop-Ends cfg (wait_done e ∷ hs) st h = tt
wait_loop-Ends cfg (health s te ∷ hs) st h =
    if_holds (λ (p : Status × Waited). Ends p.1) (leb 5 te) _ _ tt (wait_loop-Ends cfg hs _ h)

abbrev Moves : Pass → Type 0
Moves (waits l) = ⊥
Moves (returns l) = Unit
Moves (goes_on l) = Unit

after_wait-Moves : (o : Waited) (l : LoopState) → Ends o → Moves (after_wait o l)
after_wait-Moves cancelled l h = tt
after_wait-Moves (ended e) l h = tt
after_wait-Moves still_waiting l h = h

pass-Moves :
    (w : World) (cfg : Config) (sp : Profile) (r : Round) (l : LoopState)
    → hears_end r.heard ≡ true
    → Moves (pass w cfg sp r l)
unfolding pass connection
pass-Moves w cfg sp r l h = if_holds Moves r.done_before _ _ tt (
    if_holds Moves r.online _ _
      (elim r.dialled
        as (λ d. Moves (after_dial w cfg sp r.heard d (connecting (route_known r.online l)))) [
          | none ↦ tt
          | some ips ↦ after_wait-Moves _ _ (wait_loop-Ends cfg r.heard _ h)
        ])
      tt)

abbrev Returns : Pass → Type 0
Returns p = (m : LoopState) × (p ≡ returns m)

passes-Returns :
    (w : World) (cfg : Config) (sp : Profile) (rs : List Round) (stop : Round) (l : LoopState)
    → All (λ r. hears_end r.heard ≡ true) rs
    → stop.done_before ≡ true
    → Returns (passes w cfg sp (rs ++ stop ∷ []) l)
unfolding passes pass
passes-Returns w cfg sp [] stop l h d = rw d (l, refl)
passes-Returns w cfg sp (r ∷ rs) stop l (h, hs) d =
    follow-Returns (passes w cfg sp (rs ++ stop ∷ [])) (pass w cfg sp r l)
      (λ m. passes-Returns w cfg sp rs stop m hs d) (pass-Moves w cfg sp r l h)
  where
    follow-Returns :
        (next : LoopState → Pass) (p : Pass)
        → ((m : LoopState) → Returns (next m))
        → Moves p
        → Returns (follow next p)
    follow-Returns next (goes_on m) k v = k m
    follow-Returns next (returns m) k v = (m, refl)
    follow-Returns next (waits m) k v = absurd v

-- However often the network, the dials and the connections fail, `tunnelLoop` returns at the first
-- pass that finds its context done, and with everything released, if each of its connections was
-- waited for to its end.
pub tunnel_loop_returns :
    (w : World) (cfg : Config) (sp : Profile) (rs : List Round) (stop : Round) (l : LoopState)
    → IsIdle (record l { delay = pos 0 })
    → All (λ r. hears_end r.heard ≡ true) rs
    → stop.done_before ≡ true
    → (m : LoopState) × (tunnel_loop w cfg sp (rs ++ stop ∷ []) l ≡ returns m) × IsReleased m
unfolding tunnel_loop
tunnel_loop_returns w cfg sp rs stop l h hs d =
    let (n, e) = passes-Returns w cfg sp rs stop (record l { delay = pos 0 }) hs d in
    let p = ap (torn_down w cfg) e in
    (teardown w cfg n, p, tunnel_loop-IsReleased w cfg sp (rs ++ stop ∷ []) l _ h p)

-- whether the context ends before the attempt of a round or while it waits
abbrev pub hears_done : List Heard → Bool
hears_done [] = false
hears_done (context_done ∷ hs) = true
hears_done (wait_done e ∷ hs) = hears_done hs
hears_done (health s te ∷ hs) = hears_done hs

abbrev pub IsCalm : Round → Type 0
IsCalm r = (r.done_before ≡ false) × (hears_done r.heard ≡ false)

abbrev NotCancelled : Waited → Type 0
NotCancelled cancelled = ⊥
NotCancelled still_waiting = Unit
NotCancelled (ended e) = Unit

wait_loop-NotCancelled :
    (cfg : Config) (hs : List Heard) (st : Status)
    → hears_done hs ≡ false
    → NotCancelled (wait_loop cfg hs st).1
unfolding wait_loop
wait_loop-NotCancelled cfg [] st h = tt
wait_loop-NotCancelled cfg (context_done ∷ hs) st h = absurd (cc)
wait_loop-NotCancelled cfg (wait_done e ∷ hs) st h = tt
wait_loop-NotCancelled cfg (health s te ∷ hs) st h =
    if_holds (λ (p : Status × Waited). NotCancelled p.1) (leb 5 te) _ _ tt
      (wait_loop-NotCancelled cfg hs _ h)

abbrev Stays : Pass → Type 0
Stays (waits l) = Unit
Stays (returns l) = ⊥
Stays (goes_on l) = Unit

after_wait-Stays : (o : Waited) (l : LoopState) → NotCancelled o → Stays (after_wait o l)
after_wait-Stays cancelled l h = h
after_wait-Stays (ended e) l h = tt
after_wait-Stays still_waiting l h = tt

pass-Stays :
    (w : World) (cfg : Config) (sp : Profile) (r : Round) (l : LoopState)
    → IsCalm r
    → Stays (pass w cfg sp r l)
unfolding pass connection
pass-Stays w cfg sp r l (d, h) =
    if_decided Stays r.done_before _ _ (λ e. absurd (cc))
      (λ e.
        if_holds Stays r.online _ _
          (elim r.dialled
            as (λ d. Stays (after_dial w cfg sp r.heard d (connecting (route_known r.online l)))) [
              | none ↦ tt
              | some ips ↦ after_wait-Stays _ _ (wait_loop-NotCancelled cfg r.heard _ h)
            ])
          tt)

passes-Stays :
    (w : World) (cfg : Config) (sp : Profile) (rs : List Round) (l : LoopState)
    → All IsCalm rs
    → Stays (passes w cfg sp rs l)
unfolding passes
passes-Stays w cfg sp [] l h = tt
passes-Stays w cfg sp (r ∷ rs) l (h, hs) =
    follow-Stays (passes w cfg sp rs) (pass w cfg sp r l) (λ m. passes-Stays w cfg sp rs m hs)
      (pass-Stays w cfg sp r l h)
  where
    follow-Stays :
        (next : LoopState → Pass) (p : Pass)
        → ((m : LoopState) → Stays (next m))
        → Stays p
        → Stays (follow next p)
    follow-Stays next (goes_on m) k v = k m
    follow-Stays next (returns m) k v = v
    follow-Stays next (waits m) k v = tt

-- `tunnelLoop` does not give up: as long as its context is not done, no number of failures makes it
-- return.
pub tunnel_loop_persists :
    (w : World) (cfg : Config) (sp : Profile) (rs : List Round) (l m : LoopState)
    → All IsCalm rs
    → ¬ (tunnel_loop w cfg sp rs l ≡ returns m)
unfolding tunnel_loop
tunnel_loop_persists w cfg sp rs l m h e =
    let start : LoopState = record l { delay = pos 0 } in
    let (n, p, q) = torn_down_returns w cfg (passes w cfg sp rs start) m e in
    subst Stays p (passes-Stays w cfg sp rs start h)
