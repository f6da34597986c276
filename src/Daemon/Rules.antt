-- ===== src/Daemon/Rules.antt =====
-- What the loop of the tunnel does to the firewall.
use ssc.Base.{
  ◌≡◌, refl, sym, ap, Bool, true, false, List, [], ◌∷◌, none, some, Bytes, pos, if_holds,
  if_decided,
}
use mathlib.Core.Path.{subst}
use ssc.Config.{Config}
use ssc.Config.Types.{Profile}
use ssc.Iptables.{World, Log}
use ssc.Iptables.Setup.{apply, cleanup_firewall}
use ssc.Daemon.{iptables_cfg}
use ssc.Daemon.Loop.{
  Heard, Round, LoopState, Waited, cancelled, still_waiting, ended, dial_failed, applied, bring_up,
  dial_worked, Pass, returns, goes_on, waits, after_wait, connection, after_dial, connecting,
  route_known, pass, follow, passes, teardown, tunnel_loop, torn_down,
}

abbrev pub state_of : Pass → LoopState
state_of (goes_on l) = l
state_of (returns l) = l
state_of (waits l) = l

-- the part of the state that tells whether the traffic is redirected
abbrev Holds : (Bool → Bool → Log → Type 0) → LoopState → Type 0
Holds P l = P l.listeners l.iptables_up l.firewall

-- What `bring_up` keeps, the whole loop keeps.
module _ (w : World) (cfg : Config) (sp : Profile) (P : Bool → Bool → Log → Type 0)
    (keeps : (ips : List Bytes) (l : LoopState) → Holds P l → Holds P (bring_up w cfg ips l)) where
  after_wait-Holds : (o : Waited) (l : LoopState) → Holds P l → Holds P (state_of (after_wait o l))
  after_wait-Holds cancelled l h = h
  after_wait-Holds (ended e) l h = h
  after_wait-Holds still_waiting l h = h

  connection-Holds :
      (hs : List Heard) (ips : List Bytes) (l : LoopState)
      → Holds P l
      → Holds P (state_of (connection w cfg hs ips l))
  unfolding connection dial_worked
  connection-Holds hs ips l h = after_wait-Holds _ _ (keeps ips (dial_worked l) h)

  pass-Holds : (r : Round) (l : LoopState) → Holds P l → Holds P (state_of (pass w cfg sp r l))
  unfolding pass dial_failed
  pass-Holds r l h =
      let known = route_known r.online l in
      let Kept : Pass → Type 0 = λ p. Holds P (state_of p) in
      if_holds Kept r.done_before _ _ h (
        if_holds Kept r.online _ _
          (elim r.dialled as (λ d. Kept (after_dial w cfg sp r.heard d (connecting known))) [
            | none ↦ h
            | some ips ↦ connection-Holds r.heard ips (connecting known) h
          ])
          h)

  follow-Holds :
      (next : LoopState → Pass)
      → ((l : LoopState) → Holds P l → Holds P (state_of (next l)))
      → (p : Pass) → Holds P (state_of p)
      → Holds P (state_of (follow next p))
  follow-Holds next ih (goes_on l) h = ih l h
  follow-Holds next ih (returns l) h = h
  follow-Holds next ih (waits l) h = h

  passes-Holds :
      (rs : List Round) (l : LoopState) → Holds P l → Holds P (state_of (passes w cfg sp rs l))
  unfolding passes
  passes-Holds [] l h = h
  passes-Holds (r ∷ rs) l h =
      follow-Holds (passes w cfg sp rs) (passes-Holds rs) (pass w cfg sp r l) (pass-Holds r l h)

bring_up-listening :
    (w : World) (cfg : Config) (ips : List Bytes) (l : LoopState)
    → l.listeners ≡ true
    → bring_up w cfg ips l ≡ l
unfolding bring_up
bring_up-listening w cfg ips l h = rw h refl

-- Once the listeners are up, no loss of the connection, no failed attempt and no time without
-- network changes the firewall: the traffic stays redirected until the loop returns.
pub passes_fail_closed :
    (w : World) (cfg : Config) (sp : Profile) (rs : List Round) (l : LoopState)
    → l.listeners ≡ true
    → ((state_of (passes w cfg sp rs l)).firewall ≡ l.firewall)
      × ((state_of (passes w cfg sp rs l)).iptables_up ≡ l.iptables_up)
      × ((state_of (passes w cfg sp rs l)).listeners ≡ true)
passes_fail_closed w cfg sp rs l h =
    passes-Holds w cfg sp
      (λ listening up log. (log ≡ l.firewall) × (up ≡ l.iptables_up) × (listening ≡ true))
      (λ ips m k. rw (bring_up-listening w cfg ips m k.2) k) rs l (refl, refl, h)

-- how the commands of a run that returns extend those before it
pub data Story (w : World) (cfg : Config) (before : Log) : Log → Type 0 where
  untouched : Story w cfg before before
  refused :
      (ips : List Bytes)
      → (apply w (iptables_cfg cfg) ips before).0 ≡ false
      → Story w cfg before (apply w (iptables_cfg cfg) ips before).1
  cleaned :
      (ips : List Bytes)
      → (apply w (iptables_cfg cfg) ips before).0 ≡ true
      → Story w cfg before
          (cleanup_firewall w (iptables_cfg cfg) (apply w (iptables_cfg cfg) ips before).1)

-- the same while the loop runs
data Sofar (w : World) (cfg : Config) (before : Log) (listening up : Bool) (log : Log)
    : Type 0 where
  unchanged : up ≡ false → log ≡ before → Sofar w cfg before listening up log
  failed :
      (ips : List Bytes)
      → listening ≡ true
      → up ≡ false
      → (apply w (iptables_cfg cfg) ips before).0 ≡ false
      → log ≡ (apply w (iptables_cfg cfg) ips before).1
      → Sofar w cfg before listening up log
  redirected :
      (ips : List Bytes)
      → listening ≡ true
      → up ≡ true
      → (apply w (iptables_cfg cfg) ips before).0 ≡ true
      → log ≡ (apply w (iptables_cfg cfg) ips before).1
      → Sofar w cfg before listening up log

applied-Sofar :
    (w : World) (cfg : Config) (before : Log) (ips : List Bytes) (r : Bool × Log) (l : LoopState)
    → r ≡ apply w (iptables_cfg cfg) ips before
    → l.listeners ≡ true
    → l.iptables_up ≡ false
    → Holds (Sofar w cfg before) (applied cfg r l)
applied-Sofar w cfg before ips (true, log) l e h u =
    redirected ips h refl (sym (ap (λ r. r.0) e)) (ap (λ r. r.1) e)
applied-Sofar w cfg before ips (false, log) l e h u =
    failed ips h u (sym (ap (λ r. r.0) e)) (ap (λ r. r.1) e)

bring_up-Sofar :
    (w : World) (cfg : Config) (before : Log) (ips : List Bytes) (l : LoopState)
    → Holds (Sofar w cfg before) l
    → Holds (Sofar w cfg before) (bring_up w cfg ips l)
unfolding bring_up
bring_up-Sofar w cfg before ips l (failed old h u a e) =
    subst (Holds (Sofar w cfg before)) (sym (bring_up-listening w cfg ips l h)) (failed old h u a e)
bring_up-Sofar w cfg before ips l (redirected old h u a e) =
    subst (Holds (Sofar w cfg before)) (sym (bring_up-listening w cfg ips l h))
      (redirected old h u a e)
bring_up-Sofar w cfg before ips l (unchanged u e) =
    if_decided (Holds (Sofar w cfg before)) l.listeners _ _ (λ k. unchanged u e)
      (λ k.
        if_holds (Holds (Sofar w cfg before)) cfg.transparent_proxy.enabled _ _
          (applied-Sofar w cfg before ips _ _ (ap (apply w (iptables_cfg cfg) ips) e) refl u)
          (unchanged u e))

teardown-Story :
    (w : World) (cfg : Config) (before : Log) (l : LoopState)
    → Holds (Sofar w cfg before) l
    → Story w cfg before (teardown w cfg l).firewall
unfolding teardown
teardown-Story w cfg before l (unchanged u e) = rw (u, e) untouched
teardown-Story w cfg before l (failed ips h u a e) = rw (u, e) (refused ips a)
teardown-Story w cfg before l (redirected ips h u a e) = rw (u, e) (cleaned ips a)

-- A loop that returns is torn down.
pub torn_down_returns :
    (w : World) (cfg : Config) (p : Pass) (m : LoopState)
    → torn_down w cfg p ≡ returns m
    → (n : LoopState) × (p ≡ returns n) × (m ≡ teardown w cfg n)
torn_down_returns w cfg (returns n) m e = (n, refl, sym (ap state_of e))
torn_down_returns w cfg (goes_on n) m e = absurd (cc)
torn_down_returns w cfg (waits n) m e = absurd (cc)

-- A run of `tunnelLoop` that returns has left the firewall alone, has had its one attempt to apply
-- the rules refused, or has applied them once and cleaned them up last, whatever happened between.
pub tunnel_loop-Story :
    (w : World) (cfg : Config) (sp : Profile) (rs : List Round) (l m : LoopState)
    → l.iptables_up ≡ false
    → tunnel_loop w cfg sp rs l ≡ returns m
    → Story w cfg l.firewall m.firewall
unfolding tunnel_loop
tunnel_loop-Story w cfg sp rs l m u e =
    let start : LoopState = record l { delay = pos 0 } in
    let (n, p, q) = torn_down_returns w cfg (passes w cfg sp rs start) m e in
    let k =
      passes-Holds w cfg sp (Sofar w cfg l.firewall) (bring_up-Sofar w cfg l.firewall) rs start
        (unchanged u refl) in
    rw q (teardown-Story w cfg l.firewall n (rw (sym (ap state_of p)) k))
