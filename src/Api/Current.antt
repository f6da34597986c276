-- ===== src/Api/Current.antt =====
-- internal/api/api.go: the client of `handleEvents` is sent the current state.
use mathlib.Core.Path.{subst}
use ssc.Base.{ℕ, ◌≡◌, ◌≢◌, refl, ◌∙◌, Bool, true, false, List, [], ◌∷◌, ◌++◌, arith}
use ssc.Api.Notify.{
  Subs, subscribe, cleanup, without, filled, emptied, broadcast, receive, pending, listed, Op,
  subscribes, broadcasts, cleans, receives, step, Spares, pending-step, pending-filled,
}
use ssc.Api.Events.{
  EventPhase, opened, greeted, finished, listening, woken, World, change, announce, listen, IsOther,
  Step, changes, announces, others, greets, gives_up, listens, wakes, sends, fails, beats, ends,
  Reach, here, next,
}

listed-filled : (id : ℕ) (l : List (ℕ × Bool)) → listed id (filled l) ≡ listed id l
unfolding listed filled
listed-filled id [] = refl
listed-filled id ((n, b) ∷ l) = ground (arith, listed-filled id l)

listed-emptied : (id n : ℕ) (l : List (ℕ × Bool)) → listed id (emptied n l) ≡ listed id l
unfolding listed emptied
listed-emptied id n [] = refl
listed-emptied id n ((m, b) ∷ l) = ground (arith, listed-emptied id n l)

listed-append :
    (id n : ℕ) (l : List (ℕ × Bool)) → listed id l ≡ true → listed id (l ++ (n, false) ∷ []) ≡ true
unfolding listed
listed-append id n [] h = absurd (cc)
listed-append id n ((m, b) ∷ l) h = ground (arith, listed-append id n l)

listed-subscribed : (n : ℕ) (l : List (ℕ × Bool)) → listed n (l ++ (n, false) ∷ []) ≡ true
unfolding listed
listed-subscribed n [] = ground arith
listed-subscribed n ((m, b) ∷ l) = ground (arith, listed-subscribed n l)

listed-without :
    (id n : ℕ) (l : List (ℕ × Bool)) → n ≢ id → listed id l ≡ true → listed id (without n l) ≡ true
unfolding listed without
listed-without id n [] k h = h
listed-without id n ((m, b) ∷ l) k h = ground (arith, listed-without id n l)

listed-step :
    (id : ℕ) (o : Op) (s : Subs)
    → Spares id o
    → listed id s.subs ≡ true
    → listed id (step o s).subs ≡ true
unfolding subscribe broadcast cleanup receive
listed-step id subscribes s k h = listed-append id s.next s.subs h
listed-step id broadcasts s k h = listed-filled id s.subs ∙ h
listed-step id (cleans n) s k h = listed-without id n s.subs k h
listed-step id (receives n) s k h = listed-emptied id n s.subs ∙ h

-- The channel is among the subscribers, and a client that was not sent the current state is about
-- to hear of it: a message waits, or a broadcast is to come.
abbrev Hears : ℕ → World → Type 0
Hears id w =
    (listed id w.subs.subs ≡ true) × (pending id w.subs ≡ false → w.due ≡ 0 → w.sent ≡ w.version)

abbrev IsTold : EventPhase → World → Type 0
IsTold (listening id) w = Hears id w
IsTold (woken id) w = listed id w.subs.subs ≡ true
IsTold finished w = Unit
IsTold opened w = ⊥
IsTold greeted w = ⊥

change-IsTold : (p : EventPhase) (w : World) → IsTold p w → IsTold p (change w)
change-IsTold (listening id) w (h, k) = (h, λ _ e. absurd (omega (arith, e)))
change-IsTold (woken id) w h = h
change-IsTold finished w h = h
change-IsTold opened w h = h
change-IsTold greeted w h = h

announce-IsTold : (p : EventPhase) (w : World) → IsTold p w → IsTold p (announce w)
unfolding broadcast
announce-IsTold (listening id) w (h, k) =
    let there = pending-filled id w.subs.subs ∙ h in
    (listed-filled id w.subs.subs ∙ h, λ e _. absurd (cc))
announce-IsTold (woken id) w h = listed-filled id w.subs.subs ∙ h
announce-IsTold finished w h = h
announce-IsTold opened w h = h
announce-IsTold greeted w h = h

others-IsTold :
    (p : EventPhase) (o : Op) (w : World)
    → IsOther p o
    → IsTold p w
    → IsTold p (record w { subs = step o w.subs })
others-IsTold (listening id) o w f (h, k) =
    (listed-step id o w.subs f h, λ e d. k (still (pending id w.subs) refl e) d)
  where
    still : (b : Bool) → pending id w.subs ≡ b → pending id (step o w.subs) ≡ false → b ≡ false
    still true g e = let kept = pending-step id o w.subs f g in absurd (cc)
    still false g e = refl
others-IsTold (woken id) o w f h = listed-step id o w.subs f h
others-IsTold finished o w f h = h
others-IsTold opened o w f h = h
others-IsTold greeted o w f h = h

Step-IsTold : (v w : World) → Step v w → IsTold v.phase v → IsTold w.phase w
unfolding receive
Step-IsTold v w (changes _) h = change-IsTold v.phase v h
Step-IsTold v w (announces _ _) h = announce-IsTold v.phase v h
Step-IsTold v w (others o _ f) h = others-IsTold v.phase o v f h
Step-IsTold v w (greets _ e) h = absurd (subst (λ p. IsTold p v) e h)
Step-IsTold v w (gives_up _ e) h = absurd (subst (λ p. IsTold p v) e h)
Step-IsTold v w (listens _ e) h = absurd (subst (λ p. IsTold p v) e h)
Step-IsTold v w (wakes id _ e f) h =
    listed-emptied id id v.subs.subs ∙ (subst (λ p. IsTold p v) e h).0
Step-IsTold v w (sends id _ e) h = (subst (λ p. IsTold p v) e h, λ _ _. refl)
Step-IsTold v w (fails id _ e) h = tt
Step-IsTold v w (beats id _ e) h = h
Step-IsTold v w (ends id _ e) h = tt

Reach-IsTold : (u w : World) → Reach u w → IsTold u.phase u → IsTold w.phase w
Reach-IsTold u w (here _) h = h
Reach-IsTold u w (next _ v _ r s) h = Step-IsTold v w s (Reach-IsTold u v r h)

-- If the state has not changed between the first status that `handleEvents` sends and its
-- subscription, then whatever changes, other subscribers and turns of the handler follow: when the
-- handler waits, no message waits for it and no broadcast is to come, the last status that the
-- client was sent is the current state.
pub Reach-sent :
    (g w : World) (id : ℕ)
    → g.sent ≡ g.version
    → Reach (listen g) w
    → w.phase ≡ listening id
    → pending id w.subs ≡ false
    → w.due ≡ 0
    → w.sent ≡ w.version
unfolding subscribe
Reach-sent g w id h r e p d =
    (subst (λ q. IsTold q w) e
        (Reach-IsTold (listen g) w r (listed-subscribed g.subs.next g.subs.subs, λ _ _. h))).1
      p d
