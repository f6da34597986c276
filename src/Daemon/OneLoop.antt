-- ===== src/Daemon/OneLoop.antt =====
-- What the threads of the tunnel's life keep, whatever their order.
use ssc.Base.{
  ℕ, suc, ◌≡◌, ◌≢◌, refl, sym, true, false, ◌⊎◌, inl, inr, ◌==◌, if_decided, ==_iff, arith,
}
use mathlib.Core.Path.{subst}
use ssc.Daemon.Lifecycle.{
  Pc, gone, looping, returned, ending, restarting, delaying, resuming, Life, put, at_boot, Lock,
  free, found_running, stored_stop, start_tunnel, store_stop, cancel_tunnel, move, stored, Step,
  starts, stops, stores, cancels, stop_ends, loop_returns, panics, ends, ended, restarts, delays,
  gives_up, resumes, starts_again, finds_running, shuts_down, Reach, here, next,
}

abbrev IsLast : Life → ℕ → Type 0
IsLast s i = (suc i ≡ s.started) × (s.running ≡ true)

-- what holds of a run whose goroutine stands at a point
abbrev Fits : Life → ℕ → Pc → Type 0
Fits s i gone = Unit
Fits s i looping = IsLast s i × (s.cancelled i ≡ true → s.explicit_stop ≡ true)
Fits s i returned = IsLast s i × ((s.explicit_stop ≡ true) ⊎ (s.ctx_done ≡ true))
Fits s i ending = IsLast s i × ((s.explicit_stop ≡ true) ⊎ (s.ctx_done ≡ true))
Fits s i restarting = ⊥
Fits s i delaying = ⊥
Fits s i resuming = ⊥

-- what holds while a `stopTunnel` has the mutex
abbrev Held : Life → Lock → Type 0
Held s stored_stop = s.explicit_stop ≡ true
Held s other = Unit

pub record Inv (s : Life) : Type 0 where
  pub fits : (i : ℕ) → Fits s i (s.pc i)
  pub held : Held s s.lock

free-Held : (s : Life) (l : Lock) → l ≡ free → Held s l
free-Held s l e = subst (Held s) (sym e) tt

-- only the last run, and only while it is running, is not gone
Fits-gone : (s : Life) (i : ℕ) (p : Pc) → Fits s i p → ¬ (IsLast s i) → p ≡ gone
Fits-gone s i gone h k = refl
Fits-gone s i looping h k = absurd (k h.0)
Fits-gone s i returned h k = absurd (k h.0)
Fits-gone s i ending h k = absurd (k h.0)
Fits-gone s i restarting h k = absurd h
Fits-gone s i delaying h k = absurd h
Fits-gone s i resuming h k = absurd h

gone-Fits : (s : Life) (i : ℕ) (p : Pc) → p ≡ gone → Fits s i p
gone-Fits s i p e = subst (Fits s i) (sym e) tt

put-Fits :
    (t : Life) (i : ℕ) (p : Pc) (f : ℕ → Pc)
    → Fits t i p
    → ((j : ℕ) → j ≢ i → Fits t j (f j))
    → (j : ℕ) → Fits t j (put i p f j)
put-Fits t i p f h k j =
    if_decided (Fits t j) (j == i) p (f j) (λ e. subst (λ n. Fits t n p) (sym ((==_iff j i).0 e)) h)
      (λ e. k j (ground arith))

-- a goroutine that moves while no variable changes
move-Inv : (i : ℕ) (p : Pc) (s : Life) → Fits s i p → Inv s → Inv (move i p s)
move-Inv i p s h inv = record {
  fits = put-Fits (move i p s) i p s.pc h (λ j d. inv.fits j);
  held = inv.held;
}

Fits-at : (s : Life) (i : ℕ) {p : Pc} → Inv s → s.pc i ≡ p → Fits s i p
Fits-at s i inv e = subst (Fits s i) e (inv.fits i)

start_tunnel-Inv : (s : Life) → s.lock ≡ free → s.running ≡ false → Inv s → Inv (start_tunnel s)
start_tunnel-Inv s u e inv = record {
  held = free-Held (start_tunnel s) s.lock u;
  fits =
      put-Fits (start_tunnel s) s.started looping s.pc
        ((refl, refl), λ c. absurd (ground (arith, c)))
        (λ j d.
          gone-Fits (start_tunnel s) j (s.pc j)
            (Fits-gone s j (s.pc j) (inv.fits j) (λ l. let r = l.1 in absurd (cc))));
}

-- The fits depend on what a step of `stopTunnel` leaves as it is.
entered-Fits :
    (s : Life) (l : Lock) (i : ℕ) (p : Pc) → Fits s i p → Fits (record s { lock = l }) i p
entered-Fits s l i gone h = tt
entered-Fits s l i looping h = h
entered-Fits s l i returned h = h
entered-Fits s l i ending h = h
entered-Fits s l i restarting h = h
entered-Fits s l i delaying h = h
entered-Fits s l i resuming h = h

store_stop-Fits : (s : Life) (i : ℕ) (p : Pc) → Fits s i p → Fits (store_stop s) i p
store_stop-Fits s i gone h = tt
store_stop-Fits s i looping h = (h.0, λ c. refl)
store_stop-Fits s i returned h = (h.0, inl refl)
store_stop-Fits s i ending h = (h.0, inl refl)
store_stop-Fits s i restarting h = h
store_stop-Fits s i delaying h = h
store_stop-Fits s i resuming h = h

-- whatever context is cancelled, the stop was stored before
cancel_tunnel-Fits :
    (s : Life) (i : ℕ) (p : Pc) → s.explicit_stop ≡ true → Fits s i p → Fits (cancel_tunnel s) i p
cancel_tunnel-Fits s i gone e h = tt
cancel_tunnel-Fits s i looping e h = (h.0, λ c. e)
cancel_tunnel-Fits s i returned e h = h
cancel_tunnel-Fits s i ending e h = h
cancel_tunnel-Fits s i restarting e h = h
cancel_tunnel-Fits s i delaying e h = h
cancel_tunnel-Fits s i resuming e h = h

done-Fits : (s : Life) (i : ℕ) (p : Pc) → Fits s i p → Fits (record s { ctx_done = true }) i p
done-Fits s i gone h = tt
done-Fits s i looping h = h
done-Fits s i returned h = (h.0, inr refl)
done-Fits s i ending h = (h.0, inr refl)
done-Fits s i restarting h = h
done-Fits s i delaying h = h
done-Fits s i resuming h = h

-- the last run ends: no other goroutine is left
stored-Inv : (i : ℕ) (s : Life) → IsLast s i → Inv s → Inv (move i gone (stored s))
stored-Inv i s l inv = record {
  held = inv.held;
  fits = put-Fits (move i gone (stored s)) i gone s.pc tt (λ j d.
      gone-Fits (move i gone (stored s)) j (s.pc j) (
        Fits-gone s j (s.pc j) (inv.fits j)
          (λ k. let (a, b) = k in let (c, e) = l in d (omega arith))));
}

why_returns :
    (s : Life) (i : ℕ)
    → (s.cancelled i ≡ true → s.explicit_stop ≡ true)
    → (s.cancelled i ≡ true) ⊎ (s.ctx_done ≡ true)
    → (s.explicit_stop ≡ true) ⊎ (s.ctx_done ≡ true)
why_returns s i h (inl c) = inl (h c)
why_returns s i h (inr d) = inr d

neither :
    (s : Life)
    → (s.explicit_stop ≡ true) ⊎ (s.ctx_done ≡ true)
    → s.explicit_stop ≡ false
    → s.ctx_done ≡ false
    → ⊥
neither s (inl e) a b = absurd (cc)
neither s (inr e) a b = absurd (cc)

pub Step-Inv : {s t : Life} → Step s t → Inv s → Inv t
Step-Inv (starts s u r) inv = start_tunnel-Inv s u r inv
Step-Inv (stops s u r) inv = record {
  fits = λ i. entered-Fits s found_running i (s.pc i) (inv.fits i);
  held = tt;
}
Step-Inv (stores s u) inv = record {
  fits = λ i. store_stop-Fits s i (s.pc i) (inv.fits i);
  held = refl;
}
Step-Inv (cancels s u) inv = record {
  fits = λ i. cancel_tunnel-Fits s i (s.pc i) (subst (Held s) u inv.held) (inv.fits i);
  held = tt;
}
Step-Inv (stop_ends s u) inv = record {
  fits = λ i. entered-Fits s free i (s.pc i) (inv.fits i);
  held = tt;
}
Step-Inv (loop_returns i s e c) inv =
    let (l, h) = Fits-at s i inv e in move-Inv i returned s (l, why_returns s i h c) inv
Step-Inv (panics i s e) inv = move-Inv i gone s tt inv
Step-Inv (ends i s e c) inv = let h = Fits-at s i inv e in move-Inv i ending s (h.0, c) inv
Step-Inv (ended i s e) inv = let h = Fits-at s i inv e in stored-Inv i s h.0 inv
Step-Inv (restarts i s e a b) inv = let h = Fits-at s i inv e in absurd (neither s h.1 a b)
Step-Inv (delays i s e) inv = absurd (Fits-at s i inv e)
Step-Inv (gives_up i s e) inv = absurd (Fits-at s i inv e)
Step-Inv (resumes i s e a b) inv = absurd (Fits-at s i inv e)
Step-Inv (starts_again i s e a b) inv = absurd (Fits-at s i inv e)
Step-Inv (finds_running i s e a b) inv = absurd (Fits-at s i inv e)
Step-Inv (shuts_down s) inv = record {
  fits = λ i. done-Fits s i (s.pc i) (inv.fits i);
  held = inv.held;
}

at_boot-Inv : Inv at_boot
at_boot-Inv = record { fits = λ i. tt; held = tt }

Reach-Inv : {s : Life} → Reach at_boot s → Inv s
Reach-Inv here = at_boot-Inv
Reach-Inv (next t u r m) = Step-Inv m (Reach-Inv r)

-- At most one tunnel loop runs at any time, that of the last start, and `tunnelRunning` is set
-- while it does.
pub looping_once :
    (s : Life) (i j : ℕ)
    → Reach at_boot s
    → s.pc i ≡ looping
    → s.pc j ≡ looping
    → (i ≡ j) × (suc i ≡ s.started) × (s.running ≡ true)
looping_once s i j r e f =
    let ((a, b), c) = Fits-at s i (Reach-Inv r) e in
    let ((k, l), m) = Fits-at s j (Reach-Inv r) f in (omega arith, a, b)

abbrev pub IsRestart : Pc → Type 0
IsRestart restarting = Unit
IsRestart delaying = Unit
IsRestart resuming = Unit
IsRestart other = ⊥

-- The automatic restart is never reached, in any interleaving of the goroutine with `startTunnel`
-- and `stopTunnel`: a tunnel loop that returns was stopped or shut down, and since `stopTunnel`
-- stores `explicitStop` before it cancels the context, the goroutine finds it set.
pub never_restarts : (s : Life) (i : ℕ) → Reach at_boot s → ¬ (IsRestart (s.pc i))
never_restarts s i r h = no_restart (s.pc i) ((Reach-Inv r).fits i) h
  where
    no_restart : (p : Pc) → Fits s i p → IsRestart p → ⊥
    no_restart gone f k = k
    no_restart looping f k = k
    no_restart returned f k = k
    no_restart ending f k = k
    no_restart restarting f k = f
    no_restart delaying f k = f
    no_restart resuming f k = f

-- `tunnelRunning` is set and no goroutine is left that clears it.
pub record IsStuck (n : ℕ) (s : Life) : Type 0 where
  pub is_running : s.running ≡ true
  pub all_gone : (i : ℕ) → s.pc i ≡ gone
  pub same_runs : s.started ≡ n

panic-IsStuck : (s : Life) (i : ℕ) → Inv s → s.pc i ≡ looping → IsStuck s.started (move i gone s)
panic-IsStuck s i inv e =
    let ((a, b), c) = Fits-at s i inv e in
    record {
      is_running = b;
      all_gone = λ j.
          if_decided (λ p. p ≡ gone) (j == i) gone (s.pc j) (λ d. refl)
            (λ d.
              Fits-gone s j (s.pc j) (inv.fits j)
                (λ l. let (k, m) = l in let f : j ≡ i = omega arith in ground (arith, d, f)));
      same_runs = refl;
    }

Step-IsStuck : {n : ℕ} {s t : Life} → Step s t → IsStuck n s → IsStuck n t
Step-IsStuck (starts s u r) h = let e = h.is_running in absurd (cc)
Step-IsStuck (stops s u r) h = record {
  is_running = h.is_running;
  all_gone = h.all_gone;
  same_runs = h.same_runs;
}
Step-IsStuck (stores s u) h = record {
  is_running = h.is_running;
  all_gone = h.all_gone;
  same_runs = h.same_runs;
}
Step-IsStuck (cancels s u) h = record {
  is_running = h.is_running;
  all_gone = h.all_gone;
  same_runs = h.same_runs;
}
Step-IsStuck (stop_ends s u) h = record {
  is_running = h.is_running;
  all_gone = h.all_gone;
  same_runs = h.same_runs;
}
Step-IsStuck (shuts_down s) h = record {
  is_running = h.is_running;
  all_gone = h.all_gone;
  same_runs = h.same_runs;
}
Step-IsStuck (loop_returns i s e c) h = let g = h.all_gone i in absurd (cc)
Step-IsStuck (panics i s e) h = let g = h.all_gone i in absurd (cc)
Step-IsStuck (ends i s e c) h = let g = h.all_gone i in absurd (cc)
Step-IsStuck (ended i s e) h = let g = h.all_gone i in absurd (cc)
Step-IsStuck (restarts i s e a b) h = let g = h.all_gone i in absurd (cc)
Step-IsStuck (delays i s e) h = let g = h.all_gone i in absurd (cc)
Step-IsStuck (gives_up i s e) h = let g = h.all_gone i in absurd (cc)
Step-IsStuck (resumes i s e a b) h = let g = h.all_gone i in absurd (cc)
Step-IsStuck (starts_again i s e a b) h = let g = h.all_gone i in absurd (cc)
Step-IsStuck (finds_running i s e a b) h = let g = h.all_gone i in absurd (cc)

Reach-IsStuck : {n : ℕ} {s t : Life} → IsStuck n s → Reach s t → IsStuck n t
Reach-IsStuck h here = h
Reach-IsStuck h (next t u r m) = Step-IsStuck m (Reach-IsStuck h r)

-- After a panic in the tunnel loop `tunnelRunning` stays set for good: no start, stop or restart
-- that follows runs a tunnel again, until the daemon itself is started anew.
pub panic_is_final :
    (s u : Life) (i : ℕ)
    → Reach at_boot s
    → s.pc i ≡ looping
    → Reach (move i gone s) u
    → IsStuck s.started u
panic_is_final s u i r e k = Reach-IsStuck (panic-IsStuck s i (Reach-Inv r) e) k
