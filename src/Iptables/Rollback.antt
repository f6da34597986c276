-- ===== src/Iptables/Rollback.antt =====
-- internal/iptables/iptables.go: `Apply` removes its rules when it fails, and `Cleanup` the jumps that
-- `Apply` inserts.
use mathlib.Core.Path.{subst}
use ssc.Base.{
  ◌≡◌, ◌⊎◌, ◌∙◌, ap, inl, inr, refl, sym, Bool, true, false, List, [], ◌∷◌, ◌++◌, append_assoc,
  append-nil, if_decided, if_holds, All, Bytes,
}
use ssc.Iptables.{Command, Log, World, run, run_all, del_rule, ins_rule}
use ssc.Iptables.Jumps.{IsJumpTable, Undone, Adds, adds, Adds-trans, plain-AllUndone}
use ssc.Iptables.Inserted.{cleanup_rules-Adds, one}
use ssc.Iptables.Removals.{Has, Has-cleanup, removes_redirect, removes_tproxy}
use ssc.Iptables.Rules.{RulesConfig, cleanup_rules}
use ssc.Iptables.Setup.{
  redirect_hook, tproxy_hook, complete, hook, redirect, tproxy, policy_routing, sysctls, apply,
  cleanup_firewall,
}
use ssc.Iptables.Stages.{redirect-Adds, tproxy-Adds, complete-Adds}

-- In a log that begins with `start`, the command was run after that, and the kernel's answer to it
-- was this one.
abbrev pub Answered : World → Command → Bool → Log → Log → Type 0
Answered w c b start log =
    (since after : Log) × (log ≡ ((start ++ since) ++ c ∷ []) ++ after) × (w (start ++ since) c ≡ b)

-- How `Apply` ends: with an error, after the kernel refused one of the two hooks, and then the removal
-- of the rules comes last; or with success, after it accepted both.
abbrev pub Ended : World → RulesConfig → Log → Bool × Log → Type 0
Ended w cfg start r =
    ((r.0 ≡ false)
      × ((before : Log) × (r.1 ≡ cleanup_rules w cfg before)
          × (Answered w (redirect_hook cfg) false start before
              ⊎ Answered w (tproxy_hook cfg) false start before)))
    ⊎ ((r.0 ≡ true)
        × Answered w (redirect_hook cfg) true start r.1
        × Answered w (tproxy_hook cfg) true start r.1)

Answered-Adds :
    (w : World) (cfg : RulesConfig) (c : Command) (b : Bool) (start l m : Log)
    → Adds cfg l m
    → Answered w c b start l
    → Answered w c b start m
Answered-Adds w cfg c b start l m (more, e, h) (since, after, f, k) = (
  since,
  after ++ more,
  e ∙ ap (λ r. r ++ more) f ∙ append_assoc ((start ++ since) ++ c ∷ []) after more,
  k,
)

now :
    (w : World) (cfg : RulesConfig) (c : Command) (b : Bool) (start l : Log)
    → Adds cfg start l
    → w l c ≡ b
    → Answered w c b start (run c l)
now w cfg c b start l (more, e, h) k =
    (more, [], ap (run c) e ∙ sym (append-nil (run c (start ++ more))), subst (λ m. w m c ≡ b) e k)

hook-Ended :
    (w : World) (cfg : RulesConfig) (c : Command) (next : Log → Bool × Log) (start log : Log)
    → Adds cfg start log
    → (c ≡ redirect_hook cfg) ⊎ (c ≡ tproxy_hook cfg)
    → (w log c ≡ true → Ended w cfg start (next (run c log)))
    → Ended w cfg start (hook w cfg c next log)
hook-Ended w cfg c next start log adds which h =
    if_decided (Ended w cfg start) (w log c) (next (run c log))
      (false, cleanup_rules w cfg (run c log)) h
      (λ e. inl (refl, (run c log, refl, refused which (now w cfg c false start log adds e))))
  where
    refused :
        (c ≡ redirect_hook cfg) ⊎ (c ≡ tproxy_hook cfg)
        → Answered w c false start (run c log)
        → Answered w (redirect_hook cfg) false start (run c log)
          ⊎ Answered w (tproxy_hook cfg) false start (run c log)
    refused (inl e) k = inl (subst (λ d. Answered w d false start (run c log)) e k)
    refused (inr e) k = inr (subst (λ d. Answered w d false start (run c log)) e k)

-- up to the first hook
ready-Adds :
    (w : World) (cfg : RulesConfig) (ips : List Bytes) (log : Log)
    → Adds cfg log
        (redirect w cfg ips (run_all (policy_routing ++ sysctls) (cleanup_rules w cfg log)))
ready-Adds w cfg ips log =
    let cleaned = cleanup_rules w cfg log in
    let routed = run_all (policy_routing ++ sysctls) cleaned in
    Adds-trans cfg log cleaned _ (cleanup_rules-Adds w cfg log) (
      Adds-trans cfg cleaned routed _
        (adds cfg cleaned (policy_routing ++ sysctls)
          (plain-AllUndone cfg (policy_routing ++ sysctls) refl))
        (redirect-Adds w cfg ips routed))

-- With any kernel, `Apply` ends in one of two ways. It fails after the kernel has refused the hook for
-- local traffic or the one for the hotspot, and its last commands are the removal of all rules
-- (`cleanupRules`; the policy routing and the settings of the first phase stay). Or it succeeds, and
-- the kernel has accepted both hooks among the commands of this run.
pub apply-Ended :
    (w : World) (cfg : RulesConfig) (ips : List Bytes) (log : Log)
    → Ended w cfg log (apply w cfg ips log)
unfolding apply
apply-Ended w cfg ips log =
    let a = redirect w cfg ips (run_all (policy_routing ++ sysctls) (cleanup_rules w cfg log)) in
    let l = run (redirect_hook cfg) a in
    let b = tproxy w cfg ips l in
    let m = run (tproxy_hook cfg) b in
    let to_b : Adds cfg l b = tproxy-Adds w cfg ips l in
    let to_l = one cfg a (redirect_hook cfg) (λ t. removes_redirect cfg) in
    let to_m = one cfg b (tproxy_hook cfg) (λ t. removes_tproxy cfg) in
    let until_b =
      Adds-trans cfg log a b (ready-Adds w cfg ips log) (Adds-trans cfg a l b to_l to_b) in
    hook-Ended w cfg (redirect_hook cfg)
      (λ l. hook w cfg (tproxy_hook cfg) (λ m. (true, complete w cfg m)) (tproxy w cfg ips l)) log a
      (ready-Adds w cfg ips log) (inl refl)
      (λ first.
        hook-Ended w cfg (tproxy_hook cfg) (λ m. (true, complete w cfg m)) log b until_b (inr refl)
          (λ second. inr (
            refl,
            Answered-Adds w cfg (redirect_hook cfg) true log l (complete w cfg m)
                (Adds-trans cfg l b _ to_b (Adds-trans cfg b m _ to_m (complete-Adds w cfg m)))
                (now w cfg (redirect_hook cfg) true log a (ready-Adds w cfg ips log) first),
            Answered-Adds w cfg (tproxy_hook cfg) true log m (complete w cfg m)
                (complete-Adds w cfg m) (now w cfg (tproxy_hook cfg) true log b until_b second),
          )))

hook-Adds :
    (w : World) (cfg : RulesConfig) (c : Command) (next : Log → Bool × Log) (log : Log)
    → Undone cfg c
    → ((l : Log) → Adds cfg l (next l).1)
    → Adds cfg log (hook w cfg c next log).1
hook-Adds w cfg c next log u h =
    if_holds (λ (r : Bool × Log). Adds cfg log r.1) (w log c) _ _
      (Adds-trans cfg log (run c log) _ (one cfg log c u) (h (run c log)))
      (Adds-trans cfg log (run c log) _ (one cfg log c u) (cleanup_rules-Adds w cfg (run c log)))

apply-Adds :
    (w : World) (cfg : RulesConfig) (ips : List Bytes) (log : Log)
    → Adds cfg log (apply w cfg ips log).1
unfolding apply
apply-Adds w cfg ips log = Adds-trans cfg log _ _ (ready-Adds w cfg ips log) (
    hook-Adds w cfg (redirect_hook cfg)
      (λ l. hook w cfg (tproxy_hook cfg) (λ m. (true, complete w cfg m)) (tproxy w cfg ips l)) _
      (λ t. removes_redirect cfg)
      (λ l. Adds-trans cfg l _ _ (tproxy-Adds w cfg ips l) (
        hook-Adds w cfg (tproxy_hook cfg) (λ m. (true, complete w cfg m)) _
          (λ t. removes_tproxy cfg) (λ m. complete-Adds w cfg m))))

All-Has : {A : Type 0} (P : A → Type 0) (c : A) (cs : List A) → All P cs → Has c cs → P c
All-Has P c [] h k = absurd k
All-Has P c (d ∷ cs) (h, hs) (inl e) = subst P (sym e) h
All-Has P c (d ∷ cs) (h, hs) (inr k) = All-Has P c cs hs k

-- With any kernel and configuration, whether `Apply` succeeds or not: every rule that it inserts into a
-- chain of the tables nat or mangle is one that `Cleanup` with this configuration, run at any later
-- time, asks the kernel to delete, in the same table and chain and with the same arguments.
pub cleanup_firewall-Removes :
    (w v : World) (cfg : RulesConfig) (ips : List Bytes) (log : Log) (table chain : Bytes)
    (args : List Bytes)
    → Has (ins_rule table chain args) (apply w cfg ips []).1
    → IsJumpTable table
    → Has (del_rule table chain args) (cleanup_firewall v cfg log)
cleanup_firewall-Removes w v cfg ips log table chain args h t =
    let (more, e, undone) = apply-Adds w cfg ips [] in
    Has-cleanup _ v cfg log (
      All-Has (Undone cfg) (ins_rule table chain args) more undone
        (subst (Has (ins_rule table chain args)) e h) t)
