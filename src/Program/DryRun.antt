-- ===== src/Program/DryRun.antt =====
-- A whole run of the program, cmd/main.go, over policies that ask for a dry run.
use Prim.Native.Char.{Char}
use vpsie_k8s_capi_autoscale.Base.{
  ◌≡◌, inl, inr, String, true, ok, Option, none, some, All-map, All-append, All-at, IsIn,
  IsIn-append, List, [], ◌∷◌, Dict, All, cond_cases, Result-cases,
}
use vpsie_k8s_capi_autoscale.Policy.{ScalingPolicyStatus}
use vpsie_k8s_capi_autoscale.Float.{Float64}
use vpsie_k8s_capi_autoscale.World.{Calls, Env, Lookup-cases, get_policy, list_policies, found}
use vpsie_k8s_capi_autoscale.Horizontal.Pass.{Exit, exit_cases}
use vpsie_k8s_capi_autoscale.Horizontal.DryRun.{IsReadOnly}
use vpsie_k8s_capi_autoscale.NodePool.Groups.{PlanGroup}
use vpsie_k8s_capi_autoscale.Controller.{Policy, Objects, Caches}
use vpsie_k8s_capi_autoscale.Controller.DryRun.{IsIdle, reconcile-IsReadOnly}
use vpsie_k8s_capi_autoscale.Controller.Reconcile.{reconcile}
use vpsie_k8s_capi_autoscale.Rebalancer.{rebalance_policy}
use vpsie_k8s_capi_autoscale.Rebalancer.Cycle.{rebalance_policies, run_cycle}
use vpsie_k8s_capi_autoscale.Controller.Ending.{EndsIdle, reconcile-IsIdle}
use vpsie_k8s_capi_autoscale.Rebalancer.Idle.{rebalance_policy-IsIdle}
use vpsie_k8s_capi_autoscale.Rebalancer.Justified.{rebalance_policy-IsReadOnly}
use vpsie_k8s_capi_autoscale.Program.{
  State, rebalanced_statuses, cycle_statuses, ended_statuses, request, tick, Reach, here, next,
  after_request, after_tick,
}

-- The policy asks for a dry run, and its status is one of those.
abbrev pub IsDryOf : {F : Type 0} → List ScalingPolicyStatus → Policy F → Type 0
IsDryOf statuses policy = (policy.spec.dry_run ≡ true) × IsIn policy.status statuses

-- The policy asks for a dry run, and nothing is under way for it.
abbrev IsCalm : {F : Type 0} → Policy F → Type 0
IsCalm policy = (policy.spec.dry_run ≡ true) × IsIdle policy.status

EndsIdle-All : {F : Type 0} (o : Option (Policy F)) → EndsIdle o → All IsIdle (ended_statuses o)
EndsIdle-All none h = tt
EndsIdle-All (some policy) h = (h, tt)

IsDryOf-IsCalm :
    {F : Type 0} (statuses : List ScalingPolicyStatus) (policies : List (Policy F))
    → All IsIdle statuses
    → All (IsDryOf statuses) policies
    → All IsCalm policies
IsDryOf-IsCalm statuses policies idle h =
    All-map (λ policy (dry, there). (dry, All-at IsIdle statuses policy.status idle there)) policies
      h

module _ {F K : Type 0} ⦃f : Float64 F⦄ (lower_rune : Char → Char) (env : Env)
    (objects : Objects F K) where
  rebalance_policies-IsReadOnly :
      (policies : List (Policy F)) (caches : Caches F) (calls : Calls)
      → All IsCalm policies
      → All IsReadOnly calls
      → All IsReadOnly (rebalance_policies lower_rune env objects policies caches calls).1
  unfolding rebalance_policies
  rebalance_policies-IsReadOnly [] caches calls calm h = h
  rebalance_policies-IsReadOnly (policy ∷ policies) caches calls ((dry, idle), all_calm) h =
      let h' = rebalance_policy-IsReadOnly lower_rune env objects policy caches calls dry h in
      let skipped = rebalance_policies-IsReadOnly policies caches calls all_calm h in
      let r = rebalance_policy lower_rune env objects policy caches calls in
      let rest = rebalance_policies-IsReadOnly policies r.caches r.calls all_calm h' in
      let Q : Caches F × Calls × Exit → Type 0 = λ q. All IsReadOnly q.1 in
      cond_cases Q policy.spec.rebalancing.enabled (exit_cases Q r.exit h' rest) skipped

  rebalanced_statuses-IsIdle :
      (policies : List (Policy F)) (caches : Caches F) (calls : Calls)
      → All IsCalm policies
      → All IsReadOnly calls
      → All IsIdle (rebalanced_statuses lower_rune env objects policies caches calls)
  unfolding rebalanced_statuses
  rebalanced_statuses-IsIdle [] caches calls calm h = tt
  rebalanced_statuses-IsIdle (policy ∷ policies) caches calls ((dry, idle), all_calm) h =
      let h' = rebalance_policy-IsReadOnly lower_rune env objects policy caches calls dry h in
      let skipped = rebalanced_statuses-IsIdle policies caches calls all_calm h in
      let r = rebalance_policy lower_rune env objects policy caches calls in
      let rest = rebalanced_statuses-IsIdle policies r.caches r.calls all_calm h' in
      let here = rebalance_policy-IsIdle lower_rune env objects policy dry idle caches calls h in
      let Q : List ScalingPolicyStatus → Type 0 = λ q. All IsIdle q in
      cond_cases Q policy.spec.rebalancing.enabled (exit_cases Q r.exit tt (here, rest)) skipped

module _ {F K : Type 0} ⦃f : Float64 F⦄ (lower_rune : Char → Char)
    (range : Dict (PlanGroup F) → List (String × PlanGroup F)) (env : Env)
    (objects : Objects F K) where
  -- The program started from the state, and policies are read with a status of the start or one that the
  -- program has written, and with a spec that asks for a dry run.
  pub record AnswersDryRun (start : State F) : Type 0 where
    pub read :
        (s : State F)
        → Reach lower_rune range env objects start s
        → (namespace name : String) (policy : Policy F)
        → objects.policy (get_policy namespace name ∷ s.calls) ≡ found policy
        → IsDryOf s.statuses policy
    pub listed :
        (s : State F)
        → Reach lower_rune range env objects start s
        → (policies : List (Policy F)) → objects.policies (list_policies "" ∷ s.calls) ≡ ok policies
        → All (IsDryOf s.statuses) policies

  -- A status that can be read once can be read later.
  pub Reach-IsIn :
      (start t : State F) (status : ScalingPolicyStatus)
      → Reach lower_rune range env objects start t
      → IsIn status start.statuses
      → IsIn status t.statuses
  unfolding after_request after_tick
  Reach-IsIn start t status here h = h
  Reach-IsIn start t status (next {t = s} r (request namespace name e)) h = rw e (
      IsIn-append status
        (ended_statuses
          (reconcile lower_rune range env objects namespace name s.caches s.calls).policy)
        s.statuses (Reach-IsIn start s status r h))
  Reach-IsIn start t status (next {t = s} r (tick e)) h = rw e (
      IsIn-append status (cycle_statuses lower_rune env objects s.caches s.calls) s.statuses
        (Reach-IsIn start s status r h))

  -- No call has changed a cluster, and no status notes a drain or a previous template.
  abbrev pub IsPeaceful : State F → Type 0
  IsPeaceful s = All IsReadOnly s.calls × All IsIdle s.statuses

  after_request-IsPeaceful :
      (namespace name : String) (s : State F)
      → ((policy : Policy F)
          → objects.policy (get_policy namespace name ∷ s.calls) ≡ found policy
          → IsDryOf s.statuses policy)
      → IsPeaceful s
      → IsPeaceful (after_request lower_rune range env objects namespace name s)
  unfolding after_request reconcile
  after_request-IsPeaceful namespace name s reads (quiet, idle) =
      elim (Lookup-cases (objects.policy (get_policy namespace name ∷ s.calls))) [
        | inl (policy, e) ↦
            let (dry, there) = reads policy e in
            let calm = All-at IsIdle s.statuses policy.status idle there in
            let ends =
              reconcile-IsIdle lower_rune range env objects namespace name policy s.caches s.calls e
                dry calm quiet in
            (
              reconcile-IsReadOnly lower_rune range env objects namespace name policy s.caches
                  s.calls e dry calm quiet,
              All-append IsIdle
                  (ended_statuses
                    (reconcile lower_rune range env objects namespace name s.caches s.calls).policy)
                  s.statuses (EndsIdle-All _ ends) idle,
            )
        | inr (inl (why, e)) ↦ rw (reconcile, e) ((tt, quiet), idle)
        | inr (inr (why, e)) ↦ rw (reconcile, e) ((tt, quiet), idle)
      ]

  after_tick-IsPeaceful :
      (s : State F)
      → ((policies : List (Policy F))
          → objects.policies (list_policies "" ∷ s.calls) ≡ ok policies
          → All (IsDryOf s.statuses) policies)
      → IsPeaceful s
      → IsPeaceful (after_tick lower_rune range env objects s)
  unfolding after_tick run_cycle cycle_statuses
  after_tick-IsPeaceful s reads (quiet, idle) =
      let asked = list_policies "" ∷ s.calls in
      elim (Result-cases (objects.policies asked)) [
        | inr (why, e) ↦ rw (after_tick, run_cycle, cycle_statuses, e) ((tt, quiet), idle)
        | inl (policies, e) ↦
            let calm = IsDryOf-IsCalm s.statuses policies idle (reads policies e) in
            rw (after_tick, run_cycle, cycle_statuses, e)
              (
                rebalance_policies-IsReadOnly lower_rune env objects policies s.caches asked calm
                    (tt, quiet),
                All-append IsIdle
                    (rebalanced_statuses lower_rune env objects policies s.caches asked) s.statuses
                    (rebalanced_statuses-IsIdle lower_rune env objects policies s.caches asked calm
                      (tt, quiet))
                    idle,
              )
      ]

  -- However reconciliations and rebalancing cycles follow on one another, the program makes no call
  -- that changes a cluster, and writes no status that notes a drain or a previous template, if at the
  -- start no call had changed a cluster and no status noted either. Condition: whenever policies are
  -- read along the run, they ask for a dry run, and their statuses are of the start or were written by
  -- the program since.
  pub Reach-IsPeaceful :
      (start t : State F)
      → AnswersDryRun start
      → Reach lower_rune range env objects start t
      → IsPeaceful start
      → IsPeaceful t
  Reach-IsPeaceful start t answers here h = h
  Reach-IsPeaceful start t answers (next {t = s} r (request namespace name e)) h = rw e (
      after_request-IsPeaceful namespace name s (answers.read s r namespace name)
        (Reach-IsPeaceful start s answers r h))
  Reach-IsPeaceful start t answers (next {t = s} r (tick e)) h =
      rw e (after_tick-IsPeaceful s (answers.listed s r) (Reach-IsPeaceful start s answers r h))
