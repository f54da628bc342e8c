-- ===== src/Tests/Reconciling.antt =====
-- A whole reconciliation and a rebalancing of a policy on the sample cluster.
use Prim.Native.String.{String}
use mathlib.Core.Path.{subst}
use vpsie_k8s_capi_autoscale.Base.{
  inl, ℤ, pos, negsuc, ltb_ℤ, leb_ℤ, ◌≡◌, ◌≢◌, refl, ◌⊎◌, Bool, true, false, some, none, List, [],
  ◌∷◌, All, ok, err, ap, arith,
}
use vpsie_k8s_capi_autoscale.World.{Env, found, missing}
use vpsie_k8s_capi_autoscale.Pricing.Cache.{PricingClient}
use vpsie_k8s_capi_autoscale.Horizontal.DryRun.{IsReadOnly}
use vpsie_k8s_capi_autoscale.Controller.{Policy, Objects, Caches, phase_none}
use vpsie_k8s_capi_autoscale.Controller.Reconcile.{reconcile}
use vpsie_k8s_capi_autoscale.Controller.DryRun.{reconcile-IsReadOnly}
use vpsie_k8s_capi_autoscale.Controller.Bound.{IsBound}
use vpsie_k8s_capi_autoscale.Rebalancer.{rebalance_policy}
use vpsie_k8s_capi_autoscale.Rebalancer.Justified.{IsJustified, rebalance_policy-IsJustified}
use vpsie_k8s_capi_autoscale.Program.{
  State, Reach, here, next, request, tick, after_request, after_tick,
}
use vpsie_k8s_capi_autoscale.Program.DryRun.{
  IsDryOf, AnswersDryRun, IsPeaceful, Reach-IsIn, Reach-IsPeaceful,
}
use vpsie_k8s_capi_autoscale.Program.Bound.{Reach-IsBound}
use vpsie_k8s_capi_autoscale.Tests.Sample.{
  thousandths, thousandths-IsOrdered, env, deployment, pass, spec, small, medium, large,
}
use vpsie_k8s_capi_autoscale.Tests.Pools.{same_rune, cache, template, in_order}

abbrev policy : Bool → Policy ℤ
policy dry_run = record {
  name = "policy";
  namespace = "default";
  uid = "u1";
  spec = spec dry_run;
  status = (pass "" none).status;
  report = record {
    current_plan = none;
    recommended_plan = none;
    available_categories = [];
    last_plan_refresh_time = none;
    current_utilization = none;
    estimated_monthly_savings = none;
    phase = phase_none;
  };
}

abbrev client : PricingClient ℤ
client = record {
  fetch_categories = ok [];
  fetch_plans = λ _ _ _. ok (small ∷ medium ∷ large ∷ []);
}

-- The medium plan runs, and the VPSie API cannot be asked for its key.
abbrev objects : Bool → Objects ℤ String
objects dry_run = record {
  policy = λ _. found (policy dry_run);
  policies = λ _. ok (policy dry_run ∷ []);
  target = λ _. found deployment;
  template = λ _. found (record template { resource_identifier = "medium" });
  secret = λ _. missing "no such secret";
  vpsie_cluster = λ _. missing "no such cluster";
  new_pricing_client = λ _. ok tt;
  prices = λ _ _. client;
}

abbrev caches : Caches ℤ
caches = ("u1", record { api_key = "key"; cache = cache }) ∷ []

-- One second after the prices were stored.
abbrev soon : Env
soon = env (pos 1000000000) [] (ok (pos 0))

reconcile-IsReadOnly_example :
    All IsReadOnly
      (reconcile same_rune in_order soon (objects true) "default" "policy" caches []).calls
reconcile-IsReadOnly_example =
    reconcile-IsReadOnly same_rune in_order soon (objects true) "default" "policy" (policy true)
      caches [] refl refl (refl, refl) tt

-- Every text is read as nought.
abbrev lenient : Env
lenient = record (soon) { parse_quantity = λ _. some (pos 0) }

rebalance_policy-IsJustified_example :
    let q = rebalance_policy same_rune soon (objects false) (policy false) caches [] in
    All IsReadOnly q.calls
    ⊎ IsJustified same_rune soon (objects false) (policy false) caches [] q.calls
rebalance_policy-IsJustified_example =
    rebalance_policy-IsJustified same_rune soon (objects false) thousandths-IsOrdered (policy false)
      caches [] tt

-- The policy is reconciled, and then a rebalancing cycle comes.
module _ (dry_run : Bool) where
  abbrev start : State ℤ
  start = record { caches = caches; calls = []; statuses = (policy dry_run).status ∷ [] }

  abbrev reconciled : State ℤ
  reconciled = after_request same_rune in_order soon (objects dry_run) "default" "policy" start

  abbrev cycled : State ℤ
  cycled = after_tick same_rune in_order soon (objects dry_run) reconciled

  run : Reach same_rune in_order soon (objects dry_run) start cycled
  run = next (next here (request "default" "policy" refl)) (tick refl)

start-AnswersDryRun : AnswersDryRun same_rune in_order soon (objects true) (start true)
start-AnswersDryRun = record {
  read = λ s r namespace name p e.
      let same : policy true ≡ p = ground arith in
      subst (λ (p : Policy ℤ). IsDryOf s.statuses p) same
        (
          refl,
          Reach-IsIn same_rune in_order soon (objects true) (start true) s (policy true).status r
              (inl refl),
        );
  listed = λ s r l e.
      let same : policy true ∷ [] ≡ l = ground arith in
      subst (λ (l : List (Policy ℤ)). All (IsDryOf s.statuses) l) same
        (
          (
            refl,
            Reach-IsIn same_rune in_order soon (objects true) (start true) s (policy true).status r
                (inl refl),
          ),
          tt,
        );
}

Reach-IsPeaceful_example : IsPeaceful same_rune in_order soon (objects true) (cycled true)
Reach-IsPeaceful_example =
    Reach-IsPeaceful same_rune in_order soon (objects true) (start true) (cycled true)
      start-AnswersDryRun (run true) (tt, ((refl, refl), tt))

Reach-IsBound_example : IsBound "u1" "key" "dc" "os" (cycled false).caches
unfolding vpsie_k8s_capi_autoscale.Base.string_eq
Reach-IsBound_example =
    Reach-IsBound same_rune in_order soon (objects false) "u1" "key" "dc" "os" (start false)
      (cycled false) (run false)
      (record { api_key = "key"; cache = cache }, refl, (refl, refl, refl))
