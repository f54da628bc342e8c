-- ===== src/NodePool/Satellite.antt =====
-- internal/controller/nodepool.go: the objects of a satellite, and `createSatelliteMD`.
use Prim.Native.Nat.{compare, Ordering}
use Prim.Native.Char.{Char, code}
use vpsie_k8s_capi_autoscale.Base.{
  pos, String, ◌<>◌, none, some, [], ◌∷◌, ok, err, map_runes, index_string,
}
use vpsie_k8s_capi_autoscale.Plan.{Plan}
use vpsie_k8s_capi_autoscale.World.{
  Env, MachineDeployment, get_template, create_template, create_deployment, present, absent,
  unreadable,
}
use vpsie_k8s_capi_autoscale.Horizontal.Pass.{Pass, Outcome, done, failed, call}
use vpsie_k8s_capi_autoscale.PlanSwitch.{MachineTemplate}

abbrev pub satellite_label : String
satellite_label = "optimization.vpsie.com/satellite-of"

abbrev pub cluster_label : String
cluster_label = "cluster.x-k8s.io/cluster-name"

-- `strings.ReplaceAll(s, " ", "-")`, rune by rune
abbrev pub hyphen_for_space : Char → Char
hyphen_for_space c = elim (compare (code c) 32) [ Ordering.eq ↦ "-" | _ ↦ c ]

-- `strings.ToLower` maps each rune by `lower_rune`.
module _ (lower_rune : Char → Char) where
  unfoldable pub satellite_md_name : String → String → String
  satellite_md_name base_name plan_nickname =
      base_name <> "-pool-" <> map_runes lower_rune (map_runes hyphen_for_space plan_nickname)

  module _ {F K : Type 0} where
    unfoldable pub satellite_template :
        MachineDeployment → MachineTemplate K → Plan F → MachineTemplate K
    satellite_template base base_template plan = record {
      name = satellite_md_name base.name plan.nickname;
      namespace = base.namespace;
      labels = (satellite_label, base.name) ∷ [];
      resource_identifier = plan.identifier;
      settings = base_template.settings;
    }

  -- One replica, and a status that is not yet set.
  unfoldable pub satellite_deployment :
      {F : Type 0} → MachineDeployment → Plan F → MachineDeployment
  satellite_deployment base plan =
      let name = satellite_md_name base.name plan.nickname in
      let cluster_name = index_string cluster_label base.labels in
      record {
        name = name;
        namespace = base.namespace;
        labels = (cluster_label, cluster_name) ∷ (satellite_label, base.name) ∷ [];
        cluster_name = base.cluster_name;
        match_labels = (cluster_label, cluster_name) ∷ [];
        bootstrap = base.bootstrap;
        replicas = some (pos 1);
        infrastructure_name = name;
        deprecated_ready_replicas = none;
        ready_replicas = none;
        up_to_date_replicas = none;
        status_replicas = none;
      }

unfoldable pub create_satellite : Env → MachineDeployment → Pass → Outcome
create_satellite env md p =
    let p = call (create_deployment md) p in
    elim (env.created p.calls) [
      | ok _ ↦ (p, done)
      | err e ↦ (p, failed ("creating satellite MachineDeployment " <> md.name <> ": " <> e))
    ]

-- The template is created unless it is there.
unfoldable pub create_satellite_objects :
    {K : Type 0} → Env → MachineTemplate K → MachineDeployment → Pass → Outcome
unfolding create_satellite
create_satellite_objects env t md p =
    let p = call (get_template t.namespace t.name) p in
    elim (env.template_found p.calls) [
      | present ↦ create_satellite env md p
      | unreadable e ↦ (p, failed ("checking satellite template " <> t.name <> ": " <> e))
      | absent ↦
          let p = call (create_template t.namespace t.name t.resource_identifier) p in
          elim (env.created p.calls) [
            | err e ↦ (p, failed ("creating satellite template " <> t.name <> ": " <> e))
            | ok _ ↦ create_satellite env md p
          ]
    ]

module _ {F K : Type 0} (lower_rune : Char → Char) where
  unfoldable pub create_satellite_md : Env → MachineTemplate K → Plan F → Pass → Outcome
  unfolding create_satellite_objects
  create_satellite_md env base_template plan p =
      create_satellite_objects env (satellite_template lower_rune p.deployment base_template plan)
        (satellite_deployment lower_rune p.deployment plan) p
