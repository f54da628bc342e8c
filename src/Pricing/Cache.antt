-- ===== src/Pricing/Cache.antt =====
-- internal/pricing/cache.go. The locks are left out: each function is one critical section, but
-- for `refresh`, which asks the client before it takes the lock.
use Prim.Native.Char.{Char}
use vpsie_k8s_capi_autoscale.Base.{
  ℤ, pos, since, ltb_ℤ, leb_ℤ, ◌*◌, ◌^◌, String, ◌<>◌, Option, none, some, List, [], ◌∷◌, ◌++◌, map,
  Dict, lookup, insert, contains, keep, Result, ok, err, map_runes, ◌==◌, string_eq, if◌then◌else◌,
}
use vpsie_k8s_capi_autoscale.Plan.{Plan, PlanCategory}

-- internal/vpsie/interface.go: the answers of the client during one refresh.
pub record PricingClient (F : Type 0) : Type 0 where
  pub fetch_categories : Result (List PlanCategory)
  pub fetch_plans : String → String → String → Result (List (Plan F))

-- `last_refresh` is `pos 0` at the zero time, before the first refresh.
pub record Cache (F : Type 0) : Type 0 where
  pub dc_id : String
  pub os_id : String
  pub refresh_interval : ℤ
  pub categories : List PlanCategory
  pub plans : List (Plan F)
  pub category_name_map : Dict String
  pub last_refresh : ℤ

abbrev pub five_minutes : ℤ
five_minutes = pos (5 * 60 * 10 ^ 9)

module _ {F : Type 0} where
  unfoldable pub new_cache : String → String → ℤ → Cache F
  new_cache dc_id os_id refresh_interval = record {
    dc_id = dc_id;
    os_id = os_id;
    refresh_interval = if leb_ℤ refresh_interval (pos 0) then five_minutes else refresh_interval;
    categories = [];
    plans = [];
    category_name_map = [];
    last_refresh = pos 0;
  }

  abbrev enrich : String → Plan F → Plan F
  enrich name p = record p { category_name = name }

  -- The plans of one category, with its name; none if the client fails.
  unfoldable pub category_plans : PricingClient F → String → String → PlanCategory → List (Plan F)
  category_plans client dc_id os_id cat = elim (client.fetch_plans dc_id os_id cat.identifier) [
    | ok plans ↦ map (enrich cat.name) plans
    | err _ ↦ []
  ]

  unfoldable pub categories_of : Cache F → List String
  categories_of c = map (λ cat. cat.name) c.categories

  unfoldable pub find_plan : String → List (Plan F) → Option (Plan F)
  find_plan identifier [] = none
  find_plan identifier (p ∷ ps) =
      if p.identifier == identifier then some p else find_plan identifier ps

  unfoldable pub find_plan_by_id : Cache F → String → Option (Plan F)
  unfolding find_plan
  find_plan_by_id c identifier = find_plan identifier c.plans

  -- `unicode.ToLower`, by which `strings.ToLower` maps each rune.
  module _ (lower_rune : Char → Char) where
    -- The loop over the categories.
    unfoldable pub refresh_categories :
        PricingClient F
        → String
        → String
        → List PlanCategory
        → Dict String
        → List (Plan F)
        → Dict String × List (Plan F)
    refresh_categories client dc_id os_id [] names plans = (names, plans)
    refresh_categories client dc_id os_id (cat ∷ cats) names plans =
        refresh_categories client dc_id os_id cats
          (insert (map_runes lower_rune cat.name) cat.identifier names)
          (plans ++ category_plans client dc_id os_id cat)

    -- `finished` is the time at which the new data are stored. A failure leaves the cache alone.
    unfoldable pub refresh : PricingClient F → ℤ → Cache F → Result (Cache F)
    unfolding refresh_categories category_plans
    refresh client finished c = elim client.fetch_categories [
      | err e ↦ err ("fetching categories: " <> e)
      | ok cats ↦
          let (names, plans) = refresh_categories client c.dc_id c.os_id cats [] [] in
          ok (record c {
            categories = cats;
            plans = plans;
            category_name_map = names;
            last_refresh = finished;
          })
    ]

    unfoldable pub ensure_fresh : PricingClient F → ℤ → ℤ → Cache F → Result (Cache F)
    unfolding refresh
    ensure_fresh client now finished c =
        let refreshed = refresh client finished c in
        if ltb_ℤ (since now c.last_refresh) c.refresh_interval then ok c else refreshed

    unfoldable pub resolve_category_id : Cache F → String → Option String
    resolve_category_id c name = lookup (map_runes lower_rune name) c.category_name_map

    -- The identifiers of the allowed categories that are known.
    unfoldable pub allowed_ids : Cache F → List String → List String
    unfolding resolve_category_id
    allowed_ids c [] = []
    allowed_ids c (name ∷ names) = elim (resolve_category_id c name) [
      | none ↦ allowed_ids c names
      | some id ↦ id ∷ allowed_ids c names
    ]

    unfoldable pub plans_of : Cache F → List String → List (Plan F)
    unfolding allowed_ids
    plans_of c [] = c.plans
    plans_of c (name ∷ names) =
        let allowed = allowed_ids c (name ∷ names) in
        keep (λ p. contains p.category_id allowed) c.plans
