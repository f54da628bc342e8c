-- ===== src/Pricing/Refresh.antt =====
-- What a refresh of the cache leaves in it, and when it is asked for one.
use Prim.Native.Char.{Char}
use vpsie_k8s_capi_autoscale.Base.{
  map, ℤ, ◌≡◌, refl, false, String, some, List, [], ◌∷◌, ◌++◌, All, Dict, lookup, insert,
  lookup-insert, ok, err, map_runes, arith, ◌==◌, string_eq,
}
use vpsie_k8s_capi_autoscale.Plan.{Plan, PlanCategory}
use vpsie_k8s_capi_autoscale.Pricing.Cache.{
  PricingClient, Cache, category_plans, refresh_categories, refresh, resolve_category_id,
}

module _ (lower_rune : Char → Char) where
  -- No category of the list has the name up to case.
  abbrev pub IsFreshName : String → List PlanCategory → Type 0
  IsFreshName name cats =
      All (λ cat. (map_runes lower_rune name == map_runes lower_rune cat.name) ≡ false) cats

  -- The names of the categories differ, whatever their case.
  abbrev pub AreDistinct : List PlanCategory → Type 0
  AreDistinct [] = Unit
  AreDistinct (cat ∷ cats) = IsFreshName cat.name cats × AreDistinct cats

  module _ {F : Type 0} where
    refresh_categories-keeps :
        (client : PricingClient F) (dc os name : String) (cats : List PlanCategory)
        (names : Dict String) (plans : List (Plan F))
        → IsFreshName name cats
        → lookup
            (map_runes lower_rune name)
            (refresh_categories lower_rune client dc os cats names plans).0
          ≡ lookup (map_runes lower_rune name) names
    unfolding refresh_categories
    refresh_categories-keeps client dc os name [] names plans h = refl
    refresh_categories-keeps client dc os name (cat ∷ cats) names plans (fresh, h) =
        let rest =
          refresh_categories-keeps client dc os name cats
            (insert (map_runes lower_rune cat.name) cat.identifier names)
            (plans ++ category_plans client dc os cat) h in
        let entry =
          lookup-insert (map_runes lower_rune name) (map_runes lower_rune cat.name) cat.identifier
            names in
        ground arith

    refresh_categories-names :
        (client : PricingClient F) (dc os : String) (cats : List PlanCategory) (names : Dict String)
        (plans : List (Plan F))
        → AreDistinct cats
        → All
            (λ cat.
              lookup
                (map_runes lower_rune cat.name)
                (refresh_categories lower_rune client dc os cats names plans).0
              ≡ some cat.identifier)
            cats
    unfolding refresh_categories
    refresh_categories-names client dc os [] names plans h = tt
    refresh_categories-names client dc os (cat ∷ cats) names plans (fresh, h) =
        let entered = insert (map_runes lower_rune cat.name) cat.identifier names in
        let added = plans ++ category_plans client dc os cat in
        let kept = refresh_categories-keeps client dc os cat.name cats entered added fresh in
        let entry =
          lookup-insert (map_runes lower_rune cat.name) (map_runes lower_rune cat.name)
            cat.identifier names in
        (ground arith, refresh_categories-names client dc os cats entered added h)

    -- When the categories of the client have different names whatever their case, `Refresh` succeeds
    -- whenever the client lists them, even where it fails to list some plans; it keeps the data
    -- centre, the image and the interval, notes the time, and from then on each category's name
    -- resolves to that category's identifier.
    pub refresh-resolves :
        (client : PricingClient F) (finished : ℤ) (c : Cache F) (cats : List PlanCategory)
        → client.fetch_categories ≡ ok cats
        → AreDistinct cats
        → (d : Cache F) × (refresh lower_rune client finished c ≡ ok d)
          × (d.dc_id ≡ c.dc_id)
          × (d.os_id ≡ c.os_id)
          × (d.refresh_interval ≡ c.refresh_interval)
          × (d.last_refresh ≡ finished)
          × (d.categories ≡ cats)
          × All (λ cat. resolve_category_id lower_rune d cat.name ≡ some cat.identifier) cats
    unfolding refresh resolve_category_id
    refresh-resolves client finished c cats listed distinct =
        let (names, plans) = refresh_categories lower_rune client c.dc_id c.os_id cats [] [] in
        (
          record c {
            categories = cats;
            plans = plans;
            category_name_map = names;
            last_refresh = finished;
          },
          rw listed refl,
          refl,
          refl,
          refl,
          refl,
          refl,
          refresh_categories-names client c.dc_id c.os_id cats [] [] distinct,
        )

    -- What the client lists for the categories, each plan with the name of its category; a category
    -- whose plans cannot be listed gives none.
    abbrev pub offered : PricingClient F → String → String → List PlanCategory → List (Plan F)
    offered client dc os [] = []
    offered client dc os (cat ∷ cats) =
        let rest = offered client dc os cats in
        elim (client.fetch_plans dc os cat.identifier) [
          | err _ ↦ rest
          | ok plans ↦ map (λ (p : Plan F). record p { category_name = cat.name }) plans ++ rest
        ]

    -- The cache holds what the client lists for the data centre and the image of the one before.
    abbrev pub IsRefreshed : PricingClient F → ℤ → Cache F → Cache F → Type 0
    IsRefreshed client finished c d =
        (client.fetch_categories ≡ ok d.categories)
        × (d.plans ≡ offered client c.dc_id c.os_id d.categories)
        × (d.last_refresh ≡ finished)
        × (d.dc_id ≡ c.dc_id)
        × (d.os_id ≡ c.os_id)
        × (d.refresh_interval ≡ c.refresh_interval)
