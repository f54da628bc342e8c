-- ===== src/Controller/Bound.antt =====
-- What a pricing cache of internal/controller/scalingpolicy_controller.go is made for.
use Prim.Native.Char.{Char}
use mathlib.Core.Path.{subst}
use vpsie_k8s_capi_autoscale.Base.{
  ℤ, ◌≡◌, ◌≢◌, refl, inl, inr, String, Option, none, some, ◌∷◌, Result-cases, Option-cases,
  Bool-cases, ok, lookup, insert, lookup-insert, ==_true, arith, ◌==◌, string_eq,
}
use vpsie_k8s_capi_autoscale.World.{Calls, Env, ensure_fresh_prices}
use vpsie_k8s_capi_autoscale.Pricing.Cache.{Cache, PricingClient, refresh, ensure_fresh}
use vpsie_k8s_capi_autoscale.Controller.{Objects, PriceSource, Caches}
use vpsie_k8s_capi_autoscale.Controller.Prices.{ensure_cache, freshen}

ensure_fresh-bound :
    {F : Type 0} (lower_rune : Char → Char) (client : PricingClient F) (time finished : ℤ)
    (c d : Cache F)
    → ensure_fresh lower_rune client time finished c ≡ ok d
    → (d.dc_id ≡ c.dc_id) × (d.os_id ≡ c.os_id)
unfolding ensure_fresh refresh
ensure_fresh-bound lower_rune client time finished c d h = ground arith

module _ {F : Type 0} where
  -- The client was made for the key, and the cache asks for the data centre and the image.
  abbrev pub IsFor : String → String → String → PriceSource F → Type 0
  IsFor key dc os source =
      (PriceSource.api_key source ≡ key)
      × ((PriceSource.cache source).dc_id ≡ dc)
      × ((PriceSource.cache source).os_id ≡ os)

  abbrev pub IsBound : String → String → String → String → Caches F → Type 0
  IsBound uid key dc os caches =
      (source : PriceSource F) × (lookup uid caches ≡ some source) × IsFor key dc os source

  pub insert-IsBound :
      (uid key dc os j : String) (caches : Caches F) (new : PriceSource F)
      → IsBound uid key dc os caches
      → (uid ≡ j → IsFor key dc os new)
      → IsBound uid key dc os (insert j new caches)
  insert-IsBound uid key dc os j caches new (source, known, bound) fits =
      let after = lookup-insert uid j new caches in
      elim (Bool-cases (uid == j)) [
        | inl e ↦ (new, ground arith, fits (==_true uid j e))
        | inr e ↦ (source, ground arith, bound)
      ]

module _ {F K : Type 0} (objects : Objects F K) where
  pub freshen-bound :
      (lower_rune : Char → Char) (env : Env) (source source' : PriceSource F) (calls : Calls)
      → (freshen objects lower_rune env source calls).1 ≡ ok source'
      → (source'.api_key ≡ source.api_key)
        × (source'.cache.dc_id ≡ source.cache.dc_id)
        × (source'.cache.os_id ≡ source.cache.os_id)
  unfolding freshen
  freshen-bound lower_rune env source source' calls h =
      let asked = ensure_fresh_prices ∷ calls in
      elim (Result-cases (
        ensure_fresh lower_rune (objects.prices source.api_key calls) (env.clock calls)
          (env.clock asked) source.cache)) [
            | inl (cache, e) ↦
                let (dc, os) =
                  ensure_fresh-bound lower_rune (objects.prices source.api_key calls)
                    (env.clock calls) (env.clock asked) source.cache cache e in
                let same : record source { cache = cache } ≡ source' = ground arith in
                rw⁻¹ same (refl, dc, os)
            | inr (why, e) ↦ absurd (ground arith)
          ]

  -- An entry that is there is used as it is.
  pub ensure_cache-IsBound :
      (uid key dc os j api_key new_dc new_os : String) (interval : Option ℤ)
      (caches caches' : Caches F) (source : PriceSource F)
      → IsBound uid key dc os caches
      → ensure_cache objects j api_key new_dc new_os interval caches ≡ ok (caches', source)
      → IsBound uid key dc os caches' × (uid ≡ j → IsFor key dc os source)
  unfolding ensure_cache
  ensure_cache-IsBound uid key dc os j api_key new_dc new_os interval caches caches' source
        (bound, known, fits) e =
      elim (Option-cases (lookup j caches)) [
        | inr (s, u) ↦
            let same : caches ≡ caches' = ground arith in
            let used : s ≡ source = ground arith in
            (
              subst (IsBound uid key dc os) same (bound, known, fits),
              λ eq.
                  let found_by : lookup uid caches ≡ some s = rw eq u in
                  let twice : bound ≡ source = ground arith in subst (IsFor key dc os) twice fits,
            )
        | inl u ↦
            let other : uid ≢ j =
              λ eq. let missing : lookup uid caches ≡ none = rw eq u in ground arith in
            elim (Result-cases (objects.new_pricing_client api_key)) [
              | inr (why, v) ↦ absurd (ground arith)
              | inl (_, v) ↦
                  let added : insert j source caches ≡ caches' = ground arith in
                  (
                    subst (IsBound uid key dc os) added (
                        insert-IsBound uid key dc os j caches source (bound, known, fits)
                          (λ eq. absurd (other eq))),
                    λ eq. absurd (other eq),
                  )
            ]
      ]
