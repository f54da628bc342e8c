-- ===== src/Base/Dicts.antt =====
-- Association lists: what holds of all entries, and keys that occur once.
use Prim.Native.String.{String}
use mathlib.Core.Path.{◌≡◌, refl, subst}
use mathlib.Core.Bool.{cond}
use mathlib.Core.List.{[], ◌∷◌}
use mathlib.Core.Logic.{inl, inr}
use mathlib.Core.Option.{none, some}
use native.Mathlib.Omega.{arith}
use vpsie_k8s_capi_autoscale.Base.Tests.{Bool-cases, ◌==◌, string_eq, ==_true}
use vpsie_k8s_capi_autoscale.Base.Lists.{All, Dict, lookup, insert, lookup-insert}

module _ {ℓ} {V : Type ℓ} where
  pub All-insert {κ} :
      (P : String × V → Type κ) (k : String) (v : V) (m : Dict V)
      → All P m
      → P (k, v)
      → All P (insert k v m)
  All-insert P k v [] hs h = (h, tt)
  All-insert P k v ((j, w) ∷ m) (g, hs) h =
      let rest = All-insert P k v m hs h in
      elim (Bool-cases (k == j)) [ inl e ↦ rw (e, cond) (h, hs) | inr e ↦ rw (e, cond) (g, rest) ]

  pub All-lookup {κ} :
      (P : String × V → Type κ) (k : String) (v : V) (m : Dict V)
      → All P m
      → lookup k m ≡ some v
      → P (k, v)
  All-lookup P k v [] hs h = absurd (ground arith)
  All-lookup P k v ((j, w) ∷ m) (g, hs) h = elim (Bool-cases (k == j)) [
    | inl e ↦
        let same : j ≡ k = ground arith in
        let found : w ≡ v = ground arith in
        subst (λ i. P (i, v)) same (subst (λ u. P (j, u)) found g)
    | inr e ↦ All-lookup P k v m hs (ground arith)
  ]

  -- No key occurs twice.
  abbrev pub IsDistinct : Dict V → Type ℓ
  IsDistinct [] = Unit
  IsDistinct ((k, v) ∷ m) = (lookup k m ≡ none) × IsDistinct m

  pub insert-IsDistinct :
      (k : String) (v : V) (m : Dict V) → IsDistinct m → IsDistinct (insert k v m)
  insert-IsDistinct k v [] h = (refl, tt)
  insert-IsDistinct k v ((j, w) ∷ m) (fresh, hs) =
      let rest = insert-IsDistinct k v m hs in
      let found = lookup-insert j k v m in
      elim (Bool-cases (k == j)) [
        | inl e ↦ let same : k ≡ j = ==_true k j e in rw (e, cond) (ground arith, hs)
        | inr e ↦ rw (e, cond) (ground arith, rest)
      ]
