-- ===== src/Pricing/Scorer.antt =====
-- internal/pricing/scorer.go.
use vpsie_k8s_capi_autoscale.Base.{
  ℤ, pos, sub64, mul64, ltb_ℤ, leb_ℤ, String, ◌||◌, ◌==◌, string_eq, if◌then◌else◌,
}
use vpsie_k8s_capi_autoscale.Float.{Float64, nought}
use vpsie_k8s_capi_autoscale.Plan.{Plan}

pub record Weights (F : Type 0) : Type 0 where
  pub price : F
  pub fit : F
  pub headroom : F

pub record Capacity : Type 0 where
  pub cpu_millis : ℤ
  pub ram_mb : ℤ

abbrev kubelet_reserved_cpu_millis : ℤ
kubelet_reserved_cpu_millis = pos 100

abbrev kubelet_reserved_ram_mb : ℤ
kubelet_reserved_ram_mb = pos 256

-- What a node of the plan can allocate, after the kubelet's share.
unfoldable pub plan_capacity : {F : Type 0} → Plan F → Capacity
plan_capacity p =
    let cpu = sub64 (mul64 p.cpu (pos 1000)) kubelet_reserved_cpu_millis in
    let ram = sub64 p.ram kubelet_reserved_ram_mb in
    record {
      cpu_millis = if ltb_ℤ cpu (pos 0) then pos 0 else cpu;
      ram_mb = if ltb_ℤ ram (pos 0) then pos 0 else ram;
    }

module _ {F : Type 0} ⦃f : Float64 F⦄ where
  open f use {lt, le, add, sub, mul, div, of_int, ratio}

  unfoldable pub weights_for_aggressiveness : String → Weights F
  weights_for_aggressiveness a =
      if a == "conservative"
      then record { price = ratio 3 10; fit = ratio 3 10; headroom = ratio 4 10 }
      else if a == "aggressive"
      then record { price = ratio 7 10; fit = ratio 2 10; headroom = ratio 1 10 }
      else record { price = ratio 5 10; fit = ratio 3 10; headroom = ratio 2 10 }

  -- The fit of a plan: the mean share of its capacity that is required, at most 1.
  unfoldable pub fit_score : Capacity → ℤ → ℤ → F
  fit_score capacity required_cpu_millis required_ram_mb =
      let cpu_fit = div (of_int required_cpu_millis) (of_int capacity.cpu_millis) in
      let ram_fit = div (of_int required_ram_mb) (of_int capacity.ram_mb) in
      let fit = div (add cpu_fit ram_fit) (of_int (pos 2)) in
      if lt (of_int (pos 1)) fit then of_int (pos 1) else fit

  unfoldable pub score_plan : Plan F → ℤ → ℤ → Weights F → F
  unfolding fit_score
  score_plan p required_cpu_millis required_ram_mb w =
      let capacity = plan_capacity p in
      if leb_ℤ capacity.cpu_millis (pos 0)
        || leb_ℤ capacity.ram_mb (pos 0)
        || le p.price_monthly nought
      then nought
      else let price_score = div (of_int (pos 1)) p.price_monthly in
        let fit = fit_score capacity required_cpu_millis required_ram_mb in
        let headroom_score = sub (of_int (pos 1)) fit in
        add (add (mul w.price price_score) (mul w.fit fit)) (mul w.headroom headroom_score)

  unfoldable pub savings_percent : F → F → F
  savings_percent current_price new_price =
      if le current_price nought
      then nought
      else mul (div (sub current_price new_price) current_price) (of_int (pos 100))
