-- ===== src/Base/Words.antt =====
-- The wrap-around of Go's `int64` and `int32`, and durations.
use Prim.Native.Nat.{ℕ, ◌-◌, ◌%◌, ◌^◌, ◌≤◌, ◌<◌}
use mathlib.Core.Path.{◌≡◌}
use mathlib.Core.Bool.{false}
use native.Mathlib.Omega.{arith}
use vpsie_k8s_capi_autoscale.Base.Tests.{ltb, if◌then◌else◌}
use vpsie_k8s_capi_autoscale.Base.Int.{
  ℤ, pos, negsuc, pos_part, neg_part, ◌+ℤ◌, ◌-ℤ◌, ◌*ℤ◌, ◌≤ℤ◌, ltb_ℤ, leb_ℤ, leb_ℤ→lt, +ℤ_parts,
  one_part, int_laws,
}

-- The bit pattern of an integer in 64 bits, and the integer that a pattern stands for.
abbrev pattern64 : ℤ → ℕ
pattern64 (pos n) = n % 2 ^ 64
pattern64 (negsuc n) = 2 ^ 64 - 1 - n % 2 ^ 64

abbrev signed64 : ℕ → ℤ
signed64 w = if ltb w (2 ^ 63) then pos w else negsuc (2 ^ 64 - 1 - w)

unfoldable pub wrap64 : ℤ → ℤ
wrap64 a = signed64 (pattern64 a)

abbrev pub InInt64 : ℤ → Type 0
InInt64 a = (pos_part a < 2 ^ 63) × (neg_part a ≤ 2 ^ 63)

pub wrap64_id : (a : ℤ) → InInt64 a → wrap64 a ≡ a
unfolding wrap64
wrap64_id (pos n) h = ground arith
wrap64_id (negsuc n) h = ground arith

pub wrap64-InInt64 : (a : ℤ) → InInt64 (wrap64 a)
unfolding wrap64
wrap64-InInt64 (pos n) = ground arith
wrap64-InInt64 (negsuc n) = ground arith

abbrev pattern32 : ℤ → ℕ
pattern32 (pos n) = n % 2 ^ 32
pattern32 (negsuc n) = 2 ^ 32 - 1 - n % 2 ^ 32

abbrev signed32 : ℕ → ℤ
signed32 w = if ltb w (2 ^ 31) then pos w else negsuc (2 ^ 32 - 1 - w)

unfoldable pub wrap32 : ℤ → ℤ
wrap32 a = signed32 (pattern32 a)

abbrev pub InInt32 : ℤ → Type 0
InInt32 a = (pos_part a < 2 ^ 31) × (neg_part a ≤ 2 ^ 31)

pub wrap32_id : (a : ℤ) → InInt32 a → wrap32 a ≡ a
unfolding wrap32
wrap32_id (pos n) h = ground arith
wrap32_id (negsuc n) h = ground arith

-- The operators of `int64` and `int` (64 bits).
unfoldable pub add64 : ℤ → ℤ → ℤ
unfolding ◌+ℤ◌ wrap64
add64 a b = wrap64 (a +ℤ b)

unfoldable pub sub64 : ℤ → ℤ → ℤ
unfolding ◌-ℤ◌ wrap64
sub64 a b = wrap64 (a -ℤ b)

unfoldable pub mul64 : ℤ → ℤ → ℤ
unfolding ◌*ℤ◌ wrap64
mul64 a b = wrap64 (a *ℤ b)

-- `t.Sub(u)` of two times in nanoseconds: a duration, held at the ends of `int64`.
unfoldable pub since : ℤ → ℤ → ℤ
unfolding ◌-ℤ◌ ltb_ℤ
since t u =
    let d = t -ℤ u in
    if ltb_ℤ (pos (2 ^ 63 - 1)) d
    then pos (2 ^ 63 - 1)
    else if ltb_ℤ d (negsuc (2 ^ 63 - 1))
    then negsuc (2 ^ 63 - 1)
    else d

-- The operators of `int32`.
unfoldable pub add32 : ℤ → ℤ → ℤ
unfolding ◌+ℤ◌ wrap32
add32 a b = wrap32 (a +ℤ b)

unfoldable pub sub32 : ℤ → ℤ → ℤ
unfolding ◌-ℤ◌ wrap32
sub32 a b = wrap32 (a -ℤ b)

-- A subtraction that stays between 0 and its first argument does not wrap.
pub sub64_exact : (a b : ℤ) → InInt64 a → pos 0 ≤ℤ b → b ≤ℤ a → sub64 a b ≡ a -ℤ b
unfolding sub64
sub64_exact a b h lo hi = wrap64_id (a -ℤ b) (ground arith)

pub sub64-InInt64 : (a b : ℤ) → InInt64 (sub64 a b)
unfolding sub64
sub64-InInt64 a b = wrap64-InInt64 (a -ℤ b)

pub add32_exact : (a b : ℤ) → InInt32 (a +ℤ b) → add32 a b ≡ a +ℤ b
unfolding add32
add32_exact a b h = wrap32_id (a +ℤ b) h

pub sub32_exact : (a b : ℤ) → InInt32 (a -ℤ b) → sub32 a b ≡ a -ℤ b
unfolding sub32
sub32_exact a b h = wrap32_id (a -ℤ b) h

-- One more than a number below the maximum does not wrap, and is no more than the maximum.
pub add32-below :
    (max current : ℤ)
    → InInt32 max
    → InInt32 current
    → leb_ℤ max current ≡ false
    → (add32 current (pos 1) ≡ current +ℤ pos 1) × (current +ℤ pos 1 ≤ℤ max)
add32-below max current m c h =
    let below = leb_ℤ→lt max current h in
    (
      add32_exact current (pos 1) (
          omega (
            arith,
            +ℤ_parts current (pos 1),
            one_part current,
            one_part (current +ℤ pos 1),
            one_part max,
          )),
      omega int_laws,
    )
