-- ===== src/Common/Float.antt =====
-- IEEE doubles, as far as the program compares them. Every finite double is an integer multiple of
-- 2 ^ -1074, so `finite z` stands for z * 2 ^ -1074 and comparison is exact. Both zeros are
-- `finite (pos 0)`, which no comparison tells apart. No arithmetic is modelled.
use agentic_fraud_decisionin.Common.Int.{ℤ, leb_ℤ, ltb_ℤ, eqb_ℤ, scale_ℤ}
pub mod Order
use Prim.Native.Nat.{ℕ, ◌^◌}
use mathlib.Core.Bool.{Bool, true, false}

pub data Float : Type 0 where
  nan : Float
  inf : Float
  neg_inf : Float
  finite : ℤ → Float

-- The number of units in 1.0; shut, since no proof needs its value.
unfoldable pub ulps : ℕ
ulps = 2 ^ 1074

unfoldable pub of_int : ℤ → Float
of_int z = finite (scale_ℤ ulps z)

-- `a <= b`, false when either is NaN.
unfoldable pub leb_float : Float → Float → Bool
leb_float nan b = false
leb_float inf inf = true
leb_float inf _ = false
leb_float neg_inf nan = false
leb_float neg_inf _ = true
leb_float (finite a) nan = false
leb_float (finite a) inf = true
leb_float (finite a) neg_inf = false
leb_float (finite a) (finite b) = leb_ℤ a b

-- `a < b`
unfoldable pub ltb_float : Float → Float → Bool
ltb_float nan b = false
ltb_float inf b = false
ltb_float neg_inf nan = false
ltb_float neg_inf neg_inf = false
ltb_float neg_inf _ = true
ltb_float (finite a) nan = false
ltb_float (finite a) inf = true
ltb_float (finite a) neg_inf = false
ltb_float (finite a) (finite b) = ltb_ℤ a b

-- `a == b`
unfoldable pub eqb_float : Float → Float → Bool
eqb_float inf inf = true
eqb_float neg_inf neg_inf = true
eqb_float (finite a) (finite b) = eqb_ℤ a b
eqb_float _ _ = false

-- `math.isnan(x) or math.isinf(x)`
abbrev pub is_not_finite : Float → Bool
is_not_finite (finite z) = false
is_not_finite _ = true
