-- ===== src/Common/Float/Order.antt =====
-- The order of floats: transitivity, and the two tests on finite values.
use mathlib.Core.Path.{◌≡◌}
use mathlib.Core.Bool.{true, false}
use native.Mathlib.Omega.{arith}
use agentic_fraud_decisionin.Common.Float.{Float, leb_float, ltb_float, is_not_finite}

pub leb_float_trans :
    (a b c : Float) → leb_float a b ≡ true → leb_float b c ≡ true → leb_float a c ≡ true
unfolding leb_float
leb_float_trans a b c h k = ground arith

pub ltb_float_of_le :
    (a b c : Float) → leb_float a b ≡ true → ltb_float b c ≡ true → ltb_float a c ≡ true
unfolding leb_float ltb_float
ltb_float_of_le a b c h k = ground arith

-- Between numbers that are not NaN nor infinite, not below is at least.
pub leb_float_of_not_lt :
    (a b : Float)
    → is_not_finite a ≡ false
    → is_not_finite b ≡ false
    → ltb_float b a ≡ false
    → leb_float a b ≡ true
unfolding leb_float ltb_float
leb_float_of_not_lt a b h k l = ground arith
