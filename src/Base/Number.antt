-- ===== src/Base/Number.antt =====
-- The finite floating-point numbers, as the program uses them: an order with differences, absolute
-- values and quotients. IEEE 754 gives the laws; none speaks of the rounding of a result.
use mathlib.Core.Path.{◌≡◌}
use mathlib.Core.Logic.{◌⊎◌}
use mathlib.Core.Bool.{Bool, true, false, not, ◌&&◌}

pub record Number : Type 1 where
  pub Real : Type 0
  pub zero_real : Real
  pub sub : Real → Real → Real
  pub div : Real → Real → Real
  pub abs : Real → Real
  pub ltb : Real → Real → Bool
  pub leb : Real → Real → Bool
  pub eqb : Real → Real → Bool
  -- `<` is asymmetric, and `<=` is the negation of its converse
  pub ltb_asym : (a b : Real) → ltb a b ≡ true → ltb b a ≡ false
  pub leb-not_ltb : (a b : Real) → leb a b ≡ not (ltb b a)
  -- `==` holds of two numbers that `<` does not separate
  pub eqb-not_ltb : (a b : Real) → eqb a b ≡ not (ltb a b) && not (ltb b a)
  -- what lies between two ordered numbers, or past one of them, is ordered with the other
  pub ltb_cotrans : (a b c : Real) → ltb a c ≡ true → (ltb a b ≡ true) ⊎ (ltb b c ≡ true)
  -- the distance of two numbers does not depend on their order
  pub abs-sub_comm : (a b : Real) → abs (sub a b) ≡ abs (sub b a)
  -- two finite numbers that no `<` separates have the distance 0
  pub abs-sub_zero :
      (a b : Real) → ltb a b ≡ false → ltb b a ≡ false → ltb zero_real (abs (sub a b)) ≡ false
