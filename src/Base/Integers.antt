-- ===== src/Base/Integers.antt =====
-- The integers as a kind of number: the assumptions of `Number` can be met, and tests run on them.
use Prim.Native.Nat.{ℕ, suc, ◌+◌, ◌-◌, ◌/◌}
use mathlib.Core.Path.{◌≡◌}
use mathlib.Core.Logic.{◌⊎◌}
use mathlib.Core.Bool.{Bool, true, false, not, ◌&&◌}
use native.Mathlib.Omega.{arith}
use apanel.Base.Tests.{ltb, leb, ◌==◌, if◌then◌else◌}
use apanel.Base.Number.{Number}

-- `negsuc n` is -(n + 1).
pub data ℤ : Type 0 where
  pos : ℕ → ℤ
  negsuc : ℕ → ℤ

abbrev pos_part : ℤ → ℕ
pos_part (pos n) = n
pos_part (negsuc _) = 0

abbrev neg_part : ℤ → ℕ
neg_part (pos _) = 0
neg_part (negsuc n) = suc n

abbrev sub_ℕ : ℕ → ℕ → ℤ
sub_ℕ a b = if leb b a then pos (a - b) else negsuc (b - a - 1)

abbrev sub_ℤ : ℤ → ℤ → ℤ
sub_ℤ a b = sub_ℕ (pos_part a + neg_part b) (neg_part a + pos_part b)

abbrev abs_ℤ : ℤ → ℤ
abs_ℤ (pos n) = pos n
abs_ℤ (negsuc n) = pos (suc n)

-- Towards zero.
abbrev div_ℤ : ℤ → ℤ → ℤ
div_ℤ (pos a) (pos b) = pos (a / b)
div_ℤ (pos a) (negsuc b) = sub_ℕ 0 (a / suc b)
div_ℤ (negsuc a) (pos b) = sub_ℕ 0 (suc a / b)
div_ℤ (negsuc a) (negsuc b) = pos (suc a / suc b)

abbrev ltb_ℤ : ℤ → ℤ → Bool
ltb_ℤ a b = ltb (pos_part a + neg_part b) (pos_part b + neg_part a)

abbrev leb_ℤ : ℤ → ℤ → Bool
leb_ℤ a b = leb (pos_part a + neg_part b) (pos_part b + neg_part a)

abbrev eqb_ℤ : ℤ → ℤ → Bool
eqb_ℤ a b = pos_part a + neg_part b == pos_part b + neg_part a

pub eqb_ℤ-not_ltb : (a b : ℤ) → eqb_ℤ a b ≡ not (ltb_ℤ a b) && not (ltb_ℤ b a)
eqb_ℤ-not_ltb a b = ground arith

pub ltb_ℤ_asym : (a b : ℤ) → ltb_ℤ a b ≡ true → ltb_ℤ b a ≡ false
ltb_ℤ_asym a b h = ground arith

pub leb_ℤ-not_ltb : (a b : ℤ) → leb_ℤ a b ≡ not (ltb_ℤ b a)
leb_ℤ-not_ltb a b = ground arith

pub ltb_ℤ_cotrans : (a b c : ℤ) → ltb_ℤ a c ≡ true → (ltb_ℤ a b ≡ true) ⊎ (ltb_ℤ b c ≡ true)
ltb_ℤ_cotrans a b c h = ground arith

pub abs-sub_ℤ_comm : (a b : ℤ) → abs_ℤ (sub_ℤ a b) ≡ abs_ℤ (sub_ℤ b a)
abs-sub_ℤ_comm a b = ground arith

pub abs-sub_ℤ_zero :
    (a b : ℤ) → ltb_ℤ a b ≡ false → ltb_ℤ b a ≡ false → ltb_ℤ (pos 0) (abs_ℤ (sub_ℤ a b)) ≡ false
abs-sub_ℤ_zero a b h k = ground arith

abbrev pub integers : Number
integers = record {
  Real = ℤ;
  zero_real = pos 0;
  sub = sub_ℤ;
  div = div_ℤ;
  abs = abs_ℤ;
  ltb = ltb_ℤ;
  leb = leb_ℤ;
  eqb = eqb_ℤ;
  ltb_asym = ltb_ℤ_asym;
  leb-not_ltb = leb_ℤ-not_ltb;
  eqb-not_ltb = eqb_ℤ-not_ltb;
  ltb_cotrans = ltb_ℤ_cotrans;
  abs-sub_comm = abs-sub_ℤ_comm;
  abs-sub_zero = abs-sub_ℤ_zero;
}
