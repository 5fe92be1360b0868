-- ===== src/Base/Case.antt =====
-- Lower case and surrounding blanks: `lower` and `strip` commute.
use mathlib.Core.Path.{◌≡◌, refl, ap, ◌∙◌}
use mathlib.Core.Logic.{inl, inr}
use mathlib.Core.List.{[], ◌∷◌}
use Prim.Native.Nat.{ℕ}
use native.Mathlib.Omega.{arith}
use apanel.Base.Tests.{Bool-cases}
use apanel.Base.Texts.{Text, is_space, lstrip, keep, rstrip, lower_code, lower}

is_space-lower_code : (c : ℕ) → is_space (lower_code c) ≡ is_space c
unfolding is_space lower_code
is_space-lower_code c = ground arith

lower_code_idem : (c : ℕ) → lower_code (lower_code c) ≡ lower_code c
unfolding lower_code
lower_code_idem c = ground arith

pub lower_idem : (t : Text) → lower (lower t) ≡ lower t
unfolding lower
lower_idem [] = refl
lower_idem (c ∷ t) = cc (lower_code_idem c, lower_idem t)

pub lstrip-lower : (t : Text) → lstrip (lower t) ≡ lower (lstrip t)
unfolding lower lstrip
lstrip-lower [] = refl
lstrip-lower (c ∷ t) = elim (Bool-cases (is_space c)) [
  | inl blank ↦ rw (is_space-lower_code c, blank) (lstrip-lower t)
  | inr ink ↦ rw (is_space-lower_code c, ink) refl
]

keep-lower : (c : ℕ) (t : Text) → keep (lower_code c) (lower t) ≡ lower (keep c t)
unfolding lower
keep-lower c [] = elim (Bool-cases (is_space c)) [
  | inl blank ↦ rw (is_space-lower_code c, blank) refl
  | inr ink ↦ rw (is_space-lower_code c, ink) refl
]
keep-lower c (d ∷ t) = refl

pub rstrip-lower : (t : Text) → rstrip (lower t) ≡ lower (rstrip t)
unfolding lower rstrip
rstrip-lower [] = refl
rstrip-lower (c ∷ t) = ap (keep (lower_code c)) (rstrip-lower t) ∙ keep-lower c (rstrip t)
