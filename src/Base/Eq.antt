-- ===== src/Base/Eq.antt =====
-- Python's `==` on the values that serve as keys, as an interface with its law.
use Prim.Native.Nat.{ℕ}
use mathlib.Core.Path.{◌≡◌, refl, sym}
use mathlib.Core.Logic.{◌≢◌, ◌↔◌, inl, inr}
use mathlib.Core.Bool.{Bool, true, false, ◌&&◌}
use mathlib.Core.Option.{Option, none, some}
use native.Mathlib.Omega.{arith}
use apanel.Base.Tests.{◌==◌, Bool-cases}

pub record Equality {ℓ} (A : Type ℓ) : Type ℓ where
  pub test : A → A → Bool
  pub test_iff : (a b : A) → (test a b ≡ true) ↔ (a ≡ b)

infix 50 ◌=?◌
abbrev pub ◌=?◌ {ℓ} : {A : Type ℓ} ⦃e : Equality A⦄ → A → A → Bool
◌=?◌ ⦃e⦄ = e.test

abbrev pub beq {ℓ} : {A : Type ℓ} ⦃e : Equality A⦄ → A → A → Bool
beq ⦃e⦄ = e.test

module _ {ℓ} {A : Type ℓ} ⦃e : Equality A⦄ where
  pub beq→eq : (a b : A) → beq a b ≡ true → a ≡ b
  beq→eq a b = (e.test_iff a b).0

  pub eq→beq : (a b : A) → a ≡ b → beq a b ≡ true
  eq→beq a b = (e.test_iff a b).1

  pub beq_refl : (a : A) → beq a a ≡ true
  beq_refl a = (e.test_iff a a).1 refl

  pub ne→beq : (a b : A) → a ≢ b → beq a b ≡ false
  ne→beq a b h = elim (Bool-cases (beq a b)) [
    | inl same ↦ absurd (h (beq→eq a b same))
    | inr other ↦ other
  ]

  pub beq_sym : (a b : A) → beq a b ≡ beq b a
  beq_sym a b = elim (Bool-cases (beq b a)) [
    | inl same ↦ eq→beq a b (sym (beq→eq b a same)) ∙' sym same
    | inr other ↦ ne→beq a b (λ p. cc (eq→beq b a (sym p), other)) ∙' sym other
  ]
    where
      infixl 30 ◌∙'◌
      ◌∙'◌ : {x y z : Bool} → x ≡ y → y ≡ z → x ≡ z
      p ∙' q = cc

pub nat_test_iff : (a b : ℕ) → ((a == b) ≡ true) ↔ (a ≡ b)
nat_test_iff a b = ground arith

instance abbrev pub nat_equality : Equality ℕ
nat_equality = record { test = ◌==◌; test_iff = nat_test_iff }

abbrev bool_test : Bool → Bool → Bool
bool_test true b = b
bool_test false true = false
bool_test false false = true

pub bool_test_iff : (a b : Bool) → (bool_test a b ≡ true) ↔ (a ≡ b)
bool_test_iff a b = ground arith

instance abbrev pub bool_equality : Equality Bool
bool_equality = record { test = bool_test; test_iff = bool_test_iff }

module _ {ℓ κ} {A : Type ℓ} {B : Type κ} ⦃e : Equality A⦄ ⦃f : Equality B⦄ where
  abbrev pair_test : A × B → A × B → Bool
  pair_test (a, b) (c, d) = e.test a c && f.test b d

  pub pair_test_iff : (p q : A × B) → (pair_test p q ≡ true) ↔ (p ≡ q)
  pair_test_iff (a, b) (c, d) = ground (arith, e.test_iff a c, f.test_iff b d)

  instance abbrev pub pair_equality : Equality (A × B)
  pair_equality = record { test = pair_test; test_iff = pair_test_iff }

module _ {ℓ} {A : Type ℓ} ⦃e : Equality A⦄ where
  abbrev option_test : Option A → Option A → Bool
  option_test none none = true
  option_test (some a) (some b) = e.test a b
  option_test _ _ = false

  pub option_test_iff : (p q : Option A) → (option_test p q ≡ true) ↔ (p ≡ q)
  option_test_iff none none = ground arith
  option_test_iff (some a) (some b) = ground (arith, e.test_iff a b)
  option_test_iff (some a) none = ground arith
  option_test_iff none (some b) = ground arith

  instance abbrev pub option_equality : Equality (Option A)
  option_equality = record { test = option_test; test_iff = option_test_iff }
