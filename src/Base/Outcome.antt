-- ===== src/Base/Outcome.antt =====
-- A value, or the exception that was raised in its place.
use mathlib.Core.Path.{◌≡◌, refl, subst}
use mathlib.Core.Logic.{◌⊎◌, inl, inr}
use mathlib.Core.Bool.{Bool, true, false}
use mathlib.Core.Option.{Option, none, some}
use apanel.Base.Tests.{if◌then◌else◌}

pub data Result {e v} (Exception : Type e) (Value : Type v) : Type (e ⊔ v) where
  err : Exception → Result Exception Value
  ok : Value → Result Exception Value

-- `if test: raise x`
abbrev pub raise_if {e} : {Exception : Type e} → Bool → Exception → Result Exception (Unit {0})
raise_if raised x = if raised then err x else ok tt

module _ {e v} {Exception : Type e} {Value : Type v} where
  -- Either an exception came out, or a value.
  pub Result-cases :
      (r : Result Exception Value) → ((x : Exception) × (r ≡ err x)) ⊎ ((y : Value) × (r ≡ ok y))
  Result-cases (err x) = inl (x, refl)
  Result-cases (ok y) = inr (y, refl)

  -- What a `try` block yields when its only exit is the handler's value.
  abbrev pub or_value : Result Exception Value → (Exception → Value) → Value
  or_value (err x) handler = handler x
  or_value (ok y) handler = y

module _ {e v w} {Exception : Type e} {Value : Type v} {Next : Type w} where
  -- An exception skips what follows.
  infixl 5 ◌>>=◌
  abbrev pub ◌>>=◌ :
      Result Exception Value → (Value → Result Exception Next) → Result Exception Next
  err x >>= next = err x
  ok y >>= next = next y

  -- If the whole returned, so did its first part, and the rest on what that returned.
  pub >>=-eq-ok :
      (first : Result Exception Value) (next : Value → Result Exception Next) {out : Next}
      → (first >>= next) ≡ ok out
      → (y : Value) × (first ≡ ok y) × (next y ≡ ok out)
  >>=-eq-ok (err x) next returned = cc
  >>=-eq-ok (ok y) next returned = (y, refl, returned)

-- A statement that is run for its exceptions.
infixl 5 ◌>>◌
abbrev pub ◌>>◌ {e w} :
    {Exception : Type e} {Next : Type w}
    → Result Exception (Unit {0})
    → Result Exception Next
    → Result Exception Next
statement >> rest = statement >>= λ _. rest

-- A returned value meets `P`.
abbrev pub Ensures {ℓ κ μ} : {E : Type ℓ} {A : Type κ} → (A → Type μ) → Result E A → Type μ
Ensures P (ok a) = P a
Ensures P (err e) = Unit

pub Ensures-bind {ℓ κ μ ν} :
    {E : Type ℓ} {A : Type κ} {B : Type μ} (P : B → Type ν) (m : Result E A) (f : A → Result E B)
    → ((a : A) → m ≡ ok a → Ensures P (f a))
    → Ensures P (m >>= f)
Ensures-bind P (ok a) f h = h a refl
Ensures-bind P (err e) f h = tt

pub Ensures-ok {ℓ κ μ} :
    {E : Type ℓ} {A : Type κ} (P : A → Type μ) (r : Result E A) {a : A}
    → Ensures P r
    → r ≡ ok a
    → P a
Ensures-ok P r h p = subst (Ensures P) p h

pub Ensures-elim {ℓ κ μ ν} :
    {E : Type ℓ} {A : Type κ} {B : Type μ} (P : B → Type ν) (o : Option A) (n : Result E B)
    (f : A → Result E B)
    → Ensures P n
    → ((a : A) → Ensures P (f a))
    → Ensures P (elim o [ none ↦ n | some a ↦ f a ])
Ensures-elim P none n f h g = h
Ensures-elim P (some a) n f h g = g a

pub Ensures-if {ℓ κ μ} :
    {E : Type ℓ} {A : Type κ} (P : A → Type μ) (b : Bool) (m n : Result E A)
    → Ensures P m
    → Ensures P n
    → Ensures P (if b then m else n)
Ensures-if P true m n h g = h
Ensures-if P false m n h g = g

pub Ensures-map {ℓ κ μ ν} :
    {E : Type ℓ} {A : Type κ} (P : A → Type μ) (Q : A → Type ν) (r : Result E A)
    → Ensures P r
    → ((a : A) → P a → Q a)
    → Ensures Q r
Ensures-map P Q (err x) h f = tt
Ensures-map P Q (ok a) h f = f a h
