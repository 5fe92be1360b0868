-- ===== src/Base/Dict.antt =====
-- Python's `dict`: pairs in the order of insertion, where a write to a present key keeps its place.
use mathlib.Core.Path.{◌≡◌, refl}
use mathlib.Core.Bool.{Bool, true, false}
use mathlib.Core.Option.{Option, none, some}
use mathlib.Core.List.{List, [], ◌∷◌}
use native.Mathlib.Omega.{arith}
use apanel.Base.Tests.{if◌then◌else◌}
use apanel.Base.Eq.{Equality, beq, beq_refl}

abbrev pub Dict {ℓ κ} : Type ℓ → Type κ → Type (ℓ ⊔ κ)
Dict K V = List (K × V)

module _ {ℓ κ} {K : Type ℓ} {V : Type κ} ⦃e : Equality K⦄ where
  unfoldable pub get : Dict K V → K → Option V
  get [] k = none
  get ((j, v) ∷ d) k = if beq j k then some v else get d k

  unfoldable pub put : Dict K V → K → V → Dict K V
  put [] k v = (k, v) ∷ []
  put ((j, w) ∷ d) k v = if beq j k then (j, v) ∷ d else (j, w) ∷ put d k v

  unfoldable pub has : Dict K V → K → Bool
  unfolding get
  has d k = elim (get d k) [ none ↦ false | some _ ↦ true ]

  pub get-put :
      (d : Dict K V) (k : K) (v : V) (j : K)
      → get (put d k v) j ≡ (if beq k j then some v else get d j)
  unfolding get put
  get-put [] k v j = refl
  get-put ((i, w) ∷ d) k v j =
      ground (arith, get-put d k v j, e.test_iff i k, e.test_iff i j, e.test_iff k j)

  pub get-put_self : (d : Dict K V) (k : K) (v : V) → get (put d k v) k ≡ some v
  get-put_self d k v = rw (get-put d k v k, beq_refl k) refl

  -- The pairs whose key fails the test go.
  unfoldable pub drop_keys : (K → Bool) → Dict K V → Dict K V
  drop_keys p [] = []
  drop_keys p ((j, v) ∷ d) = let rest = drop_keys p d in if p j then rest else (j, v) ∷ rest

  pub get-drop_keys :
      (p : K → Bool) (d : Dict K V) (k : K)
      → get (drop_keys p d) k ≡ (if p k then none else get d k)
  unfolding get drop_keys
  get-drop_keys p [] k = ground arith
  get-drop_keys p ((j, v) ∷ d) k = ground (arith, get-drop_keys p d k, e.test_iff j k)
