-- ===== src/Base/Keys.antt =====
-- Lemmas on the keys of Python's dictionaries.
use apanel.Base.{
  Equality, beq, nat_equality, bool_equality, pair_equality, option_equality, beq_refl, beq→eq,
  beq_sym, text_equality, ◌≡◌, refl, sym, ◌∙◌, inl, inr, false, ◌||◌, false≢true, some, [], ◌∷◌,
  map, arith, Bool-cases, All,
}
use apanel.Base.Dict.{Dict, get, put, has, get-put}

module _ {ℓ κ} {K : Type ℓ} {V : Type κ} ⦃e : Equality K⦄ where
  pub has-put : (d : Dict K V) (k : K) (v : V) (j : K) → has (put d k v) j ≡ (beq k j || has d j)
  unfolding has
  has-put d k v j = ground (arith, get-put d k v j)

  -- No key occurs twice.
  unfoldable pub Distinct : Dict K V → Type 0
  Distinct [] = Unit
  Distinct ((k, v) ∷ d) = (has d k ≡ false) × Distinct d

  pub Distinct-put : (d : Dict K V) (k : K) (v : V) → Distinct d → Distinct (put d k v)
  unfolding Distinct put has get
  Distinct-put [] k v h = (refl, tt)
  Distinct-put ((j, w) ∷ d) k v (first, others) = elim (Bool-cases (beq j k)) [
    | inl same ↦ rw same (first, others)
    | inr other ↦
        rw other
          (ground (arith, has-put d k v j, beq_sym k j, other, first), Distinct-put d k v others)
  ]

  -- Without repeated keys, what holds of the values that are found holds of all values.
  pub All-values {μ} :
      (P : V → Type μ) (d : Dict K V)
      → Distinct d
      → ((k : K) (v : V) → get d k ≡ some v → P v)
      → All P (map (λ p. p.1) d)
  unfolding Distinct get has
  All-values P [] h f = tt
  All-values P ((j, w) ∷ d) (alone, others) f = (
    f j w (rw (beq_refl j) refl),
    All-values P d others λ k v found. f k v (elim (Bool-cases (beq j k)) [
      | inl same ↦ absurd (false≢true (sym alone ∙ rw (beq→eq j k same, found, has) refl))
      | inr other ↦ rw other found
    ]),
  )
