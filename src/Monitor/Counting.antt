-- ===== src/Monitor/Counting.antt =====
-- Proofs on the number of distinct values of a list.
use mathlib.Core.Path.{subst}
use apanel.Base.{
  nat_equality, bool_equality, pair_equality, option_equality, text_equality, ℕ, suc, ◌≤◌, ◌≡◌,
  refl, sym, ap, ◌∙◌, inl, inr, true, false, not, false≢true, List, [], ◌∷◌, arith, ◌==◌,
  Bool-cases, length,
}
use apanel.Base.Slices.{filter, is_in}
use apanel.Monitor.Capacity.{distinct}

unfoldable remove : ℕ → List ℕ → List ℕ
unfolding filter
remove x = filter (λ y. not (y == x))

is_in-remove : (x y : ℕ) (ys : List ℕ) → (y == x) ≡ false → is_in y (remove x ys) ≡ is_in y ys
unfolding remove filter
is_in-remove x y [] h = refl
is_in-remove x y (z ∷ ys) h = ground (arith, h, is_in-remove x y ys h)

remove_absent : (x : ℕ) (ys : List ℕ) → is_in x ys ≡ false → remove x ys ≡ ys
unfolding remove filter
remove_absent x [] h = refl
remove_absent x (y ∷ ys) h = ground (arith, h, remove_absent x ys)

distinct-remove :
    (x : ℕ) (ys : List ℕ)
    → is_in x ys ≡ true
    → length (distinct ys) ≡ suc (length (distinct (remove x ys)))
unfolding distinct remove filter
distinct-remove x [] h = absurd (false≢true h)
distinct-remove x (y ∷ ys) h = elim (Bool-cases (y == x)) [
  | inl this ↦ elim (Bool-cases (is_in x ys)) [
    | inl again ↦
        let here : y ≡ x = ground (arith, this) in
        let there : is_in y ys ≡ true = subst (λ z. is_in z ys ≡ true) (sym here) again in
        rw (this, there) (distinct-remove x ys again)
    | inr last ↦
        let here : y ≡ x = ground (arith, this) in
        let gone : is_in y ys ≡ false = subst (λ z. is_in z ys ≡ false) (sym here) last in
        rw (this, gone) (ap (λ l. suc (length (distinct l))) (sym (remove_absent x ys last)))
  ]
  | inr other ↦
      let there : is_in x ys ≡ true = ground (arith, other, h) in
      let same = is_in-remove x y ys other in
      let rest = distinct-remove x ys there in
      rw (other) (elim (Bool-cases (is_in y ys)) [
        | inl again ↦ rw (again, distinct, same ∙ again) rest
        | inr last ↦ rw (last, distinct, same ∙ last) (omega (arith, rest))
      ])
]

-- What lies within another list has at most as many distinct values.
pub distinct_within :
    (xs ys : List ℕ)
    → ((x : ℕ) → is_in x xs ≡ true → is_in x ys ≡ true)
    → length (distinct xs) ≤ length (distinct ys)
unfolding distinct
distinct_within [] ys h = ground arith
distinct_within (x ∷ xs) ys h = elim (Bool-cases (is_in x xs)) [
  | inl again ↦ rw again (distinct_within xs ys (λ z there. h z (ground (arith, there))))
  | inr last ↦
      let present : is_in x ys ≡ true = h x (ground arith) in
      let rest = distinct_within xs (remove x ys) (λ z there. elim (Bool-cases (z == x)) [
        | inl this ↦
            absurd
              (false≢true (sym last ∙ subst (λ v. is_in v xs ≡ true) (ground (arith, this)) there))
        | inr other ↦ is_in-remove x z ys other ∙ h z (ground (arith, there))
      ]) in
      rw last (omega (arith, rest, distinct-remove x ys present))
]
