-- ===== src/Hub/Orders.antt =====
-- Proofs on `unique_facts` and the order of the records.
use mathlib.Core.Path.{subst}
use mathlib.Core.List.{Permᴰ}
use apanel.Base.{
  Equality, beq, nat_equality, bool_equality, pair_equality, option_equality, ◌=?◌, beq→eq, eq→beq,
  beq_sym, text_equality, ◌≡◌, refl, sym, ap, ◌∙◌, inl, inr, true, false, not, false≢true, none,
  some, List, [], ◌∷◌, arith, if◌then◌else◌, Bool-cases, Option-cases, ◌>>=◌, Result, err, ok,
}
use apanel.Base.Dict.{Dict, get, put}
use apanel.Hub.Facts.{
  values_of, insert, sorted_items, collect, unique_facts, FactError, conflicting, Order,
}

-- Two identities that differ are ordered one way.
one_way :
    {K : Type 0} ⦃e : Equality K⦄ (order : Order K) (k j : K)
    → beq k j ≡ false
    → order.before k j ≡ not (order.before j k)
one_way order k j apart =
    let asym = order.before_asym k j in
    let total = order.before_total k j in
    elim (Bool-cases (order.before k j)) [
      | inl yes_before ↦ rw (yes_before, asym yes_before) refl
      | inr no_before ↦ elim (Bool-cases (order.before j k)) [
        | inl after ↦ rw (no_before, after) refl
        | inr neither ↦ absurd (false≢true (sym apart ∙ eq→beq k j (total no_before neither)))
      ]
    ]

module _ {K V : Type 0} ⦃e : Equality K⦄ where
  put-known : (d : Dict K V) (k : K) (v : V) → get d k ≡ some v → put d k v ≡ d
  unfolding get put
  put-known [] k v known = ground (arith, known)
  put-known ((j, w) ∷ d) k v known = ground (arith, known, put-known d k v)

module _ {K V : Type 0} ⦃e : Equality K⦄ (order : Order K) where
  insert_comm :
      (k j : K) (v w : V) (d : Dict K V)
      → beq k j ≡ false
      → insert order k v (insert order j w d) ≡ insert order j w (insert order k v d)
  unfolding insert
  insert_comm k j v w [] apart = ground (arith, one_way order k j apart)
  insert_comm k j v w ((i, u) ∷ d) apart = ground (
    arith,
    one_way order k j apart,
    insert_comm k j v w d apart,
    order.before_trans i k j,
    order.before_trans i j k,
  )

  get-insert :
      (k : K) (v : V) (d : Dict K V) (j : K)
      → get (insert order k v d) j ≡ (if beq k j then some v else get d j)
  unfolding get insert
  get-insert k v [] j = refl
  get-insert k v ((i, u) ∷ d) j =
      ground (arith, get-insert k v d j, e.test_iff i j, e.test_iff k j, order.before_asym i k)

  get-sorted_items : (d : Dict K V) (j : K) → get (sorted_items order d) j ≡ get d j
  unfolding get sorted_items
  get-sorted_items [] j = refl
  get-sorted_items ((k, v) ∷ d) j =
      ground (arith, get-insert k v (sorted_items order d) j, get-sorted_items d j, e.test_iff k j)

  sorted_items-put :
      (d : Dict K V) (k : K) (v : V)
      → get d k ≡ none
      → sorted_items order (put d k v) ≡ insert order k v (sorted_items order d)
  unfolding get put sorted_items
  sorted_items-put [] k v unknown = refl
  sorted_items-put ((j, w) ∷ d) k v unknown = elim (Bool-cases (beq j k)) [
    | inl same ↦ ground (arith, unknown, same)
    | inr other ↦
        let rest : get d k ≡ none = ground (arith, unknown, other) in
        rw (other, put)
          (ap (insert order j w) (sorted_items-put d k v rest)
            ∙ insert_comm j k w v (sorted_items order d) other)
  ]

values_after :
    {K V : Type 0} (order : Order K) (r : Result FactError (Dict K V))
    → (r >>= λ u. ok (values_of (sorted_items order u)))
      ≡ (r >>= (λ u. ok (sorted_items order u)) >>= λ l. ok (values_of l))
values_after order (err x) = refl
values_after order (ok u) = refl

module _ {K V : Type 0} ⦃e : Equality K⦄ ⦃f : Equality V⦄ (key : V → K) (order : Order K) where
  -- The records one after the other on a sorted list: what `unique_facts` computes.
  unfoldable pub settle : List V → Dict K V → Result FactError (Dict K V)
  unfolding get insert
  settle [] l = ok l
  settle (x ∷ xs) l =
      let added = settle xs (insert order (key x) x l) in
      let same = settle xs l in
      elim (get l (key x)) [ none ↦ added | some y ↦ if y =? x then same else err conflicting ]

  settle_swap :
      (x y : V) (xs : List V) (l : Dict K V) → settle (x ∷ y ∷ xs) l ≡ settle (y ∷ x ∷ xs) l
  unfolding settle
  settle_swap x y xs l = elim (Bool-cases (beq (key x) (key y))) [
    | inl same ↦
        let keys = beq→eq (key x) (key y) same in
        let alike = ap (get l) keys in
        let once = get-insert order (key x) x l (key y) in
        let twice = get-insert order (key y) y l (key x) in
        let turned = beq_sym (key y) (key x) in
        elim (Bool-cases (f.test x y)) [
          | inl equal ↦
              subst (λ z. settle (x ∷ z ∷ xs) l ≡ settle (z ∷ x ∷ xs) l) (beq→eq x y equal) refl
          | inr unequal ↦
              let other = beq_sym y x in
              elim (Option-cases (get l (key x))) [
                | inl unknown ↦
                    ground (arith, same, alike, once, twice, turned, unequal, other, unknown)
                | inr (z, known) ↦
                    let clash : f.test z x ≡ true → f.test z y ≡ false =
                      λ h. subst (λ w. f.test w y ≡ false) (sym (beq→eq z x h)) unequal in
                    ground (arith, alike, known, clash)
              ]
        ]
    | inr apart ↦
        let turned : beq (key y) (key x) ≡ false = beq_sym (key y) (key x) ∙ apart in
        let once = get-insert order (key x) x l (key y) in
        let twice = get-insert order (key y) y l (key x) in
        let both = insert_comm order (key x) (key y) x y l apart in
        ground (arith, apart, turned, once, twice, both)
  ]

  settle_cons :
      (x : V) (xs ys : List V) (l : Dict K V)
      → ((m : Dict K V) → settle xs m ≡ settle ys m)
      → settle (x ∷ xs) l ≡ settle (x ∷ ys) l
  unfolding settle
  settle_cons x xs ys l same = ground (arith, same l, same (insert order (key x) x l))

  settle_permuted : {xs ys : List V} → Permᴰ xs ys → (l : Dict K V) → settle xs l ≡ settle ys l
  unfolding settle
  settle_permuted Permᴰ.nil l = refl
  settle_permuted (Permᴰ.cons {a = a} {l₁ = xs} {l₂ = ys} same rest) l =
      subst (λ z. settle (a ∷ xs) l ≡ settle (z ∷ ys) l) same
        (settle_cons a xs ys l (settle_permuted rest))
  settle_permuted (Permᴰ.swap {a = a} {b = b} {b' = b'} {l = xs} p q) l =
      subst (λ z. settle (a ∷ b ∷ xs) l ≡ settle (z ∷ b' ∷ xs) l) q
        (subst (λ z. settle (a ∷ b ∷ xs) l ≡ settle (b ∷ z ∷ xs) l) p (settle_swap a b xs l))
  settle_permuted (Permᴰ.trans first second) l = settle_permuted first l ∙ settle_permuted second l

  collect-settle :
      (xs : List V) (d : Dict K V)
      → (collect key xs d >>= λ u. ok (sorted_items order u)) ≡ settle xs (sorted_items order d)
  unfolding collect settle
  collect-settle [] d = refl
  collect-settle (x ∷ xs) d =
      let stored = get-sorted_items order d (key x) in
      elim (Option-cases (get d (key x))) [
        | inl unknown ↦
            let added = collect-settle xs (put d (key x) x) in
            let here = sorted_items-put order d (key x) x unknown in
            rw (unknown, collect) (rw (stored ∙ unknown, settle) (added ∙ ap (settle xs) here))
        | inr (y, known) ↦ elim (Bool-cases (f.test y x)) [
          | inl equal ↦
              let own : get d (key x) ≡ some x = known ∙ ap some (beq→eq y x equal) in
              rw (known, collect, equal)
                (rw (stored ∙ known, settle, equal)
                  (ap (λ u. collect key xs u >>= λ r. ok (sorted_items order r))
                      (put-known d (key x) x own)
                    ∙ collect-settle xs d))
          | inr unequal ↦ rw (known, collect, unequal) (rw (stored ∙ known, settle, unequal) refl)
        ]
      ]

  -- Nothing is inferred from the order of the records: a permutation of them gives the same facts, or
  -- the same rejection, for every total order of the identities.
  pub unique_facts-permuted :
      (xs ys : List V) → Permᴰ xs ys → unique_facts key order xs ≡ unique_facts key order ys
  unfolding unique_facts sorted_items
  unique_facts-permuted xs ys p =
      let final = λ (r : Result FactError (Dict K V)). r >>= λ l. ok (values_of l) in
      values_after order (collect key xs [])
      ∙ ap final (collect-settle xs [] ∙ settle_permuted p [] ∙ sym (collect-settle ys []))
      ∙ sym (values_after order (collect key ys []))
