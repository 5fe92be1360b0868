-- ===== src/Hub/Members.antt =====
-- Proofs on the records that `unique_facts` returns.
use apanel.Base.{
  Equality, nat_equality, bool_equality, pair_equality, option_equality, ◌=?◌, text_equality, List,
  [], ◌∷◌, if-split, All, Ensures, Ensures-bind, Ensures-ok, Ensures-elim, Ensures-if,
}
use apanel.Base.Dict.{Dict, get, put}
use apanel.Hub.Facts.{values_of, insert, sorted_items, collect, unique_facts, Order}

module _ {K V : Type 0} (P : V → Type 0) where
  abbrev Values : Dict K V → Type 0
  Values = All (λ p. P p.1)

  Values-put : ⦃e : Equality K⦄ (d : Dict K V) (k : K) (v : V) → P v → Values d → Values (put d k v)
  unfolding put
  Values-put [] k v h g = (h, tt)
  Values-put ((j, w) ∷ d) k v h (first, others) =
      if-split Values (j =? k) _ _ (λ _. (h, others)) (λ _. (first, Values-put d k v h others))

  Values-insert :
      (order : Order K) (k : K) (v : V) (d : Dict K V)
      → P v
      → Values d
      → Values (insert order k v d)
  unfolding insert
  Values-insert order k v [] h g = (h, tt)
  Values-insert order k v ((j, w) ∷ d) h (first, others) =
      if-split Values (order.before j k) _ _ (λ _. (first, Values-insert order k v d h others))
        (λ _. (h, (first, others)))

  Values-sorted_items : (order : Order K) (d : Dict K V) → Values d → Values (sorted_items order d)
  unfolding sorted_items
  Values-sorted_items order [] h = tt
  Values-sorted_items order ((k, v) ∷ d) (first, others) =
      Values-insert order k v _ first (Values-sorted_items order d others)

  Values-values_of : (d : Dict K V) → Values d → All P (values_of d)
  Values-values_of [] h = tt
  Values-values_of ((k, v) ∷ d) (first, others) = (first, Values-values_of d others)

  module _ ⦃e : Equality K⦄ ⦃f : Equality V⦄ (key : V → K) where
    Values-collect :
        (xs : List V) (d : Dict K V) → All P xs → Values d → Ensures Values (collect key xs d)
    unfolding collect
    Values-collect [] d h g = g
    Values-collect (x ∷ xs) d (first, others) g =
        Ensures-elim Values (get d (key x)) _ _
          (Values-collect xs (put d (key x) x) others (Values-put d (key x) x first g))
          (λ y.
            Ensures-if Values (f.test y x) _ _
              (Values-collect xs (put d (key x) x) others (Values-put d (key x) x first g)) tt)

    pub All-unique_facts :
        (order : Order K) (xs : List V) → All P xs → Ensures (All P) (unique_facts key order xs)
    unfolding unique_facts
    All-unique_facts order xs h = Ensures-bind (All P) (collect key xs []) _ (λ d found.
        Values-values_of (sorted_items order d) (
          Values-sorted_items order d
            (Ensures-ok Values (collect key xs []) (Values-collect xs [] h tt) found)))
