-- ===== src/Hub/Facts.antt =====
-- `unique_facts` of market-data-hub/app/domain/deduplication.py.
use apanel.Base.{
  Equality, nat_equality, bool_equality, pair_equality, option_equality, ◌=?◌, text_equality, ◌≡◌,
  Bool, true, false, none, some, List, [], ◌∷◌, map, if◌then◌else◌, ◌>>=◌, Result, err, ok,
}
use apanel.Base.Dict.{Dict, get, put}

pub data FactError : Type 0 where
  conflicting : FactError

-- The order by which Python sorts the identities.
pub record Order (K : Type 0) : Type 0 where
  pub before : K → K → Bool
  pub before_asym : (a b : K) → before a b ≡ true → before b a ≡ false
  pub before_trans : (a b c : K) → before a b ≡ true → before b c ≡ true → before a c ≡ true
  pub before_total : (a b : K) → before a b ≡ false → before b a ≡ false → a ≡ b

abbrev pub values_of : {K V : Type 0} → Dict K V → List V
values_of = map (λ p. p.1)

module _ {K V : Type 0} (order : Order K) where
  -- `sorted`, by insertion
  unfoldable pub insert : K → V → Dict K V → Dict K V
  insert k v [] = (k, v) ∷ []
  insert k v ((j, w) ∷ d) =
      let rest = insert k v d in if order.before j k then (j, w) ∷ rest else (k, v) ∷ (j, w) ∷ d

  unfoldable pub sorted_items : Dict K V → Dict K V
  unfolding insert
  sorted_items [] = []
  sorted_items ((k, v) ∷ d) = insert k v (sorted_items d)

module _ {K V : Type 0} ⦃e : Equality K⦄ ⦃f : Equality V⦄ (key : V → K) where
  -- The loop over the records: `unique` is a dictionary.
  unfoldable pub collect : List V → Dict K V → Result FactError (Dict K V)
  unfolding get put
  collect [] unique = ok unique
  collect (x ∷ xs) unique =
      let rest = collect xs (put unique (key x) x) in
      elim (get unique (key x)) [ none ↦ rest | some y ↦ if y =? x then rest else err conflicting ]

  unfoldable pub unique_facts : Order K → List V → Result FactError (List V)
  unfolding collect sorted_items
  unique_facts order xs = collect xs [] >>= λ unique. ok (values_of (sorted_items order unique))
