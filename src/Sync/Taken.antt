-- ===== src/Sync/Taken.antt =====
-- Proofs on the loops of `QuoteSyncService.sync`: what they report as fetched is pending.
use mathlib.Core.Path.{subst}
use apanel.Base.{
  Equality, beq, nat_equality, bool_equality, pair_equality, option_equality, beq→eq, Text,
  text_equality, ◌≡◌, refl, sym, ap, ◌∙◌, inl, inr, Option, none, some, List, [], ◌∷◌, ◌++◌,
  Bool-cases, get_or_else, All, Ensures, Ensures-bind, Ensures-ok, Ensures-if, Result, err, ok,
}
use apanel.Base.Dict.{Dict, get, put, get-put}
use apanel.Base.Slices.{All-snoc, is_in}
use apanel.Hub.Facts.{unique_facts, FactError}
use apanel.Hub.Days.{by_day}
use apanel.Hub.Members.{All-unique_facts}
use apanel.Sync.Failures.{sync_error, Raised}
use apanel.Sync.Quotes.{
  last, omitted, Pending, by_symbol, take_candidates, take_group, take_each, take_groups,
  take_batch, take_batches, validated_quote, after_quote, Quote,
}
use apanel.Sync.Reported.{IsBacked, fail-IsBacked, take-IsBacked, fail_all-IsBacked}

module _ {D : Type 0} where
  -- The groups hold quotes of their symbols.
  abbrev Sorted : Dict Text (List (Quote D)) → Type 0
  Sorted d = (s : Text) (g : List (Quote D)) → get d s ≡ some g → All (λ q. q.symbol ≡ s) g

  Sorted-put :
      (d : Dict Text (List (Quote D))) (q : Quote D)
      → Sorted d
      → Sorted (put d q.symbol (get_or_else (get d q.symbol) [] ++ q ∷ []))
  Sorted-put d q h s g found =
      let added = get_or_else (get d q.symbol) [] ++ q ∷ [] in
      elim (Bool-cases (beq q.symbol s)) [
        | inl same ↦
            let own = beq→eq q.symbol s same in
            let group : ◌≡◌ {A = Option (List (Quote D))} (some added) (some g) =
              rw (get-put d q.symbol added s, same) at found in
            let is_added : added ≡ g = cc group in
            subst (All (λ r. r.symbol ≡ s)) is_added (
              All-snoc (λ r. r.symbol ≡ s) (get_or_else (get d q.symbol) []) q
                (earlier s (get d q.symbol) (λ k there. h s k (ap (get d) (sym own) ∙ there))) own)
        | inr other ↦ h s g (rw (get-put d q.symbol added s, other) at found)
      ]
    where
      earlier :
          (s : Text) (o : Option (List (Quote D)))
          → ((k : List (Quote D)) → o ≡ some k → All (λ r. r.symbol ≡ s) k)
          → All (λ r. r.symbol ≡ s) (get_or_else o [])
      earlier s none h = tt
      earlier s (some k) h = h k refl

  All-last : (P : Quote D → Type 0) (xs : List (Quote D)) → All P xs → Ensures P (last xs)
  unfolding last
  All-last P [] h = tt
  All-last P (x ∷ []) (first, h) = first
  All-last P (x ∷ y ∷ xs) (first, h) = All-last P (y ∷ xs) h

module _ {D : Type 0} ⦃same : Equality (Quote D)⦄ where
  by_symbol-Sorted :
      (requested : List Text) (records : List (Option (Quote D))) (d : Dict Text (List (Quote D)))
      → Sorted d
      → Ensures Sorted (by_symbol requested records d)
  unfolding by_symbol
  by_symbol-Sorted requested [] d h = h
  by_symbol-Sorted requested (none ∷ records) d h = tt
  by_symbol-Sorted requested (some q ∷ records) d h =
      Ensures-if Sorted (is_in q.symbol requested) _ _
        (by_symbol-Sorted requested records _ (Sorted-put d q h)) tt

  take_candidates-IsBacked :
      (s : Text) (p : Pending D) (r : Result FactError (List (Quote D)))
      → IsBacked p
      → Ensures (All (λ q. q.symbol ≡ s)) r
      → Ensures IsBacked (take_candidates s p r)
  unfolding take_candidates
  take_candidates-IsBacked s (pending, results) (err conflict) h g =
      fail-IsBacked pending results s _ h
  take_candidates-IsBacked s (pending, results) (ok candidates) h g =
      Ensures-bind IsBacked (last candidates) _ λ q found.
        take-IsBacked pending results s q
          (Ensures-ok (λ q. q.symbol ≡ s) (last candidates)
            (All-last (λ q. q.symbol ≡ s) candidates g) found)
          h

  take_group-IsBacked :
      (s : Text) (p : Pending D) (o : Option (List (Quote D)))
      → IsBacked p
      → ((g : List (Quote D)) → o ≡ some g → All (λ q. q.symbol ≡ s) g)
      → Ensures IsBacked (take_group s p o)
  unfolding take_group
  take_group-IsBacked s (pending, results) none h g = fail-IsBacked pending results s omitted h
  take_group-IsBacked s p (some records) h g =
      take_candidates-IsBacked s p (unique_facts (λ q. q.timestamp) by_day records) h
        (All-unique_facts (λ q. q.symbol ≡ s) (λ q. q.timestamp) by_day records (g records refl))

  take_each-IsBacked :
      (groups : Dict Text (List (Quote D))) (symbols : List Text) (p : Pending D)
      → Sorted groups
      → IsBacked p
      → Ensures IsBacked (take_each groups symbols p)
  unfolding take_each
  take_each-IsBacked groups [] p sorted h = h
  take_each-IsBacked groups (s ∷ symbols) p sorted h =
      Ensures-bind IsBacked (take_group s p (get groups s)) _ λ q found.
        take_each-IsBacked groups symbols q sorted (
          Ensures-ok IsBacked (take_group s p (get groups s))
            (take_group-IsBacked s p (get groups s) h (sorted s)) found)

  take_groups-IsBacked :
      (symbols : List Text) (p : Pending D) (r : Result Raised (Dict Text (List (Quote D))))
      → IsBacked p
      → Ensures Sorted r
      → Ensures IsBacked (take_groups symbols p r)
  unfolding take_groups
  take_groups-IsBacked symbols (pending, results) (err x) h g =
      fail_all-IsBacked symbols (sync_error x) pending results h
  take_groups-IsBacked symbols p (ok groups) h g = take_each-IsBacked groups symbols p g h

  take_batch-IsBacked :
      (symbols : List Text) (records : List (Option (Quote D))) (p : Pending D)
      → IsBacked p
      → Ensures IsBacked (take_batch symbols records p)
  unfolding take_batch get
  take_batch-IsBacked symbols records p h =
      take_groups-IsBacked symbols p (by_symbol symbols records []) h
        (by_symbol-Sorted symbols records [] (λ s g found. cc found))

  pub take_batches-IsBacked :
      (batches : List (List Text × List (Option (Quote D)))) (p : Pending D)
      → IsBacked p
      → Ensures IsBacked (take_batches batches p)
  unfolding take_batches
  take_batches-IsBacked [] p h = h
  take_batches-IsBacked ((symbols, records) ∷ rest) p h =
      Ensures-bind IsBacked (take_batch symbols records p) _ λ q found.
        take_batches-IsBacked rest q (
          Ensures-ok IsBacked (take_batch symbols records p)
            (take_batch-IsBacked symbols records p h) found)

  pub validated_quote-symbol :
      (s : Text) (r : Option (Quote D)) → Ensures (λ q. q.symbol ≡ s) (validated_quote s r)
  unfolding validated_quote
  validated_quote-symbol s none = tt
  validated_quote-symbol s (some q) = elim (Bool-cases (beq q.symbol s)) [
    | inl mine ↦ rw mine (beq→eq q.symbol s mine)
    | inr other ↦ rw other tt
  ]

  pub after_quote-IsBacked :
      (s : Text) (p : Pending D) (r : Result Raised (Quote D))
      → IsBacked p
      → Ensures (λ q. q.symbol ≡ s) r
      → IsBacked (after_quote s p r)
  unfolding after_quote
  after_quote-IsBacked s (pending, results) (err x) h g =
      fail-IsBacked pending results s (sync_error x) h
  after_quote-IsBacked s (pending, results) (ok q) h g = take-IsBacked pending results s q g h
