-- ===== src/Sync/Reported.antt =====
-- Proofs on the results and the pending quotes that the loops of `QuoteSyncService.sync` leave.
use apanel.Base.{
  beq, nat_equality, bool_equality, pair_equality, option_equality, beq→eq, Text, text_equality,
  ◌≡◌, refl, inl, inr, true, false≢true, Option, some, List, [], ◌∷◌, Bool-cases,
}
use apanel.Base.Dict.{Dict, get, put, has, get-put}
use apanel.Base.Keys.{has-put, Distinct, Distinct-put}
use apanel.Sync.Failures.{
  is_success, sync_error, failed_item, fetched_item, Raised, SyncError, SyncItemResult,
}
use apanel.Sync.Symbols.{Results, fail_all, fail_each}
use apanel.Sync.Quotes.{Pending, Quote}

-- There is one item for each symbol, under that symbol.
unfoldable pub IsOwn : Results → Type 0
unfolding get Distinct
IsOwn results =
    Distinct results × ((s : Text) (i : SyncItemResult) → get results s ≡ some i → i.symbol ≡ s)

pub IsOwn-put :
    (results : Results) (s : Text) (i : SyncItemResult)
    → i.symbol ≡ s
    → IsOwn results
    → IsOwn (put results s i)
unfolding IsOwn
IsOwn-put results s i own (distinct, h) = (
  Distinct-put results s i distinct,
  λ t j found. elim (Bool-cases (beq s t)) [
    | inl same ↦
        let at_s : ◌≡◌ {A = Option SyncItemResult} (some i) (some j) =
          rw (get-put results s i t, same) at found in
        cc (at_s, own, beq→eq s t same)
    | inr other ↦ h t j (rw (get-put results s i t, other) at found)
  ],
)

module _ {D : Type 0} where
  -- What is reported as fetched is pending, and what is pending is a quote of its symbol.
  unfoldable pub IsBacked : Pending D → Type 0
  unfolding IsOwn
  IsBacked (pending, results) =
      IsOwn results
      × ((s : Text) (i : SyncItemResult)
          → get results s ≡ some i
          → is_success i ≡ true
          → has pending s ≡ true)
      × ((s : Text) (q : Quote D) → get pending s ≡ some q → q.symbol ≡ s)

  pub fail-IsBacked :
      (pending : Dict Text (Quote D)) (results : Results) (s : Text) (e : SyncError)
      → IsBacked (pending, results)
      → IsBacked (pending, put results s (failed_item s e))
  unfolding IsBacked
  fail-IsBacked pending results s e (own, backed, named) = (
    IsOwn-put results s (failed_item s e) refl own,
    (λ t i found fine. elim (Bool-cases (beq s t)) [
      | inl same ↦
          let at_s : ◌≡◌ {A = Option SyncItemResult} (some (failed_item s e)) (some i) =
            rw (get-put results s (failed_item s e) t, same) at found in
          absurd (false≢true (cc (at_s, fine)))
      | inr other ↦ backed t i (rw (get-put results s (failed_item s e) t, other) at found) fine
    ]),
    named,
  )

  pub take-IsBacked :
      (pending : Dict Text (Quote D)) (results : Results) (s : Text) (q : Quote D)
      → q.symbol ≡ s
      → IsBacked (pending, results)
      → IsBacked (put pending s q, put results s (fetched_item s 1))
  unfolding IsBacked
  take-IsBacked pending results s q mine (own, backed, named) = (
    IsOwn-put results s (fetched_item s 1) refl own,
    (λ t i found fine. rw (has-put pending s q t) (elim (Bool-cases (beq s t)) [
      | inl same ↦ rw same refl
      | inr other ↦
          rw other (backed t i (rw (get-put results s (fetched_item s 1) t, other) at found) fine)
    ])),
    (λ t r found. elim (Bool-cases (beq s t)) [
      | inl same ↦
          let at_s : ◌≡◌ {A = Option (Quote D)} (some q) (some r) =
            rw (get-put pending s q t, same) at found in
          cc (at_s, mine, beq→eq s t same)
      | inr other ↦ named t r (rw (get-put pending s q t, other) at found)
    ]),
  )

  pub fail_all-IsBacked :
      (symbols : List Text) (e : SyncError) (pending : Dict Text (Quote D)) (results : Results)
      → IsBacked (pending, results)
      → IsBacked (pending, fail_all symbols e results)
  unfolding fail_all
  fail_all-IsBacked [] e pending results h = h
  fail_all-IsBacked (s ∷ symbols) e pending results h =
      fail_all-IsBacked symbols e pending _ (fail-IsBacked pending results s e h)

  pub fail_each-IsBacked :
      (errors : Dict Text Raised) (pending : Dict Text (Quote D)) (results : Results)
      → IsBacked (pending, results)
      → IsBacked (pending, fail_each errors results)
  unfolding fail_each
  fail_each-IsBacked [] pending results h = h
  fail_each-IsBacked ((s, x) ∷ errors) pending results h =
      fail_each-IsBacked errors pending _ (fail-IsBacked pending results s (sync_error x) h)
