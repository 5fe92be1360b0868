-- ===== src/Sync/Quotes.antt =====
-- `QuoteSyncService.sync`.
use apanel.Base.{
  Equality, nat_equality, bool_equality, pair_equality, option_equality, ◌=?◌, Text, text_equality,
  ℕ, zero, suc, Option, none, some, List, [], ◌∷◌, ◌++◌, if◌then◌else◌, get_or_else, ◌>>=◌, Result,
  err, ok,
}
use apanel.Base.Dict.{Dict, get, put}
use apanel.Base.Texts.{text}
use apanel.Base.Slices.{take, drop, is_in}
use apanel.Hub.Facts.{unique_facts, FactError}
use apanel.Hub.Days.{by_day}
use apanel.Sync.Failures.{
  sync_error, failed_item, fetched_item, Call, invalid_data, another, Raised, SyncError,
}
use apanel.Sync.Symbols.{Results, fail_all}

-- `timestamp` is the number of the instant.
pub record Quote (D : Type 0) : Type 0 where
  pub symbol : Text
  pub price : D
  pub timestamp : ℕ
  pub change : Option D
  pub change_percent : Option D

abbrev pub invalid : Text → Raised
invalid message = record {
  kind = invalid_data;
  message = message;
  class_name = text "InvalidMarketDataError";
}

-- `xs[offset : offset + size]` for the offsets that are multiples of the size, by fuel
unfoldable pub chunks : {A : Type 0} → ℕ → ℕ → List A → List (List A)
unfolding take drop
chunks zero size xs = []
chunks (suc n) size [] = []
chunks (suc n) size (x ∷ xs) = take size (x ∷ xs) ∷ chunks n size (drop size (x ∷ xs))

-- `xs[-1]`
unfoldable pub last : {A : Type 0} → List A → Result Raised A
last [] = err (record {
  kind = another;
  message = text "tuple index out of range";
  class_name = text "IndexError";
})
last (x ∷ []) = ok x
last (x ∷ y ∷ xs) = last (y ∷ xs)

abbrev pub omitted : SyncError
omitted = record {
  code = text "PROVIDER_UNAVAILABLE";
  message = text "provider omitted requested quote";
}

-- The quotes to be persisted, and the results, by symbol
abbrev pub Pending : Type 0 → Type 0
Pending D = Dict Text (Quote D) × Results

module _ {D : Type 0} ⦃same : Equality (Quote D)⦄ where
  -- `by_symbol`; a record that is no `Quote` is `none`
  unfoldable pub by_symbol :
      List Text
      → List (Option (Quote D))
      → Dict Text (List (Quote D))
      → Result Raised (Dict Text (List (Quote D)))
  unfolding get put
  by_symbol requested [] d = ok d
  by_symbol requested (none ∷ records) d =
      err (invalid (text "provider returned an unexpected quote"))
  by_symbol requested (some q ∷ records) d =
      let rest =
        by_symbol requested records (put d q.symbol (get_or_else (get d q.symbol) [] ++ q ∷ [])) in
      if is_in q.symbol requested
      then rest
      else err (invalid (text "provider returned an unexpected quote"))

  -- Latest explicit timestamp wins; equal-time conflicts fail.
  unfoldable pub take_candidates :
      Text → Pending D → Result FactError (List (Quote D)) → Result Raised (Pending D)
  unfolding put last sync_error
  take_candidates symbol (pending, results) (err conflict) = ok (
    pending,
    put results symbol (
        failed_item symbol
          (sync_error (invalid (text "conflicting market records for one identity")))),
  )
  take_candidates symbol (pending, results) (ok candidates) =
      last candidates >>= λ q. ok (put pending symbol q, put results symbol (fetched_item symbol 1))

  -- The records of one requested symbol
  unfoldable pub take_group : Text → Pending D → Option (List (Quote D)) → Result Raised (Pending D)
  unfolding put take_candidates unique_facts
  take_group symbol (pending, results) none =
      ok (pending, put results symbol (failed_item symbol omitted))
  take_group symbol p (some records) =
      take_candidates symbol p (unique_facts (λ q. q.timestamp) by_day records)

  unfoldable pub take_each :
      Dict Text (List (Quote D)) → List Text → Pending D → Result Raised (Pending D)
  unfolding take_group get
  take_each groups [] p = ok p
  take_each groups (symbol ∷ symbols) p =
      take_group symbol p (get groups symbol) >>= take_each groups symbols

  unfoldable pub take_groups :
      List Text → Pending D → Result Raised (Dict Text (List (Quote D))) → Result Raised (Pending D)
  unfolding take_each fail_all sync_error
  take_groups symbols (pending, results) (err x) =
      ok (pending, fail_all symbols (sync_error x) results)
  take_groups symbols p (ok groups) = take_each groups symbols p

  -- One answered request
  unfoldable pub take_batch :
      List Text → List (Option (Quote D)) → Pending D → Result Raised (Pending D)
  unfolding by_symbol take_groups
  take_batch symbols records p = take_groups symbols p (by_symbol symbols records [])

  unfoldable pub take_batches :
      List (List Text × List (Option (Quote D))) → Pending D → Result Raised (Pending D)
  unfolding take_batch
  take_batches [] p = ok p
  take_batches ((symbols, records) ∷ rest) p = take_batch symbols records p >>= take_batches rest

  -- `_validated_quote`
  unfoldable pub validated_quote : Text → Option (Quote D) → Result Raised (Quote D)
  validated_quote symbol none = err (invalid (text "provider returned a non-Quote record"))
  validated_quote symbol (some q) =
      if q.symbol =? symbol
      then ok q
      else err (
          invalid
            (text "provider returned quote for " ++ q.symbol ++ text ", requested " ++ symbol))

  unfoldable pub after_quote : Text → Pending D → Result Raised (Quote D) → Pending D
  unfolding put sync_error
  after_quote symbol (pending, results) (err x) =
      (pending, put results symbol (failed_item symbol (sync_error x)))
  after_quote symbol (pending, results) (ok q) =
      (put pending symbol q, put results symbol (fetched_item symbol 1))

-- What the service is made with: the provider, which may have the batch method, and the repository.
pub record QuoteSyncService (W D : Type 0) : Type 0 where
  pub get_quotes : Option (List Text → Call W (List (Option (Quote D))))
  pub get_quote : Text → Call W (Option (Quote D))
  pub upsert_many : List (Quote D) → Call W (Unit {0})
  pub batch_size : ℕ
