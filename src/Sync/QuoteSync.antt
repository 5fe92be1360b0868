-- ===== src/Sync/QuoteSync.antt =====
-- `QuoteSyncService.sync`: the loops over the symbols and the call of the repository.
use apanel.Base.{
  Equality, nat_equality, bool_equality, pair_equality, option_equality, Text, text_equality, max,
  Option, none, some, List, [], ◌∷◌, length, ◌>>=◌, Result, err, ok,
}
use apanel.Base.Texts.{text}
use apanel.Hub.Facts.{values_of}
use apanel.Sync.Failures.{sync_error, Call, resume, Raised, SyncSummary}
use apanel.Sync.Fetching.{Isolated, isolate}
use apanel.Sync.Persisting.{persist_with_isolation}
use apanel.Sync.Symbols.{Results, canonicalize, fail_all, fail_each, record_outcomes, Raw}
use apanel.Sync.Quotes.{
  chunks, Pending, take_batches, validated_quote, after_quote, Quote, QuoteSyncService,
}

module _ {W D : Type 0} ⦃same : Equality (Quote D)⦄ where
  unfoldable pub after_isolation :
      List Text
      → Pending D
      → Result Raised (Isolated (List (Option (Quote D)))) × W
      → Result Raised (Pending D) × W
  unfolding take_batches fail_all fail_each sync_error
  after_isolation chunk (pending, results) (err x, w) =
      (ok (pending, fail_all chunk (sync_error x) results), w)
  after_isolation chunk (pending, results) (ok (batches, errors), w) =
      (take_batches batches (pending, fail_each errors results), w)

  -- The batches of symbols, where the provider has the batch method; the number of symbols of a batch is
  -- a depth of calls that the isolation does not reach.
  unfoldable pub take_chunks :
      (List Text → Call W (List (Option (Quote D))))
      → List (List Text)
      → Pending D
      → Call W (Pending D)
  unfolding after_isolation isolate
  take_chunks fetch [] p w = (ok p, w)
  take_chunks fetch (chunk ∷ rest) p w =
      resume (after_isolation chunk p (isolate fetch (length chunk) chunk w))
        (take_chunks fetch rest)

  -- The symbols one by one, where it has not
  unfoldable pub take_singly :
      (Text → Call W (Option (Quote D))) → List Text → Pending D → W → Pending D × W
  unfolding after_quote validated_quote
  take_singly fetch [] p w = (p, w)
  take_singly fetch (symbol ∷ symbols) p w =
      let (reply, v) = fetch symbol w in
      take_singly fetch symbols (after_quote symbol p (reply >>= validated_quote symbol)) v

  -- The call of the repository, if there is anything to persist
  unfoldable pub persist_pending : (List (Quote D) → Call W (Unit {0})) → Pending D → Call W Results
  unfolding persist_with_isolation record_outcomes
  persist_pending upsert_many ([], results) w = (ok results, w)
  persist_pending upsert_many (p ∷ pending, results) w =
      resume (persist_with_isolation upsert_many (λ q. q.symbol) (values_of (p ∷ pending)) w)
        λ out v. (record_outcomes (λ _. 1) out results, v)

  unfoldable pub fetch_all : QuoteSyncService W D → List Text × Results → Call W (Pending D)
  unfolding chunks take_chunks take_singly
  fetch_all service (symbols, results) w = elim service.get_quotes [
    | some fetch ↦
        take_chunks fetch (chunks (length symbols) (max 1 service.batch_size) symbols) ([], results)
          w
    | none ↦ (let (p, v) = take_singly service.get_quote symbols ([], results) w in (ok p, v))
  ]

  unfoldable pub sync_quotes :
      QuoteSyncService W D → (Raw → Result Raised Text) → List Raw → Call W SyncSummary
  unfolding canonicalize fetch_all persist_pending
  sync_quotes service normalize_symbol raws w =
      resume (fetch_all service (canonicalize normalize_symbol raws ([], [])) w) λ p v.
        resume (persist_pending service.upsert_many p v)
          λ results u. (ok (record { operation = text "quote"; items = values_of results }), u)
