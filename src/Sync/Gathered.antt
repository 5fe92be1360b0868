-- ===== src/Sync/Gathered.antt =====
-- Proofs on the loops of `QuoteSyncService.sync`: what the fetched quotes come to.
use apanel.Base.{
  Equality, nat_equality, bool_equality, pair_equality, option_equality, Text, text_equality, max,
  ◌≡◌, inl, inr, Option, List, [], ◌∷◌, ◌++◌, if◌then◌else◌, Option-cases, if-split, length,
  Result-cases, ◌>>=◌, Ensures, Ensures-bind, Result, err, ok,
}
use apanel.Base.Dict.{has}
use apanel.Sync.Failures.{sync_error, failed_item, Call, resume, Raised}
use apanel.Sync.Fetching.{Isolated, isolate}
use apanel.Sync.Symbols.{Results, best_effort_symbol, set_default, canonicalize, fail_each, Raw}
use apanel.Sync.Quotes.{chunks, Pending, validated_quote, Quote, QuoteSyncService}
use apanel.Sync.QuoteSync.{after_isolation, take_chunks, take_singly, fetch_all}
use apanel.Sync.Reported.{IsBacked, fail-IsBacked, fail_all-IsBacked, fail_each-IsBacked}
use apanel.Sync.Taken.{take_batches-IsBacked, validated_quote-symbol, after_quote-IsBacked}

pub resume-Ensures :
    {W A C : Type 0} (P : A → Type 0) (Q : C → Type 0) (r : Result Raised A × W)
    (next : A → Call W C)
    → Ensures P r.0
    → ((a : A) (w : W) → P a → Ensures Q (next a w).0)
    → Ensures Q (resume r next).0
resume-Ensures P Q (err x, w) next h g = tt
resume-Ensures P Q (ok a, w) next h g = g a w h

module _ {W D : Type 0} ⦃same : Equality (Quote D)⦄ where
  after_isolation-IsBacked :
      (chunk : List Text) (p : Pending D)
      (r : Result Raised (Isolated (List (Option (Quote D)))) × W)
      → IsBacked p
      → Ensures IsBacked (after_isolation chunk p r).0
  unfolding after_isolation
  after_isolation-IsBacked chunk (pending, results) (err x, w) h =
      fail_all-IsBacked chunk (sync_error x) pending results h
  after_isolation-IsBacked chunk (pending, results) (ok (batches, errors), w) h =
      take_batches-IsBacked batches (pending, fail_each errors results)
        (fail_each-IsBacked errors pending results h)

  take_chunks-IsBacked :
      (fetch : List Text → Call W (List (Option (Quote D)))) (cs : List (List Text)) (p : Pending D)
      (w : W)
      → IsBacked p
      → Ensures IsBacked (take_chunks fetch cs p w).0
  unfolding take_chunks
  take_chunks-IsBacked fetch [] p w h = h
  take_chunks-IsBacked fetch (chunk ∷ rest) p w h =
      resume-Ensures IsBacked IsBacked
        (after_isolation chunk p (isolate fetch (length chunk) chunk w)) (take_chunks fetch rest)
        (after_isolation-IsBacked chunk p (isolate fetch (length chunk) chunk w) h)
        (λ q v. take_chunks-IsBacked fetch rest q v)

  take_singly-IsBacked :
      (fetch : Text → Call W (Option (Quote D))) (symbols : List Text) (p : Pending D) (w : W)
      → IsBacked p
      → IsBacked (take_singly fetch symbols p w).0
  unfolding take_singly
  take_singly-IsBacked fetch [] p w h = h
  take_singly-IsBacked fetch (s ∷ symbols) p w h =
      take_singly-IsBacked fetch symbols _ (fetch s w).1 (
        after_quote-IsBacked s p ((fetch s w).0 >>= validated_quote s) h (
          Ensures-bind (λ q. q.symbol ≡ s) (fetch s w).0 (validated_quote s)
            (λ r _. validated_quote-symbol s r)))

pub canonicalize-IsBacked :
    (D : Type 0) (normalize : Raw → Result Raised Text) (raws : List Raw) (symbols : List Text)
    (results : Results)
    → IsBacked {D = D} ([], results)
    → IsBacked {D = D} ([], (canonicalize normalize raws (symbols, results)).1)
unfolding canonicalize
canonicalize-IsBacked D normalize [] symbols results h = h
canonicalize-IsBacked D normalize (raw ∷ raws) symbols results h =
    elim (Result-cases (normalize raw)) [
      | inl (x, refused) ↦
          let symbol = best_effort_symbol normalize raw in
          let item = failed_item symbol (sync_error x) in
          rw (refused, canonicalize)
            (canonicalize-IsBacked D normalize raws symbols
              (set_default normalize results symbol item)
              (if-split {A = Results} (λ r. IsBacked {D = D} ([], r)) (has results symbol) _ _
                (λ _. h) (λ _. fail-IsBacked [] results symbol (sync_error x) h)))
      | inr (symbol, accepted) ↦
          rw (accepted, canonicalize)
            (canonicalize-IsBacked D normalize raws
              (if has results symbol then symbols else symbols ++ symbol ∷ []) results h)
    ]

module _ {W D : Type 0} ⦃same : Equality (Quote D)⦄ where
  pub fetch_all-IsBacked :
      (service : QuoteSyncService W D) (start : List Text × Results) (w : W)
      → IsBacked {D = D} ([], start.1)
      → Ensures IsBacked (fetch_all service start w).0
  unfolding fetch_all
  fetch_all-IsBacked service (symbols, results) w h = elim (Option-cases service.get_quotes) [
    | inl singly ↦ rw singly (take_singly-IsBacked service.get_quote symbols ([], results) w h)
    | inr (fetch, batch) ↦ rw batch (
        take_chunks-IsBacked fetch (chunks (length symbols) (max 1 service.batch_size) symbols)
          ([], results) w h)
  ]
