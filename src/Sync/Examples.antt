-- ===== src/Sync/Examples.antt =====
-- A provider that refuses one symbol, a store of quotes, and the theorems at concrete inputs.
use apanel.Base.{
  Equality, beq, nat_equality, bool_equality, pair_equality, option_equality, ◌=?◌, beq_refl, Text,
  text_equality, ℕ, suc, ◌+◌, ◌*◌, ◌≤◌, ◌≡◌, refl, ap, ◌∙◌, ◌↔◌, Bool, true, false, Option, none,
  some, List, [], ◌∷◌, ◌++◌, map, arith, if◌then◌else◌, if-split, length, any, All, Ensures, Result,
  err, ok,
}
use apanel.Base.Dict.{Dict, get, put, has}
use apanel.Base.Texts.{text}
use apanel.Base.Slices.{take, drop, any-append, is_in}
use apanel.Sync.Failures.{
  successes, succeeded, failures, persistence_error, is_systemic_persistence_error, Call, Raised,
  SyncError,
}
use apanel.Sync.Fetching.{merge, both, divide, resolve, isolate}
use apanel.Sync.Isolated.{Separates, isolate-Separates}
use apanel.Sync.Requests.{isolate_requests}
use apanel.Sync.Persisting.{grouped, no_errors, retry, persist_with_isolation}
use apanel.Sync.Groups.{group}
use apanel.Sync.Stored.{persist-stored}
use apanel.Sync.Verdicts.{verdict, persist_isolated}
use apanel.Sync.Symbols.{canonicalize, fail_each, record_outcomes, Raw, raw_text}
use apanel.Sync.Quotes.{
  invalid, chunks, last, by_symbol, take_candidates, take_group, take_each, take_groups, take_batch,
  take_batches, Quote, QuoteSyncService,
}
use apanel.Sync.QuoteSync.{after_isolation, take_chunks, persist_pending, fetch_all, sync_quotes}
use apanel.Sync.QuoteStored.{Honest, sync_quotes-Honest}
use apanel.Sync.Securities.{sync_securities, SecuritySyncService}
use apanel.Sync.Atomic.{IsAtomic, sync_securities-IsAtomic}

abbrev poison : Text
poison = text "SZ000002"

abbrev is_poison : Text → Bool
is_poison s = s =? poison

abbrev rejection : {A : Type 0} → List A → Raised
rejection rs = invalid (text "malformed record")

abbrev number_of : List Text → ℕ
number_of = length

-- The world is the number of requests.
abbrev request : List Text → Call ℕ ℕ
request rs w = (if any is_poison rs then err (rejection rs) else ok (number_of rs), suc w)

abbrev asked : List Text
asked = text "SH600519" ∷ poison ∷ text "SZ000001" ∷ []

one_symbol_is_singled_out : (isolate request 3 asked 0).1 ≡ 5
unfolding isolate resolve divide both merge take drop
one_symbol_is_singled_out = refl

rejects_poison :
    (rs : List Text) (w : ℕ) → any is_poison rs ≡ true → (request rs w).0 ≡ err (rejection rs)
rejects_poison rs w found = rw found refl

answers_others :
    (rs : List Text) (w : ℕ) → any is_poison rs ≡ false → (request rs w).0 ≡ ok (number_of rs)
answers_others rs w fine = rw fine refl

isolate-Separates_example :
    Separates is_poison rejection number_of asked (isolate request 3 asked 0).0
isolate-Separates_example =
    isolate-Separates is_poison rejection number_of request (λ rs. refl) rejects_poison
      answers_others 3 asked 0 (ground arith) (ground arith)

isolate_requests_example : suc (isolate request 3 asked 0).1 ≤ 0 + 2 * length asked
isolate_requests_example = isolate_requests (λ w. w) request (λ rs w. refl) 3 asked 0 (ground arith)

abbrev Fields : Type 0
Fields = Text × (ℕ × (ℕ × (Option ℕ × Option ℕ)))

abbrev fields : Quote ℕ → Fields
fields q = (q.symbol, (q.price, (q.timestamp, (q.change, q.change_percent))))

abbrev quote_of : Fields → Quote ℕ
quote_of (s, (p, (t, (c, r)))) = record {
  symbol = s;
  price = p;
  timestamp = t;
  change = c;
  change_percent = r;
}

fields_equality : Equality Fields
fields_equality =
    pair_equality ⦃e = text_equality⦄
      ⦃f = pair_equality ⦃e = nat_equality⦄
        ⦃f = pair_equality ⦃e = nat_equality⦄
          ⦃f = pair_equality ⦃e = option_equality ⦃e = nat_equality⦄⦄
            ⦃f = option_equality ⦃e = nat_equality⦄⦄⦄⦄⦄

quote_test_iff : (a b : Quote ℕ) → (fields_equality.test (fields a) (fields b) ≡ true) ↔ (a ≡ b)
quote_test_iff a b = (
  (λ h. ap quote_of ((fields_equality.test_iff (fields a) (fields b)).0 h)),
  λ p. (fields_equality.test_iff (fields a) (fields b)).1 (ap fields p),
)

instance abbrev quote_equality : Equality (Quote ℕ)
quote_equality = record {
  test = λ a b. fields_equality.test (fields a) (fields b);
  test_iff = quote_test_iff;
}

-- The world is the store; a call with a bad price is refused whole.
abbrev Store : Type 0
Store = List (Quote ℕ)

abbrev is_free : Quote ℕ → Bool
is_free q = q.price =? 0

abbrev upsert : List (Quote ℕ) → Call Store (Unit {0})
upsert rs w = if any is_free rs then (err (rejection rs), w) else (ok tt, rs ++ w)

abbrev IsStored : Store → Quote ℕ → Type 0
IsStored w q = is_in q w ≡ true

IsStored-append : (rs w : List (Quote ℕ)) → All (IsStored (rs ++ w)) rs
IsStored-append [] w = tt
IsStored-append (r ∷ rs) w = (rw (beq_refl r) refl, All-grown rs (IsStored-append rs w))
  where
    All-grown :
        (qs : List (Quote ℕ)) → All (IsStored (rs ++ w)) qs → All (IsStored (r ∷ rs ++ w)) qs
    All-grown [] h = tt
    All-grown (q ∷ qs) (first, others) = (ground (arith, first), All-grown qs others)

commits :
    (rs : List (Quote ℕ)) (w : Store) → (upsert rs w).0 ≡ ok tt → All (IsStored (upsert rs w).1) rs
commits rs w =
    if-split {A = Result Raised (Unit {0}) × Store} (λ r. r.0 ≡ ok tt → All (IsStored r.1) rs)
      (any is_free rs) _ _ (λ _ h. cc h) (λ _ _. IsStored-append rs w)

keeps :
    (rs : List (Quote ℕ)) (w : Store) (r : Quote ℕ)
    → is_in r.symbol (map (λ q. q.symbol) rs) ≡ false
    → IsStored w r
    → IsStored (upsert rs w).1 r
keeps rs w r apart held =
    if-split {A = Result Raised (Unit {0}) × Store} (λ x. IsStored x.1 r) (any is_free rs) _ _
      (λ _. held) (λ _. any-append (λ y. beq y r) rs w ∙ ground (arith, held))

abbrev quote_at : Text → ℕ → ℕ → Quote ℕ
quote_at s price time = record {
  symbol = s;
  price = price;
  timestamp = time;
  change = none;
  change_percent = none;
}

abbrev records : List (Quote ℕ)
records = quote_at (text "SH600519") 1500 9 ∷ quote_at (text "SZ000001") 0 9 ∷ []

abbrev outcomes : Dict Text (Option SyncError)
outcomes =
    (text "SH600519", none) ∷ (text "SZ000001", some (persistence_error (rejection records))) ∷ []

persists_the_other : (persist_with_isolation upsert (λ q. q.symbol) records []).0 ≡ ok outcomes
unfolding persist_with_isolation grouped retry get put is_systemic_persistence_error
persists_the_other = refl

persist-stored_example :
    All
      (IsStored (persist_with_isolation upsert (λ q. q.symbol) records []).1)
      (group (λ q. q.symbol) (text "SH600519") records)
unfolding get
persist-stored_example =
    persist-stored upsert (λ q. q.symbol) IsStored commits keeps records [] (text "SH600519")
      persists_the_other refl

accepts : (rs : List (Quote ℕ)) (w : Store) → any is_free rs ≡ false → (upsert rs w).0 ≡ ok tt
accepts rs w fine = rw fine refl

refuses :
    (rs : List (Quote ℕ)) (w : Store) → any is_free rs ≡ true → (upsert rs w).0 ≡ err (rejection rs)
refuses rs w found = rw found refl

is_data_error : (rs : List (Quote ℕ)) → is_systemic_persistence_error (rejection rs) ≡ false
unfolding is_systemic_persistence_error
is_data_error rs = refl

persist_isolated_example :
    (out : Dict Text (Option SyncError)) × ((persist_with_isolation upsert
        (λ q. q.symbol)
        records
        []).0
      ≡ ok out)
    × ((k : Text)
        → get out k ≡ (
            if is_in k (map (λ q. q.symbol) records)
            then some (verdict is_free rejection (group (λ q. q.symbol) k records))
            else none))
persist_isolated_example =
    persist_isolated upsert (λ q. q.symbol) is_free rejection is_data_error refuses accepts records
      []

abbrev quote_reply : List Text → Call Store (List (Option (Quote ℕ)))
quote_reply rs w =
    if any is_poison rs
    then (err (rejection rs), w)
    else (ok (map (λ s. some (quote_at s 7 9)) rs), w)

abbrev service : QuoteSyncService Store ℕ
service = record {
  get_quotes = some quote_reply;
  get_quote = λ s w. (ok none, w);
  upsert_many = upsert;
  batch_size = 50;
}

abbrev as_given : Raw → Result Raised Text
as_given (raw_text t) = ok t
as_given _ = err (invalid (text "symbol must be text"))

abbrev asked_raw : List Raw
asked_raw = map raw_text asked

sync_quotes-Honest_example :
    Ensures
      (λ summary. All (Honest IsStored (sync_quotes service as_given asked_raw []).1) summary.items)
      (sync_quotes service as_given asked_raw []).0
sync_quotes-Honest_example = sync_quotes-Honest IsStored service commits keeps as_given asked_raw []

two_of_three :
    Ensures
      (λ summary. (succeeded summary ≡ 2) × (failures summary ≡ 1))
      (sync_quotes service as_given asked_raw []).0
unfolding sync_quotes canonicalize fetch_all chunks take_chunks after_isolation isolate resolve
    divide both merge take drop take_batches take_batch by_symbol take_groups take_each take_group
    take_candidates last persist_pending persist_with_isolation grouped record_outcomes get put
    fail_each has successes no_errors
two_of_three = (refl, refl)

abbrev securities : SecuritySyncService (List Text) Text
securities = record {
  symbol_of = λ s. s;
  get_symbols = λ w. (ok (map some asked), w);
  authoritative_universe = true;
  reconcile_snapshot = λ rs authoritative w. (ok tt, rs ++ w);
}

symbols_front : (rs w : List Text) → All (λ s. is_in s (rs ++ w) ≡ true) rs
symbols_front [] w = tt
symbols_front (r ∷ rs) w = (rw (beq_refl r) refl, grown rs (symbols_front rs w))
  where
    grown :
        (qs : List Text)
        → All (λ s. is_in s (rs ++ w) ≡ true) qs
        → All (λ s. is_in s (r ∷ rs ++ w) ≡ true) qs
    grown [] h = tt
    grown (q ∷ qs) (first, others) = (ground (arith, first), grown qs others)

sync_securities-IsAtomic_example :
    IsAtomic securities
      (λ w s. is_in s w ≡ true)
      (securities.get_symbols [])
      (sync_securities securities [])
sync_securities-IsAtomic_example =
    sync_securities-IsAtomic securities (λ w s. is_in s w ≡ true)
      (λ rs authoritative w done. symbols_front rs w) []
