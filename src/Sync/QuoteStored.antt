-- ===== src/Sync/QuoteStored.antt =====
-- Proofs on what `QuoteSyncService.sync` reports as persisted.
use apanel.Base.{
  Equality, beq, nat_equality, bool_equality, pair_equality, option_equality, beq→eq, eq→beq, Text,
  text_equality, ℕ, ◌≡◌, refl, sym, ap, ◌∙◌, ◌⊎◌, inl, inr, true, false, false≢true, Option, none,
  some, List, [], ◌∷◌, map, arith, Bool-cases, Option-cases, All, Ensures, Ensures-ok, Ensures-map,
  Result, err, ok,
}
use apanel.Base.Dict.{Dict, get, put, has, get-put}
use apanel.Base.Keys.{Distinct, All-values}
use apanel.Base.Slices.{filter, is_in}
use apanel.Hub.Facts.{values_of}
use apanel.Sync.Failures.{is_success, Call, resume, Raised, SyncError, SyncItemResult}
use apanel.Sync.Persisting.{persist_with_isolation}
use apanel.Sync.Groups.{group}
use apanel.Sync.Stored.{some_eq, IsTally, persist-IsTally, persist-stored}
use apanel.Sync.Symbols.{Results, canonicalize, outcome_item, record_outcomes, Raw}
use apanel.Sync.Quotes.{Pending, Quote, QuoteSyncService}
use apanel.Sync.QuoteSync.{persist_pending, fetch_all, sync_quotes}
use apanel.Sync.Reported.{IsOwn, IsOwn-put, IsBacked}
use apanel.Sync.Gathered.{canonicalize-IsBacked, fetch_all-IsBacked}

-- A symbol that occurs has a record, of which holds what holds of all its records.
record_of :
    {R : Type 0} (key : R → Text) (P : R → Type 0) (rs : List R) (s : Text)
    → is_in s (map key rs) ≡ true
    → All P (group key s rs)
    → (r : R) × (key r ≡ s) × P r
unfolding group filter
record_of key P [] s present h = absurd (false≢true present)
record_of key P (r ∷ rs) s present h = elim (Bool-cases (beq (key r) s)) [
  | inl own ↦ (r, beq→eq (key r) s own, (rw own at h).0)
  | inr other ↦ record_of key P rs s (rw other at present) (rw other at h)
]

found_in :
    {R : Type 0} (key : R → Text) (pending : Dict Text R) (s : Text) (q : R)
    → get pending s ≡ some q
    → key q ≡ s
    → is_in s (map key (values_of pending)) ≡ true
unfolding get
found_in key [] s q found mine = cc found
found_in key ((t, r) ∷ pending) s q found mine = elim (Bool-cases (beq t s)) [
  | inl same ↦
      let own : beq (key r) s ≡ true =
        eq→beq (key r) s (ap key (some_eq (rw same at found)) ∙ mine) in
      rw own refl
  | inr other ↦
      let rest : get pending s ≡ some q = rw other at found in
      ground (arith, found_in key pending s q rest mine)
]

pending_in :
    {R : Type 0} (key : R → Text) (pending : Dict Text R) (s : Text)
    → ((q : R) → get pending s ≡ some q → key q ≡ s)
    → has pending s ≡ true
    → is_in s (map key (values_of pending)) ≡ true
unfolding has
pending_in key pending s named held = elim (Option-cases (get pending s)) [
  | inl unknown ↦ absurd (false≢true (rw (unknown, has) at held))
  | inr (q, found) ↦ found_in key pending s q found (named q found)
]

-- After the outcomes, an item that is a success was one, or is by an outcome without an error.
unfoldable Explained : Results → Dict Text (Option SyncError) → Results → Type 0
unfolding get IsOwn
Explained before outcomes results =
    IsOwn results
    × ((s : Text) (i : SyncItemResult)
        → get results s ≡ some i
        → is_success i ≡ true
        → (get outcomes s ≡ some none)
          ⊎ ((has outcomes s ≡ false)
              × (j : SyncItemResult) × (get before s ≡ some j)
              × (is_success j ≡ true)))

outcome_item_success :
    (n : SyncItemResult → ℕ) (s : Text) (error : Option SyncError) (i : SyncItemResult)
    → is_success (outcome_item n s error i) ≡ true
    → error ≡ none
outcome_item_success n s none i fine = refl
outcome_item_success n s (some e) i fine = absurd (false≢true fine)

outcome_item-symbol :
    (n : SyncItemResult → ℕ) (s : Text) (error : Option SyncError) (i : SyncItemResult)
    → (outcome_item n s error i).symbol ≡ s
outcome_item-symbol n s none i = refl
outcome_item-symbol n s (some e) i = refl

-- One outcome more
Explained-cons :
    (n : SyncItemResult → ℕ) (symbol : Text) (error : Option SyncError)
    (outcomes : Dict Text (Option SyncError)) (before after : Results) (previous : SyncItemResult)
    → has outcomes symbol ≡ false
    → Explained (put before symbol (outcome_item n symbol error previous)) outcomes after
    → Explained before ((symbol, error) ∷ outcomes) after
unfolding Explained get has
Explained-cons n symbol error outcomes before after previous alone (own, h) = (
  own,
  λ s i found fine.
      let item = outcome_item n symbol error previous in
      elim (Bool-cases (beq symbol s)) [
        | inl same ↦ elim (h s i found fine) [
          | inl held ↦ absurd (false≢true (sym alone ∙ rw (beq→eq symbol s same, has, held) refl))
          | inr (_, j, stands, good) ↦
              let own_item : ◌≡◌ {A = Option SyncItemResult} (some item) (some j) =
                rw (get-put before symbol item s, same) at stands in
              let fell =
                outcome_item_success n symbol error previous
                  (ap is_success (some_eq own_item) ∙ good) in
              rw (same, fell) (inl refl)
        ]
        | inr other ↦ elim (h s i found fine) [
          | inl held ↦ rw other (inl held)
          | inr (missing, j, stands, good) ↦
              let absent : has ((symbol, error) ∷ outcomes) s ≡ false =
                ground (arith, other, missing) in
              rw other (inr (absent, j, (rw (get-put before symbol item s, other) at stands), good))
        ]
      ],
)

record_outcomes-Explained :
    (n : SyncItemResult → ℕ) (outcomes : Dict Text (Option SyncError)) (results : Results)
    → Distinct outcomes
    → IsOwn results
    → Ensures (Explained results outcomes) (record_outcomes n outcomes results)
unfolding record_outcomes Explained get has Distinct
record_outcomes-Explained n [] results d own = (own, λ s i found fine. inr (refl, i, found, fine))
record_outcomes-Explained n ((symbol, error) ∷ outcomes) results (alone, d) own =
    elim (Option-cases (get results symbol)) [
      | inl unknown ↦ rw (unknown, record_outcomes) tt
      | inr (previous, known) ↦
          let item = outcome_item n symbol error previous in
          rw (known, record_outcomes)
            (Ensures-map (Explained (put results symbol item) outcomes)
              (Explained results ((symbol, error) ∷ outcomes))
              (record_outcomes n outcomes (put results symbol item))
              (record_outcomes-Explained n outcomes (put results symbol item) d
                (IsOwn-put results symbol item (outcome_item-symbol n symbol error previous) own))
              (λ after. Explained-cons n symbol error outcomes results after previous alone))
    ]

-- What follows a call meets `Q` in the world that it leaves.
resume-Ensures_world :
    {W A C : Type 0} (Q : W → C → Type 0) (r : Result Raised A × W) (next : A → Call W C)
    → ((a : A) → r.0 ≡ ok a → Ensures (Q (next a r.1).1) (next a r.1).0)
    → Ensures (Q (resume r next).1) (resume r next).0
resume-Ensures_world Q (err x, w) next h = tt
resume-Ensures_world Q (ok a, w) next h = h a refl

-- The item is no success, or a quote of its symbol is stored.
abbrev pub Honest : {W D : Type 0} → (W → Quote D → Type 0) → W → SyncItemResult → Type 0
Honest {D = D} stored w i = is_success i ≡ true → (q : Quote D) × (q.symbol ≡ i.symbol) × stored w q

module _ {W D : Type 0} ⦃same : Equality (Quote D)⦄ (stored : W → Quote D → Type 0)
    (service : QuoteSyncService W D)
    (commits : (rs : List (Quote D)) (w : W)
      → (service.upsert_many rs w).0 ≡ ok tt
      → All (stored (service.upsert_many rs w).1) rs)
    (keeps : (rs : List (Quote D)) (w : W) (r : Quote D)
      → is_in r.symbol (map (λ q. q.symbol) rs) ≡ false
      → stored w r
      → stored (service.upsert_many rs w).1 r) where
  outcomes-Honest :
      (pending : Dict Text (Quote D)) (results : Results) (w : W)
      (out : Dict Text (Option SyncError))
      → IsBacked (pending, results)
      → (persist_with_isolation service.upsert_many (λ q. q.symbol) (values_of pending) w).0
        ≡ ok out
      → Ensures
          (λ after.
            All
              (Honest stored
                (persist_with_isolation service.upsert_many
                  (λ q. q.symbol)
                  (values_of pending)
                  w).1)
              (values_of after))
          (record_outcomes (λ _. 1) out results)
  unfolding IsBacked IsOwn Explained has
  outcomes-Honest pending results w out (own, backed, named) returned =
      let records = values_of pending in
      let key = λ (q : Quote D). q.symbol in
      let call = persist_with_isolation service.upsert_many key records w in
      let tally =
        Ensures-ok (IsTally service.upsert_many key records) call.0
          (persist-IsTally service.upsert_many key records w) returned in
      Ensures-map (Explained results out) (λ after. All (Honest stored call.1) (values_of after))
        (record_outcomes (λ _. 1) out results)
        (record_outcomes-Explained (λ _. 1) out results tally.0 own)
        λ after explained. All-values (Honest stored call.1) after explained.0.0 λ s i found fine.
          let mine = explained.0.1 s i found in
          elim (explained.1 s i found fine) [
            | inl clean ↦
                let present : is_in s (map key records) ≡ true =
                  sym (tally.1 s) ∙ rw (clean, has) refl in
                let (q, at_s, there) = record_of key (stored call.1) records s present (
                  persist-stored service.upsert_many key stored commits keeps records w s returned
                    clean) in
                (q, at_s ∙ sym mine, there)
            | inr (absent, j, stands, good) ↦
                let present = pending_in key pending s (named s) (backed s j stands good) in
                absurd (false≢true (sym absent ∙ tally.1 s ∙ present))
          ]

  pending-Honest :
      (p : Pending D) (w : W)
      → IsBacked p
      → Ensures
          (λ out. All (Honest stored (persist_pending service.upsert_many p w).1) (values_of out))
          (persist_pending service.upsert_many p w).0
  unfolding persist_pending IsBacked IsOwn has get
  pending-Honest ([], results) w (own, backed, named) =
      All-values (Honest stored w) results own.0
        λ s i found fine. absurd (false≢true (backed s i found fine))
  pending-Honest (p ∷ pending, results) w backed =
      let call =
        persist_with_isolation service.upsert_many (λ q. q.symbol) (values_of (p ∷ pending)) w in
      resume-Ensures_world (λ v out. All (Honest stored v) (values_of out)) call _
        λ out returned. outcomes-Honest (p ∷ pending) results w out backed returned

  -- If the repository stores what it returns on, and keeps what it holds of the symbols that a call
  -- does not name: when the synchronization returns, every item that it reports as a success has a
  -- quote of its symbol stored, whatever the provider answered or raised.
  pub sync_quotes-Honest :
      (normalize : Raw → Result Raised Text) (raws : List Raw) (w : W)
      → Ensures
          (λ summary. All (Honest stored (sync_quotes service normalize raws w).1) summary.items)
          (sync_quotes service normalize raws w).0
  unfolding sync_quotes IsBacked IsOwn get Distinct
  sync_quotes-Honest normalize raws w =
      let start = canonicalize normalize raws ([], []) in
      let backed =
        canonicalize-IsBacked D normalize raws [] []
          ((tt, λ s i found. cc found), (λ s i found. cc found), (λ s q found. cc found)) in
      let fetched = fetch_all service start w in
      resume-Ensures_world (λ v summary. All (Honest stored v) summary.items) fetched _
        λ p returned.
          let call = persist_pending service.upsert_many p fetched.1 in
          let held =
            Ensures-ok IsBacked fetched.0 (fetch_all-IsBacked service start w backed) returned in
          resume-Ensures_world (λ v summary. All (Honest stored v) summary.items) call _
            λ results done.
              Ensures-ok (λ out. All (Honest stored call.1) (values_of out)) call.0
                (pending-Honest p fetched.1 held) done
