-- ===== src/Sync/Verdicts.antt =====
-- Proofs on the failures that `_persist_with_isolation` reports.
use apanel.Base.{
  nat_equality, bool_equality, pair_equality, option_equality, Text, text_equality, ◌≡◌, refl, ◌∙◌,
  inl, inr, Bool, true, false, Option, none, some, List, [], ◌∷◌, map, arith, if◌then◌else◌,
  Bool-cases, any, Result, err, ok,
}
use apanel.Base.Dict.{Dict, get, has}
use apanel.Base.Slices.{filter, is_in}
use apanel.Sync.Failures.{persistence_error, is_systemic_persistence_error, Call, Raised, SyncError}
use apanel.Sync.Persisting.{grouped, no_errors, outcome, retry, persisted, persist_with_isolation}
use apanel.Sync.Groups.{group, get-grouped_start, has-grouped}

-- What is reported of the records of one symbol.
abbrev pub verdict : {R : Type 0} → (R → Bool) → (List R → Raised) → List R → Option SyncError
verdict bad rejection rs = if any bad rs then some (persistence_error (rejection rs)) else none

module _ {W R : Type 0} (upsert_many : List R → Call W (Unit {0})) (key : R → Text) (bad : R → Bool)
    (rejection : List R → Raised)
    (data_error : (rs : List R) → is_systemic_persistence_error (rejection rs) ≡ false)
    (rejects : (rs : List R) (w : W)
      → any bad rs ≡ true
      → (upsert_many rs w).0 ≡ err (rejection rs))
    (accepts : (rs : List R) (w : W) → any bad rs ≡ false → (upsert_many rs w).0 ≡ ok tt) where
  outcome-verdict : (rs : List R) (w : W) → outcome (upsert_many rs w).0 ≡ verdict bad rejection rs
  outcome-verdict rs w = elim (Bool-cases (any bad rs)) [
    | inl found ↦ rw (rejects rs w found, found) refl
    | inr fine ↦ rw (accepts rs w fine, fine) refl
  ]

  verdicts : Option (List R) → Option (Option SyncError)
  verdicts none = none
  verdicts (some rs) = some (verdict bad rejection rs)

  get-retry :
      (groups : Dict Text (List R)) (w : W) (k : Text)
      → get (retry upsert_many groups w).0 k ≡ verdicts (get groups k)
  unfolding retry get verdicts
  get-retry [] w k = refl
  get-retry ((j, rs) ∷ groups) w k =
      ground (arith, get-retry groups (upsert_many rs w).1 k, outcome-verdict rs w)

  get-no_errors :
      (groups : Dict Text (List R)) (k : Text)
      → get (no_errors groups) k ≡ (if has groups k then some none else none)
  unfolding get no_errors has
  get-no_errors [] k = refl
  get-no_errors ((j, rs) ∷ groups) k = ground (arith, get-no_errors groups k)

  persisted_err :
      (groups : Dict Text (List R)) (reply : Result Raised (Unit {0}) × W) {x : Raised}
      → reply.0 ≡ err x
      → is_systemic_persistence_error x ≡ false
      → (persisted upsert_many groups reply).0 ≡ ok (retry upsert_many groups reply.1).0
  persisted_err groups (ok u, w) h i = cc h
  persisted_err groups (err x, w) h i = ground (arith, h, i)

  persisted_ok :
      (groups : Dict Text (List R)) (reply : Result Raised (Unit {0}) × W)
      → reply.0 ≡ ok tt
      → (persisted upsert_many groups reply).0 ≡ ok (no_errors groups)
  persisted_ok groups (ok u, w) h = refl
  persisted_ok groups (err x, w) h = cc h

  verdict_fine :
      (rs : List R) (k : Text) → any bad rs ≡ false → verdict bad rejection (group key k rs) ≡ none
  unfolding group filter
  verdict_fine [] k fine = refl
  verdict_fine (r ∷ rs) k fine = ground (arith, fine, verdict_fine rs k)

  -- If the repository refuses, as bad data, exactly the calls with a bad record, then the call
  -- returns one outcome for each symbol of the records: an error exactly if the symbol has a bad
  -- record, and then the one that its records raise by themselves.
  pub persist_isolated :
      (records : List R) (w : W)
      → (out : Dict Text (Option SyncError)) × ((persist_with_isolation upsert_many key records w).0
          ≡ ok out)
        × ((k : Text)
            → get out k ≡ (
                if is_in k (map key records)
                then some (verdict bad rejection (group key k records))
                else none))
  unfolding persist_with_isolation verdicts
  persist_isolated records w =
      let groups = grouped key records [] in
      let reply = upsert_many records w in
      elim (Bool-cases (any bad records)) [
        | inl found ↦ (
          (retry upsert_many groups reply.1).0,
          persisted_err groups reply (rejects records w found) (data_error records),
          λ k.
              get-retry groups reply.1 k
              ∙ rw (get-grouped_start key records k)
                  (push (is_in k (map key records)) (group key k records)),
        )
        | inr fine ↦ (
          no_errors groups,
          persisted_ok groups reply (accepts records w fine),
          λ k.
              get-no_errors groups k
              ∙ rw (has-grouped key records k, verdict_fine records k fine) refl,
        )
      ]
    where
      push :
          (b : Bool) (rs : List R)
          → verdicts (if b then some rs else none)
            ≡ (if b then some (verdict bad rejection rs) else none)
      push true rs = refl
      push false rs = refl
