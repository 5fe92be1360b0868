-- ===== src/Sync/Stored.antt =====
-- Proofs on what `_persist_with_isolation` reports and what it has stored.
use mathlib.Core.Path.{subst}
use apanel.Base.{
  beq, nat_equality, bool_equality, pair_equality, option_equality, beq→eq, Text, text_equality,
  ◌≡◌, refl, ap, ◌∙◌, inl, inr, false, Option, none, some, List, [], ◌∷◌, map, arith, Bool-cases,
  if-split, All, Ensures, Result, err, ok,
}
use apanel.Base.Dict.{Dict, get, has}
use apanel.Base.Keys.{Distinct}
use apanel.Base.Slices.{is_in}
use apanel.Sync.Failures.{is_systemic_persistence_error, Call, Raised, SyncError}
use apanel.Sync.Persisting.{grouped, no_errors, outcome, retry, persisted, persist_with_isolation}
use apanel.Sync.Groups.{
  group, IsGrouping, OwnedBy, grouped-IsGrouping, All-group, All-grouped, has-grouped,
}

pub some_eq : {A : Type 0} {x y : A} → some x ≡ some y → x ≡ y
some_eq h = cc h

pub ok_eq : {A : Type 0} {x y : A} → ◌≡◌ {A = Result Raised A} (ok x) (ok y) → x ≡ y
ok_eq h = cc h

outcome-none : (r : Result Raised (Unit {0})) → outcome r ≡ none → r ≡ ok tt
outcome-none (ok tt) h = refl
outcome-none (err x) h = cc h

module _ {W R : Type 0} (upsert_many : List R → Call W (Unit {0})) (key : R → Text) where
  -- One outcome for each symbol of the records.
  abbrev pub IsTally : List R → Dict Text (Option SyncError) → Type 0
  IsTally records out = Distinct out × ((k : Text) → has out k ≡ is_in k (map key records))

  has-retry :
      (groups : Dict Text (List R)) (w : W) (k : Text)
      → has (retry upsert_many groups w).0 k ≡ has groups k
  unfolding retry has get
  has-retry [] w k = refl
  has-retry ((j, rs) ∷ groups) w k = ground (arith, has-retry groups (upsert_many rs w).1 k)

  Distinct-retry :
      (groups : Dict Text (List R)) (w : W)
      → Distinct groups
      → Distinct (retry upsert_many groups w).0
  unfolding retry Distinct
  Distinct-retry [] w h = tt
  Distinct-retry ((j, rs) ∷ groups) w (alone, others) =
      let v = (upsert_many rs w).1 in (has-retry groups v j ∙ alone, Distinct-retry groups v others)

  has-no_errors : (groups : Dict Text (List R)) (k : Text) → has (no_errors groups) k ≡ has groups k
  unfolding no_errors has get
  has-no_errors [] k = refl
  has-no_errors ((j, rs) ∷ groups) k = ground (arith, has-no_errors groups k)

  Distinct-no_errors : (groups : Dict Text (List R)) → Distinct groups → Distinct (no_errors groups)
  unfolding no_errors Distinct
  Distinct-no_errors [] h = tt
  Distinct-no_errors ((j, rs) ∷ groups) (alone, others) =
      (has-no_errors groups j ∙ alone, Distinct-no_errors groups others)

  persisted-IsTally :
      (records : List R) (reply : Result Raised (Unit {0}) × W)
      → Ensures (IsTally records) (persisted upsert_many (grouped key records []) reply).0
  unfolding IsGrouping Distinct
  persisted-IsTally records (ok u, w) =
      let groups = grouped key records [] in
      (
        Distinct-no_errors groups (grouped-IsGrouping key records [] (tt, tt)).0,
        λ k. has-no_errors groups k ∙ has-grouped key records k,
      )
  persisted-IsTally records (err x, w) =
      let groups = grouped key records [] in
      if-split {A = Result Raised (Dict Text (Option SyncError)) × W}
        (λ r. Ensures (IsTally records) r.0) (is_systemic_persistence_error x) _ _ (λ _. tt)
        (λ _. (
          Distinct-retry groups w (grouped-IsGrouping key records [] (tt, tt)).0,
          λ k. has-retry groups w k ∙ has-grouped key records k,
        ))

  pub persist-IsTally :
      (records : List R) (w : W)
      → Ensures (IsTally records) (persist_with_isolation upsert_many key records w).0
  unfolding persist_with_isolation
  persist-IsTally records w = persisted-IsTally records (upsert_many records w)

module _ {W R : Type 0} (upsert_many : List R → Call W (Unit {0})) (key : R → Text)
    (stored : W → R → Type 0)
    (commits : (rs : List R) (w : W)
      → (upsert_many rs w).0 ≡ ok tt
      → All (stored (upsert_many rs w).1) rs)
    (keeps : (rs : List R) (w : W) (r : R)
      → is_in (key r) (map key rs) ≡ false
      → stored w r
      → stored (upsert_many rs w).1 r) where
  apart_keys :
      (k : Text) (rs : List R) (r : R)
      → OwnedBy key k rs
      → beq k (key r) ≡ false
      → is_in (key r) (map key rs) ≡ false
  apart_keys k [] r h other = refl
  apart_keys k (x ∷ rs) r (first, others) other =
      let owner = beq→eq (key x) k first in rw (apart_keys k rs r others other, owner, other) refl

  retry-keeps :
      (groups : Dict Text (List R)) (w : W) (r : R)
      → All (λ g. OwnedBy key g.0 g.1) groups
      → has groups (key r) ≡ false
      → stored w r
      → stored (retry upsert_many groups w).1 r
  unfolding retry has get
  retry-keeps [] w r h other s = s
  retry-keeps ((k, rs) ∷ groups) w r (first, others) other s =
      let apart : beq k (key r) ≡ false = ground (arith, other) in
      let rest : has groups (key r) ≡ false = ground (arith, other) in
      retry-keeps groups (upsert_many rs w).1 r others rest
        (keeps rs w r (apart_keys k rs r first apart) s)

  retry-keeps-All :
      (groups : Dict Text (List R)) (w : W) (k : Text) (rs : List R)
      → All (λ g. OwnedBy key g.0 g.1) groups
      → has groups k ≡ false
      → OwnedBy key k rs
      → All (stored w) rs
      → All (stored (retry upsert_many groups w).1) rs
  retry-keeps-All groups w k [] h other own s = tt
  retry-keeps-All groups w k (r ∷ rs) h other (mine, own) (s, ss) = (
    retry-keeps groups w r h (ap (has groups) (beq→eq (key r) k mine) ∙ other) s,
    retry-keeps-All groups w k rs h other own ss,
  )

  retry-stored :
      (groups : Dict Text (List R)) (w : W) (k : Text) (rs : List R)
      → IsGrouping key groups
      → get groups k ≡ some rs
      → get (retry upsert_many groups w).0 k ≡ some none
      → All (stored (retry upsert_many groups w).1) rs
  unfolding retry get IsGrouping Distinct
  retry-stored [] w k rs h found fine = cc found
  retry-stored ((j, g) ∷ groups) w k rs ((alone, distinct), (first, others)) found fine =
      elim (Bool-cases (beq j k)) [
        | inl same ↦
            let fell : outcome (upsert_many g w).0 ≡ none = some_eq (rw same at fine) in
            let now = commits g w (outcome-none (upsert_many g w).0 fell) in
            let v = (upsert_many g w).1 in
            subst (All (stored (retry upsert_many groups v).1)) (some_eq (rw same at found))
              (retry-keeps-All groups v j g others alone first now)
        | inr other ↦
            retry-stored groups (upsert_many g w).1 k rs (distinct, others) (rw other at found)
              (rw other at fine)
      ]

  persisted-stored :
      (records : List R) (k : Text) (reply : Result Raised (Unit {0}) × W)
      {out : Dict Text (Option SyncError)}
      → (reply.0 ≡ ok tt → All (stored reply.1) records)
      → (persisted upsert_many (grouped key records []) reply).0 ≡ ok out
      → get out k ≡ some none
      → All (stored (persisted upsert_many (grouped key records []) reply).1) (group key k records)
  unfolding IsGrouping Distinct
  persisted-stored records k (ok u, w) committed returned fine =
      All-group key (stored w) records k (committed refl)
  persisted-stored records k (err x, w) committed returned fine =
      elim (Bool-cases (is_systemic_persistence_error x)) [
        | inl systemic ↦ cc (rw systemic at returned)
        | inr isolated ↦
            let groups = grouped key records [] in
            let outcomes = ok_eq (rw isolated at returned) in
            rw isolated (
              All-grouped key (stored (retry upsert_many groups w).1) records k (λ g found.
                retry-stored groups w k g (grouped-IsGrouping key records [] (tt, tt)) found
                  (ap (λ o. get o k) outcomes ∙ fine)))
      ]

  -- If the repository stores what it returns on, and keeps what it holds of the symbols that a call
  -- does not name, then a symbol that is reported without an error has all its records stored after
  -- the last call, whether in one batch or by itself.
  pub persist-stored :
      (records : List R) (w : W) (k : Text) {out : Dict Text (Option SyncError)}
      → (persist_with_isolation upsert_many key records w).0 ≡ ok out
      → get out k ≡ some none
      → All (stored (persist_with_isolation upsert_many key records w).1) (group key k records)
  unfolding persist_with_isolation
  persist-stored records w k =
      persisted-stored records k (upsert_many records w) (commits records w)
