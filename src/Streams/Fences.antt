-- ===== src/Streams/Fences.antt =====
-- `reserve_sync`, `_check_fences`, `upsert_fenced`, `reconcile_revision` and `complete_sync` of the hub's
-- market-data-hub/app/repositories/market_data.py, for the series of one adjustment.
use apanel.Base.{
  Equality, nat_equality, bool_equality, pair_equality, option_equality, ◌=?◌, Text, text_equality,
  ℕ, max, ◌+◌, ◌||◌, Option, none, some, List, [], ◌∷◌, map, ltb, if◌then◌else◌, ◌>>◌, Result, err,
  ok,
}
use apanel.Base.Dict.{Dict, get, put}
use apanel.Streams.Records.{Series}
use apanel.Streams.Bars.{span, write_series, replace_series}

pub data RecordError : Type 0 where
  superseded target_mismatch coverage_mismatch : RecordError

-- The series of the known securities, by symbol.
abbrev pub Market : Type 0 → Type 0 → Type 0
Market B O = Text → Series B O

module _ {B O : Type 0} where
  abbrev pub changed_at : Text → Series B O → Market B O → Market B O
  changed_at s x m t = if s =? t then x else m t

  abbrev pub next_generation : Series B O → Series B O
  next_generation x = record x {
    stream = record x.stream { sync_generation = x.stream.sync_generation + 1 };
  }

  -- The loop of `reserve_sync` over the symbols, each listed once
  unfoldable pub reserve_sync : List Text → Market B O → Dict Text ℕ × Market B O
  unfolding put
  reserve_sync [] m = ([], m)
  reserve_sync (s ∷ ss) m =
      let x = next_generation (m s) in
      let (generations, after) = reserve_sync ss (changed_at s x m) in
      ((s, x.stream.sync_generation) ∷ generations, after)

  -- The generations that a synchronization has reserved; `none` is a writer without a fence.
  unfoldable pub check_fences :
      Option (Dict Text ℕ) → List Text → Market B O → Result RecordError (Unit {0})
  unfolding get
  check_fences none symbols m = ok tt
  check_fences (some expected) [] m = ok tt
  check_fences (some expected) (s ∷ ss) m =
      let rest = check_fences (some expected) ss m in
      if get expected s =? some (m s).stream.sync_generation then rest else err superseded

  abbrev pub completed : ℕ → Series B O → Series B O
  completed depth x = record x {
    stream = record x.stream { history_depth = max x.stream.history_depth depth };
  }

  unfoldable pub complete_all : ℕ → List Text → Market B O → Market B O
  complete_all depth [] m = m
  complete_all depth (s ∷ ss) m = complete_all depth ss (changed_at s (completed depth (m s)) m)

  unfoldable pub complete_sync :
      Dict Text ℕ → ℕ → List Text → Market B O → Result RecordError (Market B O)
  unfolding check_fences complete_all
  complete_sync generations depth symbols m =
      check_fences (some generations) symbols m >> ok (complete_all depth symbols m)

-- The records of a call, grouped by symbol
abbrev pub Batch : Type 0 → Type 0
Batch B = Dict Text (List (ℕ × B))

module _ {B O : Type 0} ⦃same : Equality B⦄ where
  unfoldable pub write_all : Dict Text Text → Batch B → Market B O → Market B O
  unfolding write_series get
  write_all revisions [] m = m
  write_all revisions ((s, records) ∷ rest) m =
      write_all revisions rest (changed_at s (write_series (get revisions s) records (m s)) m)

  -- One transaction: an exception leaves the market as it was.
  unfoldable pub upsert_fenced :
      Option (Dict Text ℕ) → Dict Text Text → Batch B → Market B O → Result RecordError (Market B O)
  unfolding check_fences write_all
  upsert_fenced generations revisions batch m =
      check_fences generations (map (λ p. p.0) batch) m >> ok (write_all revisions batch m)

  unfoldable pub reconcile_revision :
      Option (Dict Text ℕ)
      → Option Text
      → Text
      → List (ℕ × B)
      → ℕ
      → ℕ
      → Market B O
      → Result RecordError (Market B O)
  unfolding check_fences replace_series span
  reconcile_revision generations revision s records coverage_start coverage_end m =
      elim (span records) [
        | none ↦ err target_mismatch
        | some (first, last) ↦
            if ltb coverage_end coverage_start || ltb coverage_start first || ltb last coverage_end
            then err coverage_mismatch
            else check_fences generations (s ∷ []) m
              >> ok (
                  changed_at s
                    (replace_series revision records coverage_start coverage_end last (m s)) m)
      ]
