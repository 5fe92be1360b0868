-- ===== src/Streams/Bars.antt =====
-- The writes of the hub's `SqlAlchemyDailyBarRepository` on the bars of one series.
use apanel.Base.{
  Equality, nat_equality, bool_equality, pair_equality, option_equality, ◌=?◌, Text, text_equality,
  ℕ, min, Bool, false, not, ◌&&◌, Option, none, some, List, [], ◌∷◌, map, leb, if◌then◌else◌,
}
use apanel.Base.Dict.{Dict, get, put, drop_keys}
use apanel.Base.Slices.{is_in}
use apanel.Streams.Records.{Changed, combine_changed, invalidate_changed, Series}

-- The first of some changed days and those of a list
unfoldable pub combine_all : Changed → List ℕ → Changed
unfolding combine_changed
combine_all c [] = c
combine_all c (day ∷ days) = combine_all (combine_changed c day) days

-- The end of `_revision_in_session`: was there another revision before?
abbrev pub is_revised : Option Text → Text → Bool
is_revised none hash = false
is_revised (some previous) hash = not (previous =? hash)

-- `combine_changed(changed, key, first)`, and `latest[key] = last`
unfoldable pub restated_span : Changed → Changed → Changed
restated_span c none = c
restated_span none (some (first, last)) = some (first, last)
restated_span (some (old, _)) (some (first, last)) = some (min old first, last)

module _ {B : Type 0} ⦃same : Equality B⦄ where
  -- `_upsert_in_session`: a row that is inserted, or that differs, is returned as changed.
  unfoldable pub upsert_bars : List (ℕ × B) → Dict ℕ B → Changed → Dict ℕ B × Changed
  unfolding get put combine_changed
  upsert_bars [] bars c = (bars, c)
  upsert_bars ((day, bar) ∷ rest) bars c =
      let unchanged = upsert_bars rest bars c in
      let written = upsert_bars rest (put bars day bar) (combine_changed c day) in
      if get bars day =? some bar then unchanged else written

module _ {B : Type 0} where
  -- The smallest and the largest day
  unfoldable pub span : Dict ℕ B → Changed
  unfolding combine_changed
  span [] = none
  span ((day, bar) ∷ rest) = combine_changed (span rest) day

  -- The days in the range of the replacement that it does not list
  abbrev pub is_deleted : List (ℕ × B) → ℕ → ℕ → ℕ → Bool
  is_deleted records first last day =
      leb first day && leb day last && not (is_in day (map (λ p. p.0) records))

  unfoldable pub deleted_days : (ℕ → Bool) → Dict ℕ B → List ℕ
  deleted_days p [] = []
  deleted_days p ((day, bar) ∷ rest) =
      let others = deleted_days p rest in if p day then day ∷ others else others

unfoldable pub revised_changes :
    {B : Type 0} → Option Text → Option Text → Dict ℕ B → Changed → Changed
unfolding span restated_span
revised_changes previous none bars c = c
revised_changes previous (some hash) bars c =
    if is_revised previous hash then restated_span c (span bars) else c

-- `latest[key] = last`
abbrev pub with_last : ℕ → Changed → Changed
with_last last none = none
with_last last (some (first, _)) = some (first, last)

module _ {B O : Type 0} ⦃same : Equality B⦄ where
  -- What `upsert_fenced` does to a series, given the revision of its symbol where there is one
  unfoldable pub write_series : Option Text → List (ℕ × B) → Series B O → Series B O
  unfolding upsert_bars revised_changes invalidate_changed
  write_series revision records x =
      let (bars, c) = upsert_bars records x.bars none in
      record x {
        bars = bars;
        revision_hash = elim revision [ none ↦ x.revision_hash | some hash ↦ some hash ];
        stream = invalidate_changed (revised_changes x.revision_hash revision bars c) x.stream;
      }

  -- What `reconcile_revision` does to its series; `last` is the last day of the records.
  unfoldable pub replace_series : Option Text → List (ℕ × B) → ℕ → ℕ → ℕ → Series B O → Series B O
  unfolding upsert_bars drop_keys deleted_days combine_all combine_changed invalidate_changed
  replace_series revision records coverage_start coverage_end last x =
      let (bars, c) = upsert_bars records x.bars none in
      let gone = is_deleted records coverage_start coverage_end in
      let first_changed = combine_changed (combine_all c (deleted_days gone bars)) coverage_start in
      record x {
        bars = drop_keys gone bars;
        revision_hash = elim revision [ none ↦ x.revision_hash | some hash ↦ some hash ];
        stream = invalidate_changed (with_last last first_changed) x.stream;
      }
