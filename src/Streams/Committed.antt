-- ===== src/Streams/Committed.antt =====
-- Proofs on the generations after any transactions.
use apanel.Base.{
  Equality, nat_equality, bool_equality, pair_equality, option_equality, ◌=?◌, Text, text_equality,
  ℕ, ◌≤◌, ◌≡◌, refl, inl, inr, Bool, not, ◌&&◌, ◌||◌, Option, some, List, [], ◌∷◌, map, arith, ltb,
  leb, Option-cases, if-split, Ensures, Ensures-bind, Ensures-ok, Ensures-elim, Ensures-if,
}
use apanel.Base.Dict.{Dict}
use apanel.Streams.Records.{Series}
use apanel.Streams.Bars.{span, replace_series}
use apanel.Streams.Fences.{
  Market, check_fences, complete_sync, Batch, upsert_fenced, reconcile_revision,
}
use apanel.Streams.Publication.{
  mark_demand_changed, is_negative, is_pos, through_of, is_before, bounds, publish, extend, refresh,
  materialize, Indicators, AnalysisResult,
}
use apanel.Streams.Fenced.{
  generation, Commit, reserves, upserts, reconciles, completes, demands, materializes, Commits,
  start, later,
}
use apanel.Streams.Rising.{
  invalidate_changed-generation, Rises, changed_at-Rises, Rises-trans, reserve_sync-Rises,
  complete_all-Rises, write_all-Rises,
}

module _ {B O : Type 0} ⦃same : Equality B⦄ (indicators : Indicators B O) where
  upsert_fenced-Rises :
      (generations : Option (Dict Text ℕ)) (revisions : Dict Text Text) (batch : Batch B)
      (m : Market B O)
      → Ensures (Rises m) (upsert_fenced generations revisions batch m)
  unfolding upsert_fenced
  upsert_fenced-Rises generations revisions batch m =
      Ensures-bind (Rises m) (check_fences generations (map (λ p. p.0) batch) m) _
        (λ _ _. write_all-Rises revisions batch m)

  reconcile_revision-Rises :
      (generations : Option (Dict Text ℕ)) (revision : Option Text) (s : Text)
      (records : List (ℕ × B)) (from end : ℕ) (m : Market B O)
      → Ensures (Rises m) (reconcile_revision generations revision s records from end m)
  unfolding reconcile_revision replace_series
  reconcile_revision-Rises generations revision s records from end m =
      Ensures-elim (Rises m) (span records) _ _ tt λ (first, last).
        Ensures-if (Rises m) (ltb end from || ltb from first || ltb last end) _ _ tt (
          Ensures-bind (Rises m) (check_fences generations (s ∷ []) m) _ λ _ _.
            changed_at-Rises m s (replace_series revision records from end last (m s))
              (omega (arith, invalidate_changed-generation _ (m s).stream)))

  complete_sync-Rises :
      (generations : Dict Text ℕ) (depth : ℕ) (symbols : List Text) (m : Market B O)
      → Ensures (Rises m) (complete_sync generations depth symbols m)
  unfolding complete_sync
  complete_sync-Rises generations depth symbols m =
      Ensures-bind (Rises m) (check_fences (some generations) symbols m) _
        (λ _ _. complete_all-Rises depth symbols m)

  publish-generation :
      (key : Text) (rebuilt : Bool) (from : Option ℕ) (latest : ℕ) (x : Series B O)
      → (publish indicators key rebuilt from latest x).1.stream.sync_generation
        ≡ x.stream.sync_generation
  unfolding publish
  publish-generation key rebuilt from latest x = refl

  refresh-generation :
      (force_history : Bool) (key : Text) (first latest : ℕ) (x : Series B O)
      → (refresh indicators force_history key first latest x).1.stream.sync_generation
        ≡ x.stream.sync_generation
  unfolding refresh publish extend
  refresh-generation force_history key first latest x =
      if-split {A = AnalysisResult × Series B O}
        (λ r. r.1.stream.sync_generation ≡ x.stream.sync_generation)
        (force_history
          || not (x.stream.demand_key =? some key)
          || is_negative x.stream.published_revision)
        _ _ (λ _. refl)
        (λ _. elim (Option-cases x.stream.dirty_from) [
          | inl clean ↦
              rw (clean, refresh)
                (if-split {A = AnalysisResult × Series B O}
                  (λ r. r.1.stream.sync_generation ≡ x.stream.sync_generation)
                  (leb latest (through_of first x.stream)
                    && is_pos x.stream.published_revision x.stream.source_revision)
                  _ _ (λ _. refl) (λ _. refl))
          | inr (from, dirty) ↦ rw (dirty, refresh) refl
        ])

  materialize-Rises :
      (force_history : Bool) (key : Text) (last_day : Option ℕ) (x : Series B O)
      → Ensures
          (λ p. x.stream.sync_generation ≤ p.1.stream.sync_generation)
          (materialize indicators force_history key last_day x)
  unfolding materialize
  materialize-Rises force_history key last_day x =
      Ensures-elim (λ p. x.stream.sync_generation ≤ p.1.stream.sync_generation)
        (bounds last_day x.bars) _ _ tt
        λ (first, latest).
          Ensures-if (λ p. x.stream.sync_generation ≤ p.1.stream.sync_generation)
            (is_before latest x.stream.state_through) _ _ tt
            (omega (arith, refresh-generation force_history key first latest x))

  commit-Rises : (m n : Market B O) → Commit indicators m n → Rises m n
  unfolding mark_demand_changed
  commit-Rises m n (reserves symbols) = reserve_sync-Rises symbols m
  commit-Rises m n (upserts generations revisions batch k done) =
      Ensures-ok (Rises m) (upsert_fenced generations revisions batch m)
        (upsert_fenced-Rises generations revisions batch m) done
  commit-Rises m n (reconciles generations revision s records from end k done) =
      Ensures-ok (Rises m) (reconcile_revision generations revision s records from end m)
        (reconcile_revision-Rises generations revision s records from end m) done
  commit-Rises m n (completes generations depth symbols k done) =
      Ensures-ok (Rises m) (complete_sync generations depth symbols m)
        (complete_sync-Rises generations depth symbols m) done
  commit-Rises m n (demands s) = changed_at-Rises m s (mark_demand_changed (m s)) (omega arith)
  commit-Rises m n (materializes s force_history key last_day r x done) = changed_at-Rises m s x (
      Ensures-ok (λ p. generation m s ≤ p.1.stream.sync_generation)
        (materialize indicators force_history key last_day (m s))
        (materialize-Rises force_history key last_day (m s)) done)

  pub commits-Rises : (m n : Market B O) → Commits indicators m n → Rises m n
  commits-Rises m n start = λ s. ground arith
  commits-Rises m n (later {n = k} before last) =
      Rises-trans m k n (commits-Rises m k before) (commit-Rises k n last)
