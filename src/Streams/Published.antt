-- ===== src/Streams/Published.antt =====
-- Proofs on `AnalysisService.materialize`: what it publishes is sound.
use mathlib.Core.Path.{subst}
use apanel.Base.{
  nat_equality, bool_equality, pair_equality, option_equality, ◌=?◌, beq→eq, Text, text_equality, ℕ,
  max, ◌≤◌, ◌≡◌, refl, sym, ap, ◌∙◌, inl, inr, Bool, true, false, not, ◌&&◌, ◌||◌, false≢true,
  Option, none, some, arith, ltb, leb, Bool-cases, Option-cases, is_none, is_some, get_or_else,
  if-split, Ensures, Ensures-elim, Result,
}
use apanel.Base.Dict.{get}
use apanel.Streams.Records.{Series}
use apanel.Streams.Publication.{
  until, is_early, rebuild_history, is_negative, is_pos, first_after, through_of, is_before, bounds,
  publish, extend, refresh, materialize, AnalysisError, Indicators, AnalysisResult,
}
use apanel.Streams.Sound.{is_dirty, covers, IsFresh, IsSound}

some_eq : {A : Type 0} {a b : A} → some a ≡ some b → a ≡ b
some_eq h = cc h

module _ {B O : Type 0} (indicators : Indicators B O)
    (causal : (key : Text) (bars : ℕ → Option B) (d : ℕ)
      → indicators.series key bars d ≡ indicators.series key (until d bars) d) where
  abbrev pub IsSoundRow : Series B O → Type 0
  IsSoundRow x = IsSound indicators x.stream (get x.bars) x.rows

  covers_known :
      (old : Option ℕ) (latest d : ℕ)
      → covers old d ≡ true
      → leb d (max (get_or_else old latest) latest) ≡ true
  covers_known none latest d h = absurd (false≢true h)
  covers_known (some l) latest d h = ground (arith, h)

  until-until :
      (d latest : ℕ) (bars : ℕ → Option B) → d ≤ latest → until d (until latest bars) ≡ until d bars
  until-until d latest bars h = λ i e. step e i
    where
      step : (e : ℕ) → until d (until latest bars) e ≡ until d bars e
      step e = elim (Bool-cases (leb e d)) [
        | inl early ↦
            let in_time : leb e latest ≡ true = ground (arith, early, h) in rw (early, in_time) refl
        | inr late ↦ rw late refl
      ]

  -- A rebuild gives to a day with a bar, up to its end, what the history up to that day gives, if the
  -- snapshot was so before where the day is before the start.
  rebuild_history-row :
      (key : Text) (start : Option ℕ) (latest : ℕ) (bars : ℕ → Option B) (rows : ℕ → Option O)
      (d : ℕ)
      → (is_early start d ≡ true
          → is_some (bars d) ≡ true
          → rows d ≡ indicators.series key (until d bars) d)
      → d ≤ latest
      → is_some (bars d) ≡ true
      → rebuild_history indicators key start latest bars rows d
        ≡ indicators.series key (until d bars) d
  unfolding rebuild_history
  rebuild_history-row key start latest bars rows d earlier h there =
      elim (Bool-cases (is_early start d)) [
        | inl early ↦ rw early (earlier early there)
        | inr late ↦
            let in_time : ltb latest d ≡ false = ground (arith, h) in
            let held : is_none (bars d) ≡ false = ground (arith, there) in
            rw (late, in_time, held)
              (causal key (until latest bars) d
                ∙ ap (λ b. indicators.series key b d) (until-until d latest bars h))
      ]

  publish-IsSound :
      (key : Text) (rebuilt : Bool) (start : Option ℕ) (latest : ℕ) (x : Series B O)
      → ((d : ℕ)
          → is_early start d ≡ true
          → is_some (get x.bars d) ≡ true
          → x.rows d ≡ indicators.series key (until d (get x.bars)) d)
      → ((d : ℕ)
          → is_some (get x.bars d) ≡ true
          → is_dirty x.stream.dirty_from d ≡ false
          → d ≤ latest)
      → IsSoundRow x
      → IsSoundRow (publish indicators key rebuilt start latest x).1
  unfolding publish IsSound IsFresh
  publish-IsSound key rebuilt start latest x earlier reached sound = λ d there.
      let known = max (get_or_else x.stream.latest_bar_date latest) latest in
      let covered = covers_known x.stream.latest_bar_date latest d (sound d there).0 in
      (
        covered,
        λ clean.
            let in_time : d ≤ latest = elim (Bool-cases (leb known latest)) [
              | inl up_to_date ↦ ground (arith, covered, up_to_date)
              | inr behind ↦ reached d there (rw behind at clean)
            ] in
            (
              key,
              latest,
              refl,
              refl,
              refl,
              in_time,
              rebuild_history-row key start latest (get x.bars) x.rows d (earlier d) in_time there,
            ),
      )

  extend-IsSound :
      (key : Text) (first latest : ℕ) (x : Series B O)
      → ((d : ℕ)
          → is_some (get x.bars d) ≡ true
          → x.rows d ≡ indicators.series key (until d (get x.bars)) d)
      → ((d : ℕ) → is_some (get x.bars d) ≡ true → d ≤ latest)
      → IsSoundRow x
      → IsSoundRow (extend indicators key first latest x).1
  unfolding extend IsSound IsFresh
  extend-IsSound key first latest x right reached sound =
      if-split {A = AnalysisResult × Series B O} (λ r. IsSoundRow r.1)
        (leb latest (through_of first x.stream)
          && is_pos x.stream.published_revision x.stream.source_revision)
        _ _ (λ _. sound)
        (λ _.
          publish-IsSound key false
            (some (get_or_else (first_after (through_of first x.stream) latest x.bars) first))
            latest x (λ d _ there. right d there) (λ d there _. reached d there) sound)

  reached_by :
      (latest : ℕ) (o : Option ℕ) {t : ℕ} → is_before latest o ≡ false → o ≡ some t → t ≤ latest
  reached_by latest none h p = cc p
  reached_by latest (some u) h p = ground (arith, h, some_eq p)

  refresh-IsSound :
      (force_history : Bool) (key : Text) (first latest : ℕ) (x : Series B O)
      → is_before latest x.stream.state_through ≡ false
      → IsSoundRow x
      → IsSoundRow (refresh indicators force_history key first latest x).1
  unfolding refresh IsSound IsFresh
  refresh-IsSound force_history key first latest x in_order sound =
      let s = x.stream in
      let reached : (d : ℕ)
          → is_some (get x.bars d) ≡ true
          → is_dirty s.dirty_from d ≡ false
          → d ≤ latest =
        λ d there clean.
          let (_, t, _, state, _, late, _) = (sound d there).1 clean in
          omega (arith, late, reached_by latest s.state_through in_order state) in
      if-split {A = AnalysisResult × Series B O} (λ r. IsSoundRow r.1)
        (force_history || not (s.demand_key =? some key) || is_negative s.published_revision) _ _
        (λ _.
          publish-IsSound key true none latest x (λ d early _. absurd (false≢true early)) reached
            sound)
        (λ kept.
          let demand : s.demand_key ≡ some key =
            beq→eq s.demand_key (some key) (ground (arith, kept)) in
          let right : (d : ℕ)
              → is_some (get x.bars d) ≡ true
              → is_dirty s.dirty_from d ≡ false
              → x.rows d ≡ indicators.series key (until d (get x.bars)) d =
            λ d there clean.
              let (old, _, was, _, _, _, row) = (sound d there).1 clean in
              subst (λ k. x.rows d ≡ indicators.series k (until d (get x.bars)) d)
                (some_eq (sym was ∙ demand)) row in
          elim (Option-cases s.dirty_from) [
            | inl clean ↦
                rw (clean, refresh)
                  (extend-IsSound key first latest x (λ d there. right d there (rw clean refl))
                    (λ d there. reached d there (rw clean refl)) sound)
            | inr (start, dirty) ↦
                rw (dirty, refresh)
                  (publish-IsSound key false (some start) latest x
                    (λ d early there. right d there (rw dirty (ground (arith, early)))) reached
                    sound)
          ])

  -- If no calculator reads a bar after the day that it is asked for, a series stays sound, whatever
  -- `materialize` is asked for.
  pub materialize-IsSound :
      (force_history : Bool) (key : Text) (last_day : Option ℕ) (x : Series B O)
      → IsSoundRow x
      → Ensures (λ r. IsSoundRow r.1) (materialize indicators force_history key last_day x)
  unfolding materialize
  materialize-IsSound force_history key last_day x sound =
      Ensures-elim (λ r. IsSoundRow r.1) (bounds last_day x.bars) _ _ tt
        λ (first, latest).
          if-split {A = Result AnalysisError (AnalysisResult × Series B O)}
            (Ensures λ r. IsSoundRow r.1) (is_before latest x.stream.state_through) _ _ (λ _. tt)
            (λ in_order. refresh-IsSound force_history key first latest x in_order sound)
