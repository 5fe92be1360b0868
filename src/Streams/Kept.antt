-- ===== src/Streams/Kept.antt =====
-- Proofs on `upsert_fenced` and `reconcile_revision`: a series stays sound.
use apanel.Base.{
  Equality, beq, nat_equality, bool_equality, pair_equality, option_equality, Text, text_equality,
  ℕ, ◌≤◌, ◌≡◌, refl, sym, ◌∙◌, ◌⊎◌, inl, inr, true, false, false≢true, Option, none, some, List, [],
  ◌∷◌, arith, leb, Bool-cases, Option-cases, is_some,
}
use apanel.Base.Dict.{Dict, get, put, has, drop_keys, get-drop_keys}
use apanel.Streams.Records.{Changed, combine_changed, Series}
use apanel.Streams.Bars.{
  combine_all, upsert_bars, span, is_deleted, deleted_days, revised_changes, with_last,
  write_series, replace_series,
}
use apanel.Streams.Publication.{Indicators}
use apanel.Streams.Written.{
  is_after, is_until, Extends-combine_changed, is_after-combine_changed, is_until-combine_changed,
  upsert_bars-IsReported, revised_changes-reports, revised_changes_until,
}
use apanel.Streams.Sound.{IsSound, invalidate_changed-IsSound}

has-eq-is_some : {B : Type 0} (bars : Dict ℕ B) (d : ℕ) → has bars d ≡ is_some (get bars d)
unfolding has
has-eq-is_some bars d = elim (Option-cases (get bars d)) [
  | inl unknown ↦ rw (unknown, has) refl
  | inr (b, known) ↦ rw (known, has) refl
]

with_last_after : (last : ℕ) (c : Changed) (d : ℕ) → is_after (with_last last c) d ≡ is_after c d
with_last_after last none d = refl
with_last_after last (some (f, l)) d = refl

with_last_until :
    (last : ℕ) (c : Changed) (start d : ℕ)
    → is_until (with_last last (combine_changed c start)) d ≡ leb d last
unfolding combine_changed
with_last_until last none start d = refl
with_last_until last (some (f, l)) start d = refl

Extends-combine_all :
    (c : Changed) (days : List ℕ) (d : ℕ)
    → is_after c d ≡ true
    → is_after (combine_all c days) d ≡ true
unfolding combine_all
Extends-combine_all c [] d h = h
Extends-combine_all c (day ∷ days) d h =
    Extends-combine_all (combine_changed c day) days d ((Extends-combine_changed c day).0 d h)

until_combine :
    (c : Changed) (day d : ℕ)
    → is_until (combine_changed c day) d ≡ true
    → (is_until c d ≡ true) ⊎ (d ≤ day)
unfolding combine_changed
until_combine none day d h = inr (ground (arith, h))
until_combine (some (f, l)) day d h = elim (Bool-cases (leb d day)) [
  | inl here ↦ inr (ground (arith, here))
  | inr past ↦ inl (ground (arith, past, h))
]

module _ {B : Type 0} ⦃same : Equality B⦄ where
  -- What is reported as changed last is a day of the records.
  upsert_bars_until :
      (records : List (ℕ × B)) (bars : Dict ℕ B) (c : Changed) (d : ℕ)
      → is_until (upsert_bars records bars c).1 d ≡ true
      → (is_until c d ≡ true) ⊎ (is_until (span records) d ≡ true)
  unfolding upsert_bars span
  upsert_bars_until [] bars c d h = inl h
  upsert_bars_until ((day, bar) ∷ rest) bars c d h =
      let wider = Extends-combine_changed (span rest) day in
      elim (Bool-cases (beq (get bars day) (some bar))) [
        | inl held ↦ elim (upsert_bars_until rest bars c d (rw held at h)) [
          | inl old ↦ inl old
          | inr new ↦ inr (wider.1 d new)
        ]
        | inr differs ↦
            elim (upsert_bars_until rest (put bars day bar) (combine_changed c day) d
              (rw differs at h)) [
                | inl old ↦ elim (until_combine c day d old) [
                  | inl older ↦ inl older
                  | inr here ↦ inr (is_until-combine_changed (span rest) day d here)
                ]
                | inr new ↦ inr (wider.1 d new)
              ]
      ]

module _ {B O : Type 0} ⦃same : Equality B⦄ (indicators : Indicators B O) where
  abbrev pub IsSoundSeries : Series B O → Type 0
  IsSoundSeries x = IsSound indicators x.stream (get x.bars) x.rows

  pub write_series-IsSound :
      (revision : Option Text) (records : List (ℕ × B)) (x : Series B O)
      → IsSoundSeries x
      → IsSoundSeries (write_series revision records x)
  unfolding write_series
  write_series-IsSound revision records x sound =
      let r = upsert_bars records x.bars none in
      let c = revised_changes x.revision_hash revision r.0 r.1 in
      let (kept, grown) = upsert_bars-IsReported records x.bars none in
      invalidate_changed-IsSound indicators x.stream (get x.bars) (get r.0) x.rows c
        (λ d h. kept d (revised_changes-reports x.revision_hash revision r.0 r.1 d h))
        (λ d there.
          let held : has r.0 d ≡ true = has-eq-is_some r.0 d ∙ there in
          elim (grown d held) [
            | inl old ↦ inl (sym (has-eq-is_some x.bars d) ∙ old)
            | inr new ↦ inr (revised_changes_until x.revision_hash revision r.0 r.1 d held new)
          ])
        sound

  pub replace_series-IsSound :
      (revision : Option Text) (records : List (ℕ × B)) (first last start end : ℕ) (x : Series B O)
      → span records ≡ some (first, last)
      → IsSoundSeries x
      → IsSoundSeries (replace_series revision records start end last x)
  unfolding replace_series
  replace_series-IsSound revision records first last start end x spans sound =
      let r = upsert_bars records x.bars none in
      let gone = is_deleted records start end in
      let c = combine_all r.1 (deleted_days gone r.0) in
      let (kept, grown) = upsert_bars-IsReported records x.bars none in
      invalidate_changed-IsSound indicators x.stream (get x.bars) (get (drop_keys gone r.0)) x.rows
        (with_last last (combine_changed c start))
        (λ d h.
          let unreported = sym (with_last_after last (combine_changed c start) d) ∙ h in
          let before_start : gone d ≡ false = elim (Bool-cases (leb start d)) [
            | inl late ↦ absurd (
                false≢true
                  (sym unreported ∙ is_after-combine_changed c start d (ground (arith, late))))
            | inr early ↦ rw early refl
          ] in
          let apart : is_after r.1 d ≡ false = elim (Bool-cases (is_after r.1 d)) [
            | inl late ↦ absurd (
                false≢true (
                  sym unreported
                  ∙ (Extends-combine_changed c start).0 d
                      (Extends-combine_all r.1 (deleted_days gone r.0) d late)))
            | inr early ↦ early
          ] in
          rw (get-drop_keys gone r.0 d, before_start) (kept d apart))
        (λ d there. elim (Bool-cases (gone d)) [
          | inl deleted ↦ absurd (false≢true (rw (get-drop_keys gone r.0 d, deleted) at there))
          | inr stays ↦
              let held : has r.0 d ≡ true =
                has-eq-is_some r.0 d ∙ (rw (get-drop_keys gone r.0 d, stays) at there) in
              elim (grown d held) [
                | inl old ↦ inl (sym (has-eq-is_some x.bars d) ∙ old)
                | inr new ↦ elim (upsert_bars_until records x.bars none d new) [
                  | inl none_before ↦ absurd (false≢true none_before)
                  | inr of_records ↦ inr (with_last_until last c start d ∙ (rw spans at of_records))
                ]
              ]
        ])
        sound
