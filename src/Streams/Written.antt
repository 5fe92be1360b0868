-- ===== src/Streams/Written.antt =====
-- Proofs on the days that a write of bars reports as changed.
use apanel.Base.{
  Equality, beq, nat_equality, bool_equality, pair_equality, option_equality, Text, text_equality,
  ℕ, ◌≤◌, ◌≡◌, refl, sym, ◌∙◌, ◌⊎◌, inl, inr, Bool, true, false, false≢true, Option, none, some,
  List, [], ◌∷◌, arith, leb, Bool-cases, if-split,
}
use apanel.Base.Dict.{Dict, get, put, has, get-put}
use apanel.Base.Keys.{has-put}
use apanel.Streams.Records.{Changed, combine_changed}
use apanel.Streams.Bars.{is_revised, restated_span, upsert_bars, span, revised_changes}

-- The day is not before the first changed one.
abbrev pub is_after : Changed → ℕ → Bool
is_after none d = false
is_after (some (first, _)) d = leb first d

-- The day is not past the last changed one.
abbrev pub is_until : Changed → ℕ → Bool
is_until none d = false
is_until (some (_, last)) d = leb d last

-- The second change reports what the first does.
abbrev pub Extends : Changed → Changed → Type 0
Extends c b =
    ((d : ℕ) → is_after c d ≡ true → is_after b d ≡ true)
    × ((d : ℕ) → is_until c d ≡ true → is_until b d ≡ true)

pub Extends-combine_changed : (c : Changed) (day : ℕ) → Extends c (combine_changed c day)
unfolding combine_changed
Extends-combine_changed none day = ((λ d h. absurd (false≢true h)), (λ d h. absurd (false≢true h)))
Extends-combine_changed (some (f, l)) day = ((λ d h. ground (arith, h)), (λ d h. ground (arith, h)))

pub is_after-combine_changed :
    (c : Changed) (day d : ℕ) → day ≤ d → is_after (combine_changed c day) d ≡ true
unfolding combine_changed
is_after-combine_changed none day d h = ground (arith, h)
is_after-combine_changed (some (f, l)) day d h = ground (arith, h)

pub is_until-combine_changed :
    (c : Changed) (day d : ℕ) → d ≤ day → is_until (combine_changed c day) d ≡ true
unfolding combine_changed
is_until-combine_changed none day d h = ground (arith, h)
is_until-combine_changed (some (f, l)) day d h = ground (arith, h)

module _ {B : Type 0} ⦃same : Equality B⦄ where
  -- What is reported of the bars before and after a write: a day that is not reported keeps its bar, and
  -- every new day is up to the last.
  abbrev pub IsReported : Dict ℕ B → Dict ℕ B × Changed → Type 0
  IsReported bars (after, c) =
      ((d : ℕ) → is_after c d ≡ false → get after d ≡ get bars d)
      × ((d : ℕ) → has after d ≡ true → (has bars d ≡ true) ⊎ (is_until c d ≡ true))

  upsert_bars-Extends :
      (records : List (ℕ × B)) (bars : Dict ℕ B) (c : Changed)
      → Extends c (upsert_bars records bars c).1
  unfolding upsert_bars
  upsert_bars-Extends [] bars c = ((λ d h. h), (λ d h. h))
  upsert_bars-Extends ((day, bar) ∷ rest) bars c =
      elim (Bool-cases (beq (get bars day) (some bar))) [
        | inl held ↦ rw held (upsert_bars-Extends rest bars c)
        | inr differs ↦
            let here = Extends-combine_changed c day in
            let later = upsert_bars-Extends rest (put bars day bar) (combine_changed c day) in
            rw differs ((λ d h. later.0 d (here.0 d h)), (λ d h. later.1 d (here.1 d h)))
      ]

  pub upsert_bars-IsReported :
      (records : List (ℕ × B)) (bars : Dict ℕ B) (c : Changed)
      → IsReported bars (upsert_bars records bars c)
  unfolding upsert_bars
  upsert_bars-IsReported [] bars c = ((λ d h. refl), (λ d h. inl h))
  upsert_bars-IsReported ((day, bar) ∷ rest) bars c =
      elim (Bool-cases (beq (get bars day) (some bar))) [
        | inl held ↦ rw held (upsert_bars-IsReported rest bars c)
        | inr differs ↦
            let b = combine_changed c day in
            let wider = upsert_bars-Extends rest (put bars day bar) b in
            let (kept, grown) = upsert_bars-IsReported rest (put bars day bar) b in
            rw differs (
              (λ d unreported. elim (Bool-cases (beq day d)) [
                | inl this ↦ absurd (
                    false≢true (
                      sym unreported
                      ∙ wider.0 d (is_after-combine_changed c day d (ground (arith, this)))))
                | inr other ↦ kept d unreported ∙ rw (get-put bars day bar d, other) refl
              ]),
              (λ d there. elim (grown d there) [
                | inr before_last ↦ inr before_last
                | inl held ↦ elim (Bool-cases (beq day d)) [
                  | inl this ↦
                      inr (wider.1 d (is_until-combine_changed c day d (ground (arith, this))))
                  | inr other ↦ inl (ground (arith, other, held, has-put bars day bar d))
                ]
              ]),
            )
      ]

restated_span-reports :
    (c s : Changed) (d : ℕ) → is_after (restated_span c s) d ≡ false → is_after c d ≡ false
unfolding restated_span
restated_span-reports c none d h = h
restated_span-reports none (some (f, l)) d h = refl
restated_span-reports (some (o, k)) (some (f, l)) d h = ground (arith, h)

module _ {B : Type 0} where
  -- Every bar lies in the span.
  pub span_covers :
      (bars : Dict ℕ B) (d : ℕ)
      → has bars d ≡ true
      → (is_after (span bars) d ≡ true) × (is_until (span bars) d ≡ true)
  unfolding span has get
  span_covers [] d there = absurd (false≢true there)
  span_covers ((day, bar) ∷ rest) d there = elim (Bool-cases (beq day d)) [
    | inl this ↦ (
      is_after-combine_changed (span rest) day d (ground (arith, this)),
      is_until-combine_changed (span rest) day d (ground (arith, this)),
    )
    | inr other ↦
        let held : has rest d ≡ true = ground (arith, there, other) in
        let (a, u) = span_covers rest d held in
        let wider = Extends-combine_changed (span rest) day in (wider.0 d a, wider.1 d u)
  ]

  restated_span_until :
      (c : Changed) (bars : Dict ℕ B) (d : ℕ)
      → has bars d ≡ true
      → is_until (restated_span c (span bars)) d ≡ true
  unfolding restated_span
  restated_span_until c bars d there = covered c (span bars) (span_covers bars d there).1
    where
      covered : (c s : Changed) → is_until s d ≡ true → is_until (restated_span c s) d ≡ true
      covered c none h = absurd (false≢true h)
      covered none (some (f, l)) h = h
      covered (some (o, k)) (some (f, l)) h = h

  -- The changes of a revised series report what the written bars do.
  pub revised_changes-reports :
      (previous revision : Option Text) (bars : Dict ℕ B) (c : Changed) (d : ℕ)
      → is_after (revised_changes previous revision bars c) d ≡ false
      → is_after c d ≡ false
  unfolding revised_changes
  revised_changes-reports previous none bars c d h = h
  revised_changes-reports previous (some hash) bars c d h =
      if-split {A = Changed} (λ r. is_after r d ≡ false → is_after c d ≡ false)
        (is_revised previous hash) _ _ (λ _ g. restated_span-reports c (span bars) d g) (λ _ g. g) h

  pub revised_changes_until :
      (previous revision : Option Text) (bars : Dict ℕ B) (c : Changed) (d : ℕ)
      → has bars d ≡ true
      → is_until c d ≡ true
      → is_until (revised_changes previous revision bars c) d ≡ true
  unfolding revised_changes
  revised_changes_until previous none bars c d there h = h
  revised_changes_until previous (some hash) bars c d there h =
      if-split {A = Changed} (λ r. is_until r d ≡ true) (is_revised previous hash) _ _
        (λ _. restated_span_until c bars d there) (λ _. h)
