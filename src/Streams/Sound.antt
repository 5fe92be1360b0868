-- ===== src/Streams/Sound.antt =====
-- Proofs on the writes of bars: what they leave of the published analysis.
use mathlib.Core.Path.{subst}
use apanel.Base.{
  Text, ℕ, ◌≤◌, ◌≡◌, refl, sym, ap, ◌∙◌, ◌⊎◌, inl, inr, Bool, true, false, ◌||◌, Option, none, some,
  arith, leb, Bool-cases, is_some,
}
use apanel.Streams.Records.{Changed, earliest, last_of, invalidate_changed, AnalysisStream}
use apanel.Streams.Publication.{until, Indicators}
use apanel.Streams.Written.{is_after, is_until}

-- The day is to be recomputed.
abbrev pub is_dirty : Option ℕ → ℕ → Bool
is_dirty none d = false
is_dirty (some first) d = leb first d

abbrev pub covers : Option ℕ → ℕ → Bool
covers none d = false
covers (some last) d = leb d last

until-eq :
    {B : Type 0} (d : ℕ) (bars after : ℕ → Option B)
    → ((e : ℕ) → e ≤ d → after e ≡ bars e)
    → until d after ≡ until d bars
until-eq d bars after h = λ i e. step e i
  where
    step : (e : ℕ) → until d after e ≡ until d bars e
    step e = elim (Bool-cases (leb e d)) [
      | inl early ↦ rw early (h e (ground (arith, early)))
      | inr late ↦ rw late refl
    ]

is_dirty-earliest :
    (old : Option ℕ) (first d : ℕ)
    → is_dirty (earliest old first) d ≡ (is_dirty old d || leb first d)
unfolding earliest
is_dirty-earliest none first d = refl
is_dirty-earliest (some f) first d = ground arith

covers-last_of :
    (old : Option ℕ) (last d : ℕ) → covers (last_of old last) d ≡ (covers old d || leb d last)
unfolding last_of
covers-last_of none last d = refl
covers-last_of (some l) last d = ground arith

module _ {B O : Type 0} (indicators : Indicators B O) where
  -- The snapshots of the day are what the history up to it gives, for the demand that was published last.
  unfoldable pub IsFresh : AnalysisStream → (ℕ → Option B) → (ℕ → Option O) → ℕ → Type 0
  IsFresh s bars rows d =
      (key : Text) × (t : ℕ) × (s.demand_key ≡ some key)
      × (s.state_through ≡ some t)
      × (s.indicator_through ≡ some t)
      × (d ≤ t)
      × (rows d ≡ indicators.series key (until d bars) d)

  -- Every bar lies up to the latest day, and its snapshots are fresh unless its day is dirty.
  unfoldable pub IsSound : AnalysisStream → (ℕ → Option B) → (ℕ → Option O) → Type 0
  unfolding IsFresh
  IsSound s bars rows =
      (d : ℕ)
      → is_some (bars d) ≡ true
      → (covers s.latest_bar_date d ≡ true)
        × (is_dirty s.dirty_from d ≡ false → IsFresh s bars rows d)

  -- A write keeps a series sound, if it reports the days from which the bars differ, and those of the
  -- new bars.
  pub invalidate_changed-IsSound :
      (s : AnalysisStream) (bars after : ℕ → Option B) (rows : ℕ → Option O) (c : Changed)
      → ((d : ℕ) → is_after c d ≡ false → after d ≡ bars d)
      → ((d : ℕ) → is_some (after d) ≡ true → (is_some (bars d) ≡ true) ⊎ (is_until c d ≡ true))
      → IsSound s bars rows
      → IsSound (invalidate_changed c s) after rows
  unfolding invalidate_changed IsSound IsFresh
  invalidate_changed-IsSound s bars after rows none kept grown sound =
      subst (λ b. IsSound s b rows) (λ i e. sym (kept e refl) i) sound
  invalidate_changed-IsSound s bars after rows (some (f, l)) kept grown sound = λ d there. (
    rw (covers-last_of s.latest_bar_date l d) (elim (grown d there) [
      | inl held ↦ rw ((sound d held).0) refl
      | inr new ↦ ground (arith, new)
    ]),
    λ clean.
        let dirty = is_dirty-earliest s.dirty_from f d in
        let early : leb f d ≡ false = ground (arith, clean, dirty) in
        let same_until : (e : ℕ) → e ≤ d → after e ≡ bars e =
          λ e h. kept e (ground (arith, early, h)) in
        let held : is_some (bars d) ≡ true = ap is_some (sym (kept d early)) ∙ there in
        let (key, t, demand, state, indicator, late, row) =
          (sound d held).1 (ground (arith, clean, dirty)) in
        (
          key,
          t,
          demand,
          state,
          indicator,
          late,
          row ∙ ap (λ b. indicators.series key b d) (sym (until-eq d bars after same_until)),
        ),
  )
