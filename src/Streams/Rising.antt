-- ===== src/Streams/Rising.antt =====
-- Proofs on the generations that a reservation, a write and a completion leave.
use mathlib.Core.Path.{subst}
use apanel.Base.{
  Equality, beq, nat_equality, bool_equality, pair_equality, option_equality, beq→eq, Text,
  text_equality, ℕ, ◌+◌, ◌≤◌, ◌<◌, ◌≡◌, refl, sym, inl, inr, true, false≢true, none, some, List, [],
  ◌∷◌, arith, Bool-cases, Option-cases, err,
}
use apanel.Base.Dict.{Dict, get}
use apanel.Base.Slices.{is_in}
use apanel.Streams.Records.{Changed, invalidate_changed, AnalysisStream, Series}
use apanel.Streams.Bars.{write_series}
use apanel.Streams.Fences.{
  Market, changed_at, next_generation, reserve_sync, check_fences, completed, complete_all, Batch,
  write_all, superseded,
}
use apanel.Streams.Fenced.{generation}

pub invalidate_changed-generation :
    (c : Changed) (s : AnalysisStream)
    → (invalidate_changed c s).sync_generation ≡ s.sync_generation
unfolding invalidate_changed
invalidate_changed-generation none s = refl
invalidate_changed-generation (some (f, l)) s = refl

some_eq : {A : Type 0} {a b : A} → some a ≡ some b → a ≡ b
some_eq h = cc h

module _ {B O : Type 0} where
  -- No generation goes back.
  abbrev pub Rises : Market B O → Market B O → Type 0
  Rises m n = (s : Text) → generation m s ≤ generation n s

  pub changed_at-Rises :
      (m : Market B O) (s : Text) (x : Series B O)
      → generation m s ≤ x.stream.sync_generation
      → Rises m (changed_at s x m)
  changed_at-Rises m s x h t = elim (Bool-cases (beq s t)) [
    | inl this ↦
        rw (generation, this)
          (subst (λ u. generation m u ≤ x.stream.sync_generation) (beq→eq s t this) h)
    | inr other ↦ rw (generation, other) (ground arith)
  ]

  pub Rises-trans : (m n k : Market B O) → Rises m n → Rises n k → Rises m k
  Rises-trans m n k h g s = omega (arith, h s, g s)

  pub reserve_sync-Rises :
      (symbols : List Text) (m : Market B O) → Rises m (reserve_sync symbols m).1
  unfolding reserve_sync
  reserve_sync-Rises [] m = λ s. ground arith
  reserve_sync-Rises (t ∷ ts) m =
      let n = changed_at t (next_generation (m t)) m in
      Rises-trans m n (reserve_sync ts n).1
        (changed_at-Rises m t (next_generation (m t)) (omega arith)) (reserve_sync-Rises ts n)

  pub complete_all-Rises :
      (depth : ℕ) (symbols : List Text) (m : Market B O) → Rises m (complete_all depth symbols m)
  unfolding complete_all
  complete_all-Rises depth [] m = λ s. ground arith
  complete_all-Rises depth (t ∷ ts) m =
      let n = changed_at t (completed depth (m t)) m in
      Rises-trans m n (complete_all depth ts n)
        (changed_at-Rises m t (completed depth (m t)) (ground arith))
        (complete_all-Rises depth ts n)

  pub check_superseded :
      (expected : Dict Text ℕ) (symbols : List Text) (m : Market B O) (s : Text)
      → is_in s symbols ≡ true
      → ((g : ℕ) → get expected s ≡ some g → g < generation m s)
      → check_fences (some expected) symbols m ≡ err superseded
  unfolding check_fences
  check_superseded expected [] m s named older = absurd (false≢true named)
  check_superseded expected (t ∷ ts) m s named older = elim (Bool-cases (beq t s)) [
    | inl this ↦
        subst (λ u. check_fences (some expected) (u ∷ ts) m ≡ err superseded)
          (sym (beq→eq t s this))
          (elim (Option-cases (get expected s)) [
            | inl unknown ↦ ground (arith, unknown)
            | inr (g, known) ↦ ground (arith, known, older g known)
          ])
    | inr other ↦
        let rest = check_superseded expected ts m s (rw other at named) older in
        ground (arith, rest)
  ]

  pub reserve_sync-get :
      (symbols : List Text) (m : Market B O) (s : Text) (g : ℕ)
      → get (reserve_sync symbols m).0 s ≡ some g
      → g ≤ generation (reserve_sync symbols m).1 s
  unfolding reserve_sync get
  reserve_sync-get [] m s g found = cc found
  reserve_sync-get (t ∷ ts) m s g found =
      let n = changed_at t (next_generation (m t)) m in
      elim (Bool-cases (beq t s)) [
        | inl this ↦
            let own : generation m t + 1 ≡ g = some_eq (rw this at found) in
            let at_t : generation m t + 1 ≤ generation n s = rw (generation, this) (omega arith) in
            let up = reserve_sync-Rises ts n s in omega (arith, own, at_t, up)
        | inr other ↦ reserve_sync-get ts n s g (rw other at found)
      ]

  pub reserve_sync-rises :
      (symbols : List Text) (m : Market B O) (s : Text)
      → is_in s symbols ≡ true
      → generation m s < generation (reserve_sync symbols m).1 s
  unfolding reserve_sync
  reserve_sync-rises [] m s named = absurd (false≢true named)
  reserve_sync-rises (t ∷ ts) m s named =
      let n = changed_at t (next_generation (m t)) m in
      elim (Bool-cases (beq t s)) [
        | inl this ↦
            let up = reserve_sync-Rises ts n s in
            let at_s : generation m s < generation n s =
              rw (generation, this)
                (subst (λ u. generation m u < generation m t + 1) (beq→eq t s this)
                  (omega arith)) in
            omega (arith, at_s, up)
        | inr other ↦
            let same_at : generation n s ≡ generation m s = rw (generation, other) refl in
            let up = reserve_sync-rises ts n s (rw other at named) in omega (arith, same_at, up)
      ]

module _ {B O : Type 0} ⦃same : Equality B⦄ where
  pub write_all-Rises :
      (revisions : Dict Text Text) (batch : Batch B) (m : Market B O)
      → Rises m (write_all revisions batch m)
  unfolding write_all write_series
  write_all-Rises revisions [] m = λ s. ground arith
  write_all-Rises revisions ((t, records) ∷ rest) m =
      let x = write_series (get revisions t) records (m t) in
      let n = changed_at t x m in
      Rises-trans m n (write_all revisions rest n)
        (changed_at-Rises m t x (omega (arith, invalidate_changed-generation _ (m t).stream)))
        (write_all-Rises revisions rest n)
