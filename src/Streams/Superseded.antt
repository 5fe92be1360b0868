-- ===== src/Streams/Superseded.antt =====
-- Proofs on the fences: which synchronizations may write.
use mathlib.Core.Path.{subst}
use apanel.Base.{
  Equality, beq, nat_equality, bool_equality, pair_equality, option_equality, beq→eq, eq→beq, Text,
  text_equality, ℕ, ◌<◌, ◌≡◌, refl, sym, ap, ◌∙◌, inl, inr, true, false, false≢true, some, List, [],
  ◌∷◌, map, arith, Bool-cases, All, err, ok,
}
use apanel.Base.Dict.{Dict, get}
use apanel.Base.Slices.{is_in, unique}
use apanel.Streams.Fences.{
  Market, changed_at, next_generation, reserve_sync, check_fences, complete_sync, Batch, write_all,
  upsert_fenced, superseded,
}
use apanel.Streams.Publication.{Indicators}
use apanel.Streams.Fenced.{generation, Commits}
use apanel.Streams.Rising.{check_superseded, reserve_sync-get, reserve_sync-rises}
use apanel.Streams.Committed.{commits-Rises}

module _ {B O : Type 0} ⦃same : Equality B⦄ (indicators : Indicators B O) where
  -- A synchronization that reserved its symbols, and one of whose symbols was reserved again later, with
  -- any transactions between and after: each of its fenced upserts and completions that names the
  -- symbol is refused as superseded.
  pub superseded-writes_nothing :
      (mine theirs : List Text) (m n k : Market B O) (s : Text)
      → Commits indicators (reserve_sync mine m).1 n
      → is_in s theirs ≡ true
      → Commits indicators (reserve_sync theirs n).1 k
      → ((revisions : Dict Text Text) (batch : Batch B)
          → is_in s (map (λ p. p.0) batch) ≡ true
          → upsert_fenced (some (reserve_sync mine m).0) revisions batch k ≡ err superseded)
        × ((depth : ℕ) (symbols : List Text)
            → is_in s symbols ≡ true
            → complete_sync (reserve_sync mine m).0 depth symbols k ≡ err superseded)
  unfolding upsert_fenced complete_sync
  superseded-writes_nothing mine theirs m n k s between again after =
      let older : (g : ℕ) → get (reserve_sync mine m).0 s ≡ some g → g < generation k s = λ g found.
        let a = reserve_sync-get mine m s g found in
        let b = commits-Rises indicators (reserve_sync mine m).1 n between s in
        let c = reserve_sync-rises theirs n s again in
        let d = commits-Rises indicators (reserve_sync theirs n).1 k after s in
        omega (arith, a, b, c, d) in
      (
        (λ revisions batch named.
            rw (check_superseded (reserve_sync mine m).0 (map (λ p. p.0) batch) k s named older)
              refl),
        (λ depth symbols named.
            rw (check_superseded (reserve_sync mine m).0 symbols k s named older) refl),
      )

module _ {B O : Type 0} where
  -- A symbol that is reserved once gets the generation that its stream then has.
  reserve_sync_other :
      (symbols : List Text) (m : Market B O) (s : Text)
      → is_in s symbols ≡ false
      → generation (reserve_sync symbols m).1 s ≡ generation m s
  unfolding reserve_sync
  reserve_sync_other [] m s absent = refl
  reserve_sync_other (t ∷ ts) m s absent =
      let apart : beq t s ≡ false = ground (arith, absent) in
      let rest : is_in s ts ≡ false = ground (arith, absent) in
      reserve_sync_other ts (changed_at t (next_generation (m t)) m) s rest
      ∙ rw (generation, apart) refl

  get-reserve_sync :
      (symbols : List Text) (m : Market B O) (s : Text)
      → unique symbols ≡ true
      → is_in s symbols ≡ true
      → get (reserve_sync symbols m).0 s ≡ some (generation (reserve_sync symbols m).1 s)
  unfolding reserve_sync get unique
  get-reserve_sync [] m s once named = absurd (false≢true named)
  get-reserve_sync (t ∷ ts) m s once named =
      let n = changed_at t (next_generation (m t)) m in
      elim (Bool-cases (beq t s)) [
        | inl this ↦
            let absent : is_in s ts ≡ false =
              subst (λ u. is_in u ts ≡ false) (beq→eq t s this) (ground (arith, once)) in
            rw this (ap some (sym (reserve_sync_other ts n s absent ∙ rw (generation, this) refl)))
        | inr other ↦ rw other (get-reserve_sync ts n s (ground (arith, once)) (rw other at named))
      ]

  check_current :
      (expected : Dict Text ℕ) (symbols : List Text) (m : Market B O)
      → All (λ s. get expected s ≡ some (generation m s)) symbols
      → check_fences (some expected) symbols m ≡ ok tt
  unfolding check_fences
  check_current expected [] m h = refl
  check_current expected (s ∷ ss) m (first, others) =
      rw (eq→beq (get expected s) (some (generation m s)) first)
        (check_current expected ss m others)

module _ {B O : Type 0} ⦃same : Equality B⦄ where
  -- A synchronization that reserved its symbols, each once, and none of whose written symbols has
  -- another generation since, writes its batch whole.
  pub current-accepted :
      (mine : List Text) (m k : Market B O) (revisions : Dict Text Text) (batch : Batch B)
      → unique mine ≡ true
      → All
          (λ s. (is_in s mine ≡ true) × (generation k s ≡ generation (reserve_sync mine m).1 s))
          (map (λ p. p.0) batch)
      → upsert_fenced (some (reserve_sync mine m).0) revisions batch k
        ≡ ok (write_all revisions batch k)
  unfolding upsert_fenced
  current-accepted mine m k revisions batch once h =
      rw
        (check_current (reserve_sync mine m).0 (map (λ p. p.0) batch) k
          (each (map (λ p. p.0) batch) h))
        refl
    where
      each :
          (ss : List Text)
          → All
              (λ s. (is_in s mine ≡ true) × (generation k s ≡ generation (reserve_sync mine m).1 s))
              ss
          → All (λ s. get (reserve_sync mine m).0 s ≡ some (generation k s)) ss
      each [] h = tt
      each (s ∷ ss) ((named, kept), others) =
          (get-reserve_sync mine m s once named ∙ ap some (sym kept), each ss others)
