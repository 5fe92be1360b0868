-- ===== src/Outbox/Budget.antt =====
-- How often and when a delivery is tried again by itself.
use mathlib.Core.Path.{subst}
use apanel.Base.{
  ℕ, zero, suc, ◌+◌, ◌-◌, ◌*◌, ◌^◌, ◌≤◌, ◌<◌, ◌≡◌, refl, sym, ap, ◌∙◌, inl, inr, Bool, true, false,
  false≢true, none, some, List, [], ◌∷◌, map, arith, if◌then◌else◌, Option-cases, length, Result,
}
use apanel.Outbox.Records.{
  pending, failed, Delivery, Failure, Attempt, not_called, raised, delivered, Surroundings,
  OutboxError, Called,
}
use apanel.Outbox.Delivery.{
  max_auto_attempts, retry_base_seconds, same_delivery_status, is_terminal, record_failure,
  record_sent, after_attempt, tried, outcome, sends_of, same_claim,
}
use apanel.Outbox.Calls.{
  enqueue, is_due_failure, claim, unsendable, deliver, dispatch, perform, Call, first, recovery,
}
use apanel.Outbox.Commit.{IsUndisturbed, IsNews, IsSaved, commit_delivery-IsSaved}
use apanel.Outbox.Once.{
  lost, history, lost_in, outcome_facts, outcome-IsNews, claim_facts, AllUndisturbed,
}

-- The longest wait before an automatic attempt, in seconds.
abbrev pub longest_wait : ℕ
longest_wait = 480

-- The wait doubles, from one minute to eight.
wait_bounds :
    (n : ℕ)
    → 0 < n
    → n < max_auto_attempts
    → (retry_base_seconds ≤ retry_base_seconds * 2 ^ (n - 1))
      × (retry_base_seconds * 2 ^ (n - 1) ≤ longest_wait)
wait_bounds zero h g = absurd (omega arith)
wait_bounds (suc zero) h g = (omega arith, omega arith)
wait_bounds (suc (suc zero)) h g = (omega arith, omega arith)
wait_bounds (suc (suc (suc zero))) h g = (omega arith, omega arith)
wait_bounds (suc (suc (suc (suc zero)))) h g = (omega arith, omega arith)
wait_bounds (suc (suc (suc (suc (suc n))))) h g = absurd (omega arith)

module _ {M : Type 0} where
  -- A row as the automatic calls leave it: pending rows were never tried, no row was tried more than
  -- `max_auto_attempts` times, and a retry is only planned for a failed row with attempts left.
  pub record IsBounded (row : Delivery M) : Type 0 where
    pub untried : row.status ≡ pending → row.attempt_count ≡ 0
    pub limited : row.attempt_count ≤ max_auto_attempts
    pub planned :
        (t : ℕ)
        → row.next_retry_at ≡ some t
        → (row.status ≡ failed) × (0 < row.attempt_count) × (row.attempt_count < max_auto_attempts)

  pub enqueue-IsBounded : (created_at : ℕ) (m : M) → IsBounded (enqueue created_at m)
  unfolding enqueue
  enqueue-IsBounded created_at m = record {
    untried = λ p. refl;
    limited = omega arith;
    planned = λ t h. cc;
  }

  -- What a plan for another attempt says of a failed row.
  abbrev IsPlan : ℕ → Delivery M → ℕ → Type 0
  IsPlan clock o t =
      (o.status ≡ failed)
      × (o.attempt_count < max_auto_attempts)
      × (clock + retry_base_seconds ≤ t)
      × (t ≤ clock + longest_wait)

  record_failure-IsPlan :
      (clock : ℕ) (x : Failure) (row : Delivery M) (t : ℕ)
      → 0 < row.attempt_count
      → (record_failure clock x row).next_retry_at ≡ some t
      → IsPlan clock (record_failure clock x row) t
  unfolding record_failure
  record_failure-IsPlan clock x row t positive h =
      let (few, at) = planned_cases in
      let (short, long) = wait_bounds row.attempt_count positive few in
      (refl, few, omega (arith, at, short), omega (arith, at, long))
    where
      planned_cases :
          (row.attempt_count < max_auto_attempts)
          × (t ≡ clock + retry_base_seconds * 2 ^ (row.attempt_count - 1))
      planned_cases = ground (arith, h)

  after_attempt-IsPlan :
      (a : Attempt) (failed_at sent_at : ℕ) (row : Delivery M) (t : ℕ)
      → 0 < row.attempt_count
      → row.next_retry_at ≡ none
      → (after_attempt a failed_at sent_at row).next_retry_at ≡ some t
      → IsPlan failed_at (after_attempt a failed_at sent_at row) t
  unfolding after_attempt record_sent
  after_attempt-IsPlan delivered f s row t positive unplanned h = cc
  after_attempt-IsPlan (raised x) f s row t positive unplanned h =
      record_failure-IsPlan f x row t positive h
  after_attempt-IsPlan (not_called x) f s row t positive unplanned h =
      record_failure-IsPlan f x row t positive h

  -- If the outcome of an attempt plans another one, the attempt failed, fewer than five attempts were
  -- made with it, and the next one is due one to eight minutes after the failure.
  pub outcome-planned :
      (w : Surroundings M) (row : Delivery M) (t : ℕ)
      → (outcome w row).next_retry_at ≡ some t
      → ((outcome w row).status ≡ failed)
        × ((outcome w row).attempt_count < max_auto_attempts)
        × (w.failed_at + retry_base_seconds ≤ t)
        × (t ≤ w.failed_at + longest_wait)
  unfolding outcome
  outcome-planned w row t h =
      after_attempt-IsPlan w.attempt w.failed_at w.sent_at (tried row) t (omega arith) refl h

  -- A claimed row has attempts left.
  claim_limit :
      (recover : Bool) (now window : ℕ) (row c : Delivery M)
      → IsBounded row
      → claim recover now window row ≡ some c
      → c.attempt_count < max_auto_attempts
  unfolding claim is_due_failure
  claim_limit recover now window row c b h = ground (arith, h, b.untried)

  unsendable-IsNews :
      (recover : Bool) (now window : ℕ) (row c : Delivery M)
      → claim recover now window row ≡ some c
      → IsNews row (unsendable c)
  unfolding claim is_due_failure same_claim same_delivery_status
  unsendable-IsNews recover now window row c h = ground (arith, h)

  outcome-IsBounded :
      (w : Surroundings M) (row : Delivery M)
      → row.attempt_count < max_auto_attempts
      → IsBounded (outcome w row)
  outcome-IsBounded w row few =
      let (terminal, more, _) = outcome_facts w row in
      record {
        untried = λ p. absurd (false≢true (sym (ap is_terminal p) ∙ terminal));
        limited = omega (arith, more, few);
        planned =
            λ t h. let (f, g, _, _) = outcome-planned w row t h in (f, omega (arith, more), g);
      }

  unsendable-IsBounded :
      (row : Delivery M) → row.attempt_count < max_auto_attempts → IsBounded (unsendable row)
  unsendable-IsBounded row few = record {
    untried = λ p. cc;
    limited = omega (arith, few);
    planned = λ t h. cc;
  }

  saved-IsBounded :
      (baseline o : Delivery M) (p : Result OutboxError (Delivery M) × Delivery M)
      → IsBounded baseline
      → IsBounded o
      → IsSaved baseline o p
      → IsBounded p.1
  saved-IsBounded baseline o p b b' (inl (_, e)) = subst IsBounded (sym e) b'
  saved-IsBounded baseline o p b b' (inr (_, inl e)) = subst IsBounded (sym e) b
  saved-IsBounded baseline o p b b' (inr (_, inr e)) = subst IsBounded (sym e) b'

  -- What a call has spent on attempts shows in the row, or the call raised.
  abbrev Spends : Delivery M → Called M → Type 0
  Spends row c = row.attempt_count + length c.sends ≤ c.stored.attempt_count + lost c.result

  length-sends_of : (a : Attempt) (m : M) → length (sends_of a m) ≤ 1
  length-sends_of delivered m = omega arith
  length-sends_of (raised x) m = omega arith
  length-sends_of (not_called x) m = omega arith

  saved-Spends :
      (baseline o : Delivery M) (p : Result OutboxError (Delivery M) × Delivery M) (k : ℕ)
      → baseline.attempt_count + k ≤ o.attempt_count
      → k ≤ 1
      → IsSaved baseline o p
      → baseline.attempt_count + k ≤ p.1.attempt_count + lost p.0
  saved-Spends baseline o p k more one (inl (r, e)) = rw (r, e) (omega (arith, more))
  saved-Spends baseline o p k more one (inr (r, inl e)) = rw (r, e) (omega (arith, one))
  saved-Spends baseline o p k more one (inr (r, inr e)) = rw (r, e) (omega (arith, more))

  deliver_budget :
      (recover : Bool) (window : ℕ) (w : Surroundings M) (row c : Delivery M)
      → IsUndisturbed w.recoveries
      → IsBounded row
      → claim recover w.now window row ≡ some c
      → IsBounded (deliver w row c).stored × Spends row (deliver w row c)
  unfolding deliver
  deliver_budget recover window w row c u b claimed =
      let few = claim_limit recover w.now window row c b claimed in
      let (_, counted, made) = claim_facts recover w.now window row c claimed in
      elim (Option-cases c.content.message) [
        | inl absent ↦
            let saved =
              commit_delivery-IsSaved w row (unsendable c) u
                (unsendable-IsNews recover w.now window row c claimed) in
            rw (absent, deliver)
              (
                saved-IsBounded row (unsendable c) _ b (unsendable-IsBounded c few) saved,
                saved-Spends row (unsendable c) _ 0 (omega (arith, counted)) (omega arith) saved,
              )
        | inr (m, present) ↦
            let saved =
              commit_delivery-IsSaved w row (outcome w c) u (outcome-IsNews w row c counted made) in
            let (_, more, _) = outcome_facts w c in
            rw (present, deliver)
              (
                saved-IsBounded row (outcome w c) _ b (outcome-IsBounded w c few) saved,
                saved-Spends row (outcome w c) _ (length (sends_of w.attempt m))
                    (omega (arith, counted, more, length-sends_of w.attempt m))
                    (length-sends_of w.attempt m) saved,
              )
      ]

  dispatch_budget :
      (recover : Bool) (window : ℕ) (w : Surroundings M) (row : Delivery M)
      → IsUndisturbed w.recoveries
      → IsBounded row
      → IsBounded (dispatch recover window w row).stored
        × Spends row (dispatch recover window w row)
  unfolding dispatch
  dispatch_budget recover window w row u b = elim (Option-cases (claim recover w.now window row)) [
    | inl left ↦ rw (left, dispatch) (b, omega arith)
    | inr (c, claimed) ↦ rw (claimed, dispatch) (deliver_budget recover window w row c u b claimed)
  ]

  abbrev pub automatic : List (Bool × Surroundings M) → List (Call × Surroundings M)
  automatic l = map (λ (recover, w). (if recover then recovery else first, w)) l

  abbrev pub sends_in : List (Called M) → ℕ
  sends_in [] = 0
  sends_in (c ∷ l) = length c.sends + sends_in l

  automatic-spends :
      (window : ℕ) (l : List (Bool × Surroundings M)) (row : Delivery M)
      → AllUndisturbed (automatic l)
      → IsBounded row
      → row.attempt_count + sends_in (history window (automatic l) row)
        ≤ max_auto_attempts + lost_in (history window (automatic l) row)
  unfolding history perform
  automatic-spends window [] row u b = omega (arith, b.limited)
  automatic-spends window ((true, w) ∷ l) row (u, us) b =
      let (b', spent) = dispatch_budget true window w row u b in
      omega (arith, spent, automatic-spends window l (dispatch true window w row).stored us b')
  automatic-spends window ((false, w) ∷ l) row (u, us) b =
      let (b', spent) = dispatch_budget false window w row u b in
      omega (arith, spent, automatic-spends window l (dispatch false window w row).stored us b')

  -- Over any first dispatches and recoveries of a row as `enqueue` leaves it or as such calls left it,
  -- while no one else writes the row during the recovery of a commit: the provider is called at most
  -- five times, and once more for each call that raised because its outcome could not be saved.
  pub automatic_budget :
      (window : ℕ) (l : List (Bool × Surroundings M)) (row : Delivery M)
      → AllUndisturbed (automatic l)
      → IsBounded row
      → sends_in (history window (automatic l) row)
        ≤ max_auto_attempts + lost_in (history window (automatic l) row)
  automatic_budget window l row u b = omega (arith, automatic-spends window l row u b)
