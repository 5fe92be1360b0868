-- ===== src/Outbox/Once.antt =====
-- How often the provider's `send` can return for one row of the outbox.
use apanel.Base.{
  ℕ, suc, ◌+◌, ◌≤◌, ◌≡◌, refl, ap, ◌∙◌, ◌⊎◌, inl, inr, Bool, true, false, some, List, [], ◌∷◌,
  arith, Option-cases, if-split, Result, err, ok,
}
use apanel.Outbox.Records.{
  DeliveryStatus, pending, sent, failed, Delivery, Failure, Attempt, not_called, raised, delivered,
  Surroundings, OutboxError, retry_conflict, persistence_failed, commit_raised, Called,
}
use apanel.Outbox.Delivery.{
  is_terminal, record_failure, record_sent, after_attempt, tried, outcome, sends_of, same_claim,
  commit_delivery,
}
use apanel.Outbox.Calls.{
  is_retryable, claim, reopened, deliver, dispatch, redeliver, retry_from, retry, perform, Call,
  first, recovery, by_user,
}
use apanel.Outbox.Commit.{IsUndisturbed, IsNews, commit_delivery-IsSaved}

-- The provider's calls that returned. One that raised counts for none, also where it timed out after
-- the provider had accepted the message.
abbrev pub successes : {M : Type 0} → List (M × Attempt) → ℕ
successes [] = 0
successes ((_, delivered) ∷ l) = suc (successes l)
successes ((_, raised _) ∷ l) = successes l
successes ((_, not_called _) ∷ l) = successes l

-- A call that raised after it tried to write the row.
abbrev pub lost : {M : Type 0} → Result OutboxError (Delivery M) → ℕ
lost (ok _) = 0
lost (err retry_conflict) = 0
lost (err persistence_failed) = 1
lost (err commit_raised) = 1

abbrev pub held : DeliveryStatus → ℕ
held sent = 1
held _ = 0

Attempt-cases :
    (a : Attempt)
    → (a ≡ delivered) ⊎ ((x : Failure) × (a ≡ raised x)) ⊎ ((x : Failure) × (a ≡ not_called x))
Attempt-cases delivered = inl refl
Attempt-cases (raised x) = inr (inl (x, refl))
Attempt-cases (not_called x) = inr (inr (x, refl))

module _ {M : Type 0} where
  -- The calls for one row, one after the other: the source holds the row's lock in each.
  unfoldable pub history : ℕ → List (Call × Surroundings M) → Delivery M → List (Called M)
  unfolding perform
  history window [] row = []
  history window (c ∷ calls) row =
      let done = perform window c row in done ∷ history window calls done.stored

  abbrev pub successes_in : List (Called M) → ℕ
  successes_in [] = 0
  successes_in (c ∷ l) = successes c.sends + successes_in l

  abbrev pub lost_in : List (Called M) → ℕ
  lost_in [] = 0
  lost_in (c ∷ l) = lost c.result + lost_in l

  -- What the calls before have to show for their successes.
  abbrev Pays : Delivery M → Called M → Type 0
  Pays row c = held row.status + successes c.sends ≤ held c.stored.status + lost c.result

  after_attempt_facts :
      (a : Attempt) (failed_at sent_at : ℕ) (row : Delivery M)
      → let o = after_attempt a failed_at sent_at row in
        (is_terminal o.status ≡ true)
        × (o.attempt_count ≡ row.attempt_count)
        × (o.created_at ≡ row.created_at)
  unfolding after_attempt record_failure record_sent
  after_attempt_facts delivered f s row = (refl, refl, refl)
  after_attempt_facts (raised x) f s row = (refl, refl, refl)
  after_attempt_facts (not_called x) f s row = (refl, refl, refl)

  pub outcome_facts :
      (w : Surroundings M) (row : Delivery M)
      → (is_terminal (outcome w row).status ≡ true)
        × ((outcome w row).attempt_count ≡ row.attempt_count + 1)
        × ((outcome w row).created_at ≡ row.created_at)
  unfolding outcome
  outcome_facts w row = after_attempt_facts w.attempt w.failed_at w.sent_at (tried row)

  outcome-sent :
      (w : Surroundings M) (row : Delivery M)
      → w.attempt ≡ delivered
      → (outcome w row).status ≡ sent
  unfolding outcome after_attempt record_sent
  outcome-sent w row h = rw (h, outcome) refl

  pub outcome-IsNews :
      (w : Surroundings M) (baseline row : Delivery M)
      → row.attempt_count ≡ baseline.attempt_count
      → row.created_at ≡ baseline.created_at
      → IsNews baseline (outcome w row)
  unfolding same_claim
  outcome-IsNews w baseline row counted made =
      let (terminal, more, kept) = outcome_facts w row in
      (terminal, ground (arith, more, counted), kept ∙ made)

  sends-Pays :
      (w : Surroundings M) (baseline row : Delivery M) (m : M)
      → IsUndisturbed w.recoveries
      → held baseline.status ≡ 0
      → row.attempt_count ≡ baseline.attempt_count
      → row.created_at ≡ baseline.created_at
      → let done = commit_delivery w baseline (outcome w row) in
        held baseline.status + successes (sends_of w.attempt m) ≤ held done.1.status + lost done.0
  sends-Pays w baseline row m u unsent counted made =
      let attempts = successes (sends_of w.attempt m) in
      elim (Attempt-cases w.attempt) [
        | inl e ↦
            let one : attempts ≡ 1 = rw e refl in
            let reached : held (outcome w row).status ≡ 1 = rw (outcome-sent w row e) refl in
            elim (commit_delivery-IsSaved w baseline (outcome w row) u
              (outcome-IsNews w baseline row counted made)) [
                | inl (r, stored) ↦ rw (r, stored) (omega (arith, unsent, reached, one))
                | inr (r, _) ↦ rw r (omega (arith, unsent, one))
              ]
        | inr (inl (x, e)) ↦ let no : attempts ≡ 0 = rw e refl in omega (arith, unsent, no)
        | inr (inr (x, e)) ↦ let no : attempts ≡ 0 = rw e refl in omega (arith, unsent, no)
      ]

  -- A call that goes on to deliver starts from a row that is not yet sent.
  deliver-Pays :
      (w : Surroundings M) (baseline row : Delivery M)
      → IsUndisturbed w.recoveries
      → held baseline.status ≡ 0
      → row.attempt_count ≡ baseline.attempt_count
      → row.created_at ≡ baseline.created_at
      → Pays baseline (deliver w baseline row)
  unfolding deliver
  deliver-Pays w baseline row u unsent counted made = elim (Option-cases row.content.message) [
    | inl absent ↦ rw (absent, deliver) (omega (arith, unsent))
    | inr (m, present) ↦ rw (present, deliver) (sends-Pays w baseline row m u unsent counted made)
  ]

  pub claim_facts :
      (recover : Bool) (now window : ℕ) (row c : Delivery M)
      → claim recover now window row ≡ some c
      → (held row.status ≡ 0)
        × (c.attempt_count ≡ row.attempt_count)
        × (c.created_at ≡ row.created_at)
  unfolding claim
  claim_facts recover now window row c h = ground (arith, h)

  dispatch-Pays :
      (recover : Bool) (window : ℕ) (w : Surroundings M) (row : Delivery M)
      → IsUndisturbed w.recoveries
      → Pays row (dispatch recover window w row)
  unfolding dispatch
  dispatch-Pays recover window w row u = elim (Option-cases (claim recover w.now window row)) [
    | inl left ↦ rw (left, dispatch) (omega arith)
    | inr (c, claimed) ↦
        let (unsent, counted, made) = claim_facts recover w.now window row c claimed in
        rw (claimed, dispatch) (deliver-Pays w row c u unsent counted made)
  ]

  redeliver-Pays :
      (w : Surroundings M) (row : Delivery M)
      → IsUndisturbed w.recoveries
      → held row.status ≡ 0
      → Pays row (redeliver w row)
  unfolding redeliver
  redeliver-Pays w row u unsent = elim (Option-cases row.content.message) [
    | inl absent ↦ rw (absent, redeliver) (omega (arith, unsent))
    | inr (m, present) ↦
        rw (present, redeliver) (deliver-Pays w row (reopened row) u unsent refl refl)
  ]

  retry_from-Pays :
      (s : DeliveryStatus) (window : ℕ) (w : Surroundings M) (row : Delivery M)
      → IsUndisturbed w.recoveries
      → row.status ≡ s
      → Pays row (retry_from s window w row)
  unfolding retry_from
  retry_from-Pays sent window w row u e = omega arith
  retry_from-Pays failed window w row u e = redeliver-Pays w row u (ap held e)
  retry_from-Pays pending window w row u e =
      if-split (Pays row) (is_retryable w.now window row) _ _
        (λ _. redeliver-Pays w row u (ap held e)) λ _. omega arith

  perform-Pays :
      (window : ℕ) (call : Call) (w : Surroundings M) (row : Delivery M)
      → IsUndisturbed w.recoveries
      → Pays row (perform window (call, w) row)
  unfolding perform retry
  perform-Pays window first w row u = dispatch-Pays false window w row u
  perform-Pays window recovery w row u = dispatch-Pays true window w row u
  perform-Pays window by_user w row u = retry_from-Pays row.status window w row u refl

  abbrev pub AllUndisturbed : List (Call × Surroundings M) → Type 0
  AllUndisturbed [] = Unit
  AllUndisturbed ((_, w) ∷ calls) = IsUndisturbed w.recoveries × AllUndisturbed calls

  history-pays :
      (window : ℕ) (calls : List (Call × Surroundings M)) (row : Delivery M)
      → AllUndisturbed calls
      → held row.status + successes_in (history window calls row)
        ≤ 1 + lost_in (history window calls row)
  unfolding history
  history-pays window [] row u = ground arith
  history-pays window ((call, w) ∷ calls) row (u, us) =
      let done = perform window (call, w) row in
      omega (arith, perform-Pays window call w row u, history-pays window calls done.stored us)

  -- Over any calls for one row, one after the other (first dispatches, recoveries and retries by a user,
  -- whenever they are made), while no one else writes the row during the recovery of a commit: the
  -- provider's `send` returns at most once, and once more for each call that raised because its outcome
  -- could not be saved. A `send` that raised is not counted, a timeout included, though the provider may
  -- have accepted its message.
  pub history-returns_once :
      (window : ℕ) (calls : List (Call × Surroundings M)) (row : Delivery M)
      → AllUndisturbed calls
      → successes_in (history window calls row) ≤ 1 + lost_in (history window calls row)
  history-returns_once window calls row u = omega (arith, history-pays window calls row u)

  -- A row that was sent stays as it is, and no call for it reaches the provider.
  pub perform-sent :
      (window : ℕ) (call : Call) (w : Surroundings M) (row : Delivery M)
      → row.status ≡ sent
      → ((perform window (call, w) row).stored ≡ row) × ((perform window (call, w) row).sends ≡ [])
  unfolding perform dispatch retry retry_from claim
  perform-sent window first w row h = ground arith
  perform-sent window recovery w row h = ground arith
  perform-sent window by_user w row h = ground arith
