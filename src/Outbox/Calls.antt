-- ===== src/Outbox/Calls.antt =====
-- `NotificationService.dispatch` and `retry` of one row, and the scan for rows that are due.
use apanel.Base.{
  ℕ, ◌+◌, ◌-◌, Bool, true, false, not, ◌&&◌, Option, none, some, [], ltb, leb, if◌then◌else◌, err,
  ok,
}
use apanel.Outbox.Records.{
  DeliveryStatus, pending, sent, failed, invalid_content, Delivery, Surroundings, retry_conflict,
  commit_raised, Called,
}
use apanel.Outbox.Delivery.{
  max_auto_attempts, is_committed, outcome, sends_of, after_commit, commit_delivery,
}

-- A caller's choice: a first dispatch, a recovery, or a user's retry.
pub data Call : Type 0 where
  first recovery by_user : Call

abbrev pub is_past : ℕ → Option ℕ → Bool
is_past now none = false
is_past now (some t) = leb t now

module _ {M : Type 0} where
  -- `NotificationService.enqueue`, of content that can be read back
  unfoldable pub enqueue : ℕ → M → Delivery M
  enqueue created_at m = record {
    status = pending;
    attempt_count = 0;
    error_code = none;
    next_retry_at = none;
    sent_at = none;
    created_at = created_at;
    content = record { message = some m; error = none };
  }

  -- The age at which a pending row counts as abandoned.
  abbrev is_old : ℕ → ℕ → Delivery M → Bool
  is_old now window row = leb (row.created_at + window) now

  -- `is_notification_retryable`
  unfoldable pub is_retryable : ℕ → ℕ → Delivery M → Bool
  is_retryable now window row = elim row.status [
    | failed ↦ elim row.error_code [ some invalid_content ↦ false | _ ↦ true ]
    | pending ↦ is_old now window row
    | sent ↦ false
  ]

  unfoldable pub is_due_failure : ℕ → Delivery M → Bool
  is_due_failure now row = elim row.status [
    | failed ↦ is_past now row.next_retry_at && ltb row.attempt_count max_auto_attempts
    | _ ↦ false
  ]

  -- The row that `dispatch` goes on with, if it does not return at once.
  unfoldable pub claim : Bool → ℕ → ℕ → Delivery M → Option (Delivery M)
  unfolding is_due_failure is_retryable
  claim recover now window row = elim row.status [
    | sent ↦ none
    | failed ↦
        if recover && is_due_failure now row then some (record row { status = pending }) else none
    | pending ↦ if recover && not (is_retryable now window row) then none else some row
  ]

  abbrev pub unsendable : Delivery M → Delivery M
  unsendable row = record row {
    status = failed;
    error_code = some invalid_content;
    next_retry_at = none;
  }

  abbrev pub reopened : Delivery M → Delivery M
  reopened row = record row {
    status = pending;
    error_code = none;
    content = record row.content { error = none };
  }

  -- The `session.commit()` of a call that has changed nothing.
  abbrev idle : Surroundings M → Delivery M → Called M
  idle w row = record {
    result = if is_committed w.commit then ok row else err commit_raised;
    stored = row;
    sends = [];
  }

  -- `_deliver_existing`, or the end of a call whose content cannot be read; `baseline` is the row
  -- that was locked, `row` the claimed one
  unfoldable pub deliver : Surroundings M → Delivery M → Delivery M → Called M
  unfolding outcome commit_delivery
  deliver w baseline row = elim row.content.message [
    | none ↦
        let done = commit_delivery w baseline (unsendable row) in
        record { result = done.0; stored = done.1; sends = [] }
    | some m ↦
        let done = commit_delivery w baseline (outcome w row) in
        record { result = done.0; stored = done.1; sends = sends_of w.attempt m }
  ]

  unfoldable pub dispatch : Bool → ℕ → Surroundings M → Delivery M → Called M
  unfolding claim deliver
  dispatch recover window w row = elim (claim recover w.now window row) [
    | none ↦ idle w row
    | some claimed ↦ deliver w row claimed
  ]

  -- `retry` commits a row that it cannot read without the recovery of `_commit_delivery`.
  unfoldable pub redeliver : Surroundings M → Delivery M → Called M
  unfolding deliver
  redeliver w row = elim row.content.message [
    | none ↦ record {
      result = if is_committed w.commit then ok (unsendable row) else err commit_raised;
      stored = after_commit w.commit row (unsendable row);
      sends = [];
    }
    | some _ ↦ deliver w row (reopened row)
  ]

  -- `retry`, by the status of the row
  unfoldable pub retry_from : DeliveryStatus → ℕ → Surroundings M → Delivery M → Called M
  unfolding is_retryable redeliver
  retry_from sent window w row = record { result = ok row; stored = row; sends = [] }
  retry_from pending window w row =
      if is_retryable w.now window row
      then redeliver w row
      else record { result = err retry_conflict; stored = row; sends = [] }
  retry_from failed window w row = redeliver w row

  unfoldable pub retry : ℕ → Surroundings M → Delivery M → Called M
  unfolding retry_from
  retry window w row = retry_from row.status window w row

  -- The rows that `dispatch_pending_notifications` selects.
  unfoldable pub is_scanned : ℕ → ℕ → Delivery M → Bool
  is_scanned now window row = elim row.status [
    | pending ↦ leb row.created_at (now - window)
    | failed ↦ is_past now row.next_retry_at && ltb row.attempt_count max_auto_attempts
    | sent ↦ false
  ]

  unfoldable pub perform : ℕ → Call × Surroundings M → Delivery M → Called M
  unfolding dispatch retry
  perform window (first, w) row = dispatch false window w row
  perform window (recovery, w) row = dispatch true window w row
  perform window (by_user, w) row = retry window w row
