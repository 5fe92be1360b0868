-- ===== src/Outbox/Delivery.antt =====
-- `_deliver_existing` and `_commit_delivery`.
use apanel.Base.{
  nat_equality, bool_equality, pair_equality, option_equality, ◌=?◌, text_equality, ℕ, zero, suc,
  ◌+◌, ◌-◌, ◌*◌, ◌^◌, Bool, true, false, not, ◌&&◌, ◌||◌, Option, none, some, List, [], ◌∷◌, ltb,
  leb, ◌==◌, if◌then◌else◌, get_or_else, Result, err, ok,
}
use apanel.Base.Integers.{ℤ, pos, negsuc}
use apanel.Outbox.Records.{
  DeliveryStatus, pending, sent, failed, ErrorCode, http, feishu, feishu_error, provider_error,
  invalid_content, Delivery, Failure, Attempt, not_called, raised, delivered, Commit, committed,
  raised_applied, raised_rolled_back, Recovery, unreadable, locked, Surroundings, OutboxError,
  persistence_failed,
}

abbrev pub max_auto_attempts : ℕ
max_auto_attempts = 5

abbrev pub retry_base_seconds : ℕ
retry_base_seconds = 60

abbrev pub commit_recovery_attempts : ℕ
commit_recovery_attempts = 2

-- 429 or 500 to 599
abbrev is_server_code : Option ℤ → Bool
is_server_code none = false
is_server_code (some (pos n)) = n == 429 || (leb 500 n && leb n 599)
is_server_code (some (negsuc _)) = false

unfoldable pub is_transient : Failure → Bool
is_transient x = x.is_timeout || x.retryable || is_server_code x.status_code

-- `_safe_delivery_error`
unfoldable pub safe_code : Failure → ErrorCode
safe_code x = elim x.status_code [
  | some n ↦ http n
  | none ↦ elim x.business_code [
    | some n ↦ feishu n
    | none ↦ if x.is_webhook_error then feishu_error else provider_error
  ]
]

unfoldable pub same_delivery_status : DeliveryStatus → DeliveryStatus → Bool
same_delivery_status pending pending = true
same_delivery_status sent sent = true
same_delivery_status failed failed = true
same_delivery_status _ _ = false

unfoldable pub same_int : ℤ → ℤ → Bool
same_int (pos a) (pos b) = a == b
same_int (negsuc a) (negsuc b) = a == b
same_int _ _ = false

unfoldable pub same_code : Option ErrorCode → Option ErrorCode → Bool
unfolding same_int
same_code none none = true
same_code (some (http a)) (some (http b)) = same_int a b
same_code (some (feishu a)) (some (feishu b)) = same_int a b
same_code (some feishu_error) (some feishu_error) = true
same_code (some provider_error) (some provider_error) = true
same_code (some invalid_content) (some invalid_content) = true
same_code _ _ = false

abbrev pub is_terminal : DeliveryStatus → Bool
is_terminal pending = false
is_terminal _ = true

abbrev pub is_committed : Commit → Bool
is_committed committed = true
is_committed _ = false

module _ {M : Type 0} where
  -- the `except` branch
  unfoldable pub record_failure : ℕ → Failure → Delivery M → Delivery M
  unfolding is_transient safe_code
  record_failure clock x row = record row {
    status = failed;
    error_code = some (safe_code x);
    next_retry_at =
        if is_transient x && ltb row.attempt_count max_auto_attempts
        then some (clock + retry_base_seconds * 2 ^ (row.attempt_count - 1))
        else none;
    content = record row.content { error = some (safe_code x) };
  }

  -- the `else` branch
  unfoldable pub record_sent : ℕ → Delivery M → Delivery M
  record_sent clock row = record row {
    status = sent;
    error_code = none;
    sent_at = some clock;
    content = record row.content { error = none };
  }

  -- the clauses of the `try` statement
  unfoldable pub after_attempt : Attempt → ℕ → ℕ → Delivery M → Delivery M
  unfolding record_failure record_sent
  after_attempt delivered failed_at sent_at row = record_sent sent_at row
  after_attempt (raised x) failed_at sent_at row = record_failure failed_at x row
  after_attempt (not_called x) failed_at sent_at row = record_failure failed_at x row

  abbrev pub tried : Delivery M → Delivery M
  tried row = record row { attempt_count = row.attempt_count + 1; next_retry_at = none }

  -- `_deliver_existing` up to its commit: the outcome
  unfoldable pub outcome : Surroundings M → Delivery M → Delivery M
  unfolding after_attempt
  outcome w row = after_attempt w.attempt w.failed_at w.sent_at (tried row)

  -- The provider's calls of an attempt
  abbrev pub sends_of : Attempt → M → List (M × Attempt)
  sends_of delivered m = (m, delivered) ∷ []
  sends_of (raised x) m = (m, raised x) ∷ []
  sends_of (not_called _) m = []

  -- The part of a row that `_locked_notification` remembers.
  unfoldable pub same_claim : Delivery M → Delivery M → Bool
  unfolding same_delivery_status same_code
  same_claim a b =
      same_delivery_status a.status b.status
      && a.attempt_count == b.attempt_count
      && same_code a.error_code b.error_code
      && (a.next_retry_at =? b.next_retry_at)

  -- the columns of `outcome`, written to the row
  unfoldable pub write : Delivery M → Delivery M → Delivery M
  write o row = record o { created_at = row.created_at }

  abbrev pub after_commit : Commit → Delivery M → Delivery M → Delivery M
  after_commit committed before o = o
  after_commit raised_applied before o = o
  after_commit raised_rolled_back before o = before

  -- `persisted` is the durable row that was locked.
  abbrev pub is_winner : Delivery M → Delivery M → Bool
  is_winner baseline persisted = is_terminal persisted.status && not (same_claim persisted baseline)

  -- the loop of `_commit_delivery`, with the rounds that are left; `stored` is the durable row
  unfoldable pub recover_commit :
      ℕ
      → List (Recovery M)
      → Delivery M
      → Delivery M
      → Delivery M
      → Result OutboxError (Delivery M) × Delivery M
  unfolding same_claim write
  recover_commit zero rounds baseline o stored = (err persistence_failed, stored)
  recover_commit (suc n) [] baseline o stored = (err persistence_failed, stored)
  recover_commit (suc n) (unreadable ∷ rounds) baseline o stored =
      recover_commit n rounds baseline o stored
  recover_commit (suc n) (locked other matched c ∷ rounds) baseline o stored =
      let persisted = get_or_else other stored in
      let unmatched = recover_commit n rounds baseline o persisted in
      let again =
        recover_commit n rounds baseline o (after_commit c persisted (write o persisted)) in
      if is_winner baseline persisted
      then (ok persisted, persisted)
      else if not matched
      then unmatched
      else if is_committed c
      then (ok (write o persisted), write o persisted)
      else again

  -- `_commit_delivery`; `baseline` is the row that was locked, `o` the outcome
  unfoldable pub commit_delivery :
      Surroundings M → Delivery M → Delivery M → Result OutboxError (Delivery M) × Delivery M
  unfolding recover_commit
  commit_delivery w baseline o =
      if is_committed w.commit
      then (ok o, o)
      else recover_commit commit_recovery_attempts w.recoveries baseline o
          (after_commit w.commit baseline o)
