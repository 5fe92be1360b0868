-- ===== src/Outbox/Examples.antt =====
-- Tests of deliveries, and their theorems at concrete inputs.
use mathlib.Core.Path.{subst}
use apanel.Base.{
  Text, ℕ, ◌+◌, ◌≤◌, ◌≡◌, refl, Bool, true, false, Option, none, some, List, [], ◌∷◌, map, arith,
  ltb, ◌==◌, if◌then◌else◌, is_some, all, ok,
}
use apanel.Base.Texts.{text}
use apanel.Base.Integers.{pos}
use apanel.Outbox.Records.{
  DeliveryStatus, pending, sent, failed, Delivery, Failure, raised, delivered, Commit, committed,
  raised_applied, raised_rolled_back, Recovery, unreadable, locked, Surroundings, Called,
}
use apanel.Outbox.Delivery.{
  max_auto_attempts, is_transient, safe_code, same_delivery_status, same_int, same_code,
  record_failure, record_sent, after_attempt, outcome, same_claim, write, recover_commit,
  commit_delivery,
}
use apanel.Outbox.Calls.{
  enqueue, is_retryable, is_due_failure, claim, deliver, dispatch, retry_from, retry, is_scanned,
  perform, Call, first, recovery, by_user,
}
use apanel.Outbox.Commit.{Agrees, commit_delivery-Agrees}
use apanel.Outbox.Once.{history, successes_in, lost_in, history-returns_once}
use apanel.Outbox.Budget.{enqueue-IsBounded, automatic, sends_in, automatic_budget, IsBounded}
use apanel.Outbox.Scan.{is_scanned-claim, unique_ids}

abbrev fresh : Delivery Text
fresh = record {
  status = pending;
  attempt_count = 0;
  error_code = none;
  next_retry_at = none;
  sent_at = none;
  created_at = 100;
  content = record { message = some (text "PE is low"); error = none };
}

enqueues_fresh : enqueue 100 (text "PE is low") ≡ fresh
unfolding enqueue
enqueues_fresh = refl

abbrev busy : Failure
busy = record {
  is_timeout = false;
  retryable = false;
  status_code = some (pos 503);
  business_code = none;
  is_webhook_error = true;
}

abbrev alone : Bool → Commit → List (Recovery Text)
alone matched c = locked none matched c ∷ []

-- The provider is busy, and the commit is lost and made good.
abbrev busy_call : Surroundings Text
busy_call = record {
  now = 100;
  failed_at = 110;
  sent_at = 110;
  attempt = raised busy;
  commit = raised_rolled_back;
  recoveries = alone true committed;
}

-- The provider accepts, and the commit raises though it was applied.
abbrev good_call : Surroundings Text
good_call = record {
  now = 170;
  failed_at = 180;
  sent_at = 180;
  attempt = delivered;
  commit = raised_applied;
  recoveries = alone true committed;
}

abbrev window : ℕ
window = 300

abbrev calls : List (Call × Surroundings Text)
calls =
    (first, busy_call) ∷ (recovery, good_call) ∷ (recovery, good_call) ∷ (by_user, good_call) ∷ []

abbrev statuses : List (Called Text) → List DeliveryStatus
statuses l = map (λ c. c.stored.status) l

delivers_later : statuses (history window calls fresh) ≡ failed ∷ sent ∷ sent ∷ sent ∷ []
unfolding history perform dispatch retry retry_from claim is_due_failure is_retryable deliver
    outcome after_attempt record_failure record_sent is_transient safe_code commit_delivery
    recover_commit write same_claim same_delivery_status same_code same_int
delivers_later = refl

one_success : successes_in (history window calls fresh) ≡ 1
unfolding history perform dispatch retry retry_from claim is_due_failure is_retryable deliver
    outcome after_attempt record_failure record_sent is_transient safe_code commit_delivery
    recover_commit write same_claim same_delivery_status same_code same_int
one_success = refl

history-returns_once_example :
    successes_in (history window calls fresh) ≤ 1 + lost_in (history window calls fresh)
history-returns_once_example =
    history-returns_once window calls fresh
      ((refl, tt), ((refl, tt), ((refl, tt), ((refl, tt), tt))))

-- Another worker has delivered the row in the meantime.
abbrev rival : Delivery Text
rival = record fresh { status = sent; attempt_count = 1; sent_at = some 105 }

abbrev late_call : Surroundings Text
late_call = record busy_call { recoveries = unreadable ∷ locked (some rival) true committed ∷ [] }

commit_delivery-Agrees_example : Agrees (commit_delivery late_call fresh (outcome late_call fresh))
commit_delivery-Agrees_example = commit_delivery-Agrees late_call fresh (outcome late_call fresh)

rival_wins : commit_delivery late_call fresh (outcome late_call fresh) ≡ (ok rival, rival)
unfolding outcome after_attempt record_failure is_transient safe_code commit_delivery recover_commit
    write same_claim same_delivery_status same_code same_int
rival_wins = refl

plans_170 : (outcome busy_call fresh).next_retry_at ≡ some 170
unfolding outcome after_attempt record_failure is_transient
plans_170 = refl

fresh-IsBounded : IsBounded fresh
fresh-IsBounded = subst IsBounded enqueues_fresh (enqueue-IsBounded 100 (text "PE is low"))

abbrev rounds : List (Bool × Surroundings Text)
rounds = (false, busy_call) ∷ (true, good_call) ∷ (true, busy_call) ∷ []

automatic_budget_example :
    sends_in (history window (automatic rounds) fresh)
    ≤ max_auto_attempts + lost_in (history window (automatic rounds) fresh)
automatic_budget_example =
    automatic_budget window rounds fresh ((refl, tt), ((refl, tt), ((refl, tt), tt)))
      fresh-IsBounded

is_scanned-claim_example : is_scanned 400 window fresh ≡ is_some (claim true 400 window fresh)
is_scanned-claim_example = is_scanned-claim 400 window fresh (omega arith)

abbrev stored : ℕ → Option DeliveryStatus
stored n = if n == 4 then some failed else if ltb n 9 then some sent else none

all_found : all (λ x. is_some (stored x)) (unique_ids (4 ∷ 7 ∷ 4 ∷ [])) ≡ true
unfolding unique_ids
all_found = refl
