-- ===== src/Outbox/Scan.antt =====
-- Which rows `dispatch_pending_notifications` finds, and `summarize_deliveries`.
use apanel.Base.{
  ℕ, ◌+◌, ◌≤◌, ◌≡◌, refl, Bool, true, false, Option, none, some, List, [], ◌∷◌, arith, ◌==◌,
  if◌then◌else◌, is_some, length, all, Result, err, ok,
}
use apanel.Outbox.Records.{DeliveryStatus, Delivery}
use apanel.Outbox.Delivery.{same_delivery_status}
use apanel.Outbox.Calls.{is_retryable, is_due_failure, claim, is_scanned}

module _ {M : Type 0} where
  -- The scan and the check under the row's lock agree: once the clock is past the recovery window, the
  -- query selects a row exactly if a recovery dispatch at the same time goes on with it.
  pub is_scanned-claim :
      (now window : ℕ) (row : Delivery M)
      → window ≤ now
      → is_scanned now window row ≡ is_some (claim true now window row)
  unfolding is_scanned claim is_due_failure is_retryable
  is_scanned-claim now window row h = ground (arith, h)

-- `tuple(dict.fromkeys(ids))`: each id once
unfoldable pub without : ℕ → List ℕ → List ℕ
without n [] = []
without n (x ∷ l) = let rest = without n l in if x == n then rest else x ∷ rest

unfoldable pub unique_ids : List ℕ → List ℕ
unfolding without
unique_ids [] = []
unique_ids (x ∷ l) = x ∷ without x (unique_ids l)

pub record Summary : Type 0 where
  pub total : ℕ
  pub sent : ℕ
  pub failed : ℕ
  pub pending : ℕ

pub data SummaryError : Type 0 where
  record_missing : SummaryError

abbrev has_status : (ℕ → Option DeliveryStatus) → DeliveryStatus → ℕ → Bool
has_status stored s x = elim (stored x) [ none ↦ false | some t ↦ same_delivery_status t s ]

unfoldable pub count_status : (ℕ → Option DeliveryStatus) → DeliveryStatus → List ℕ → ℕ
unfolding same_delivery_status
count_status stored s [] = 0
count_status stored s (x ∷ l) = (if has_status stored s x then 1 else 0) + count_status stored s l

-- `summarize_deliveries`, with the statuses that the query reads
unfoldable pub summarize : (ℕ → Option DeliveryStatus) → List ℕ → Result SummaryError Summary
unfolding unique_ids count_status
summarize stored ids =
    let unique = unique_ids ids in
    if all (λ x. is_some (stored x)) unique
    then ok (record {
      total = length unique;
      sent = count_status stored DeliveryStatus.sent unique;
      failed = count_status stored DeliveryStatus.failed unique;
      pending = count_status stored DeliveryStatus.pending unique;
    })
    else err record_missing

count_status-total :
    (stored : ℕ → Option DeliveryStatus) (l : List ℕ)
    → all (λ x. is_some (stored x)) l ≡ true
    → count_status stored DeliveryStatus.sent l
        + count_status stored DeliveryStatus.failed l
        + count_status stored DeliveryStatus.pending l
      ≡ length l
unfolding count_status
count_status-total stored [] h = refl
count_status-total stored (x ∷ l) h = ground (arith, h, count_status-total stored l)

-- If every delivery is on record the summary is returned, and its three counts add up to its total,
-- which is the number of different deliveries that were asked for.
pub summarize_total :
    (stored : ℕ → Option DeliveryStatus) (ids : List ℕ)
    → all (λ x. is_some (stored x)) (unique_ids ids) ≡ true
    → (s : Summary) × (summarize stored ids ≡ ok s)
      × (s.sent + s.failed + s.pending ≡ s.total)
      × (s.total ≡ length (unique_ids ids))
unfolding summarize
summarize_total stored ids h = (_, rw h refl, count_status-total stored (unique_ids ids) h, refl)
