-- ===== src/Outbox/Records.antt =====
-- One row of the outbox, and what the surroundings of a delivery do: the clock, the provider and the
-- database. Times are seconds.
use apanel.Base.{ℕ, Bool, Option, List, Result}
use apanel.Base.Integers.{ℤ}

pub data DeliveryStatus : Type 0 where
  pending sent failed : DeliveryStatus

-- The codes of `_safe_delivery_error`, and the one for content that cannot be read.
pub data ErrorCode : Type 0 where
  http feishu : ℤ → ErrorCode
  feishu_error provider_error invalid_content : ErrorCode

-- The JSON of a row: the message that `_message_from_content` makes of it, unless it raises, and the
-- entry "error".
pub record Content (M : Type 0) : Type 0 where
  pub message : Option M
  pub error : Option ErrorCode

pub record Delivery (M : Type 0) : Type 0 where
  pub status : DeliveryStatus
  pub attempt_count : ℕ
  pub error_code : Option ErrorCode
  pub next_retry_at : Option ℕ
  pub sent_at : Option ℕ
  pub created_at : ℕ
  pub content : Content M

-- An exception of the `try` block of `_deliver_existing`, with the attributes that are read of it.
pub record Failure : Type 0 where
  pub is_timeout : Bool
  pub retryable : Bool
  pub status_code : Option ℤ
  pub business_code : Option ℤ
  pub is_webhook_error : Bool

-- What became of the attempt: the lookup of the destination or the making of the provider raised,
-- the provider's `send` raised, or it returned.
pub data Attempt : Type 0 where
  not_called raised : Failure → Attempt
  delivered : Attempt

-- What a commit did: a raised one may have been applied all the same.
pub data Commit : Type 0 where
  committed raised_applied raised_rolled_back : Commit

-- One round of the recovery after a commit that raised. Before the row is locked another caller may
-- have committed a row of its own.
pub data Recovery (M : Type 0) : Type 0 where
  unreadable : Recovery M
  locked : Option (Delivery M) → (row_matched : Bool) → Commit → Recovery M

-- What one call meets. `now` is the clock at its start, `failed_at` and `sent_at` those at its end.
pub record Surroundings (M : Type 0) : Type 0 where
  pub now : ℕ
  pub failed_at : ℕ
  pub sent_at : ℕ
  pub attempt : Attempt
  pub commit : Commit
  pub recoveries : List (Recovery M)

pub data OutboxError : Type 0 where
  retry_conflict persistence_failed commit_raised : OutboxError

-- What a call returns or raises, the row in the database after it, and the messages for which the
-- provider's `send` was called, each with what became of it: where it raised, a timeout included, the
-- provider may have accepted the message or not.
pub record Called (M : Type 0) : Type 0 where
  pub result : Result OutboxError (Delivery M)
  pub stored : Delivery M
  pub sends : List (M × Attempt)
