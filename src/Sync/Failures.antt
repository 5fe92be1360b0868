-- ===== src/Sync/Failures.antt =====
-- The exceptions that the synchronization tells apart, `SyncError`, `SyncItemResult` and `SyncSummary`.
use apanel.Base.{
  Text, ℕ, ◌+◌, ◌-◌, Bool, true, false, Option, none, some, List, [], ◌∷◌, ◌==◌, if◌then◌else◌,
  length, Result, err, ok,
}
use apanel.Base.Texts.{text, strip, is_empty}
use apanel.Base.Slices.{take}

-- The classes of exceptions. A subclass that no handler names stands with its base class.
pub data Kind : Type 0 where
  timed_out not_configured unavailable invalid_data : Kind
  system_failure integrity_failure sql_failure recursion_limit another : Kind

-- `str(exc)` and the name of its class
pub record Raised : Type 0 where
  pub kind : Kind
  pub message : Text
  pub class_name : Text

pub record SyncError : Type 0 where
  pub code : Text
  pub message : Text

pub data SyncStatus : Type 0 where
  success failed : SyncStatus

-- Days are those since the epoch.
pub record SyncItemResult : Type 0 where
  pub symbol : Text
  pub status : SyncStatus
  pub fetched : ℕ
  pub persisted : ℕ
  pub error : Option SyncError
  pub history_rebased : Bool
  pub changed_from : Option ℕ

pub record SyncSummary : Type 0 where
  pub operation : Text
  pub items : List SyncItemResult

-- The `succeeded` of an item
abbrev pub is_success : SyncItemResult → Bool
is_success i = elim i.status [ success ↦ true | failed ↦ false ]

abbrev pub total : SyncSummary → ℕ
total s = length s.items

unfoldable pub successes : List SyncItemResult → ℕ
successes [] = 0
successes (i ∷ is) = (if is_success i then 1 else 0) + successes is

abbrev pub succeeded : SyncSummary → ℕ
succeeded s = successes s.items

abbrev pub failures : SyncSummary → ℕ
failures s = total s - succeeded s

unfoldable pub is_complete : SyncSummary → Bool
unfolding successes
is_complete s = failures s == 0

-- `message[:240] if message else exc.__class__.__name__`
unfoldable pub safe_message : Raised → Text
unfolding strip take
safe_message x = let t = strip x.message in if is_empty t then x.class_name else take 240 t

abbrev error_code : Kind → Text
error_code timed_out = text "PROVIDER_TIMEOUT"
error_code not_configured = text "PROVIDER_NOT_CONFIGURED"
error_code unavailable = text "PROVIDER_UNAVAILABLE"
error_code invalid_data = text "INVALID_MARKET_DATA"
error_code _ = text "PROVIDER_ERROR"

unfoldable pub sync_error : Raised → SyncError
unfolding safe_message
sync_error x = record { code = error_code x.kind; message = safe_message x }

abbrev pub persistence_error : Raised → SyncError
unfolding safe_message
persistence_error x = record { code = text "PERSISTENCE_ERROR"; message = safe_message x }

-- An `InvalidMarketDataError`
abbrev pub is_invalid : Raised → Bool
is_invalid x = elim x.kind [ invalid_data ↦ true | _ ↦ false ]

unfoldable pub is_systemic_persistence_error : Raised → Bool
is_systemic_persistence_error x = elim x.kind [
  | system_failure ↦ true
  | sql_failure ↦ true
  | _ ↦ false
]

-- `SyncItemResult(symbol=symbol, status="failed", error=error)`
abbrev pub failed_item : Text → SyncError → SyncItemResult
failed_item symbol e = record {
  symbol = symbol;
  status = failed;
  fetched = 0;
  persisted = 0;
  error = some e;
  history_rebased = false;
  changed_from = none;
}

-- `SyncItemResult(symbol=symbol, status="success", fetched=n)`
abbrev pub fetched_item : Text → ℕ → SyncItemResult
fetched_item symbol n = record {
  symbol = symbol;
  status = success;
  fetched = n;
  persisted = 0;
  error = none;
  history_rebased = false;
  changed_from = none;
}

-- A call on the world `W`: its result or its exception, and the world after it.
abbrev pub Call : Type 0 → Type 0 → Type 0
Call W A = W → Result Raised A × W

-- What follows a call that returned.
abbrev pub resume : {W A C : Type 0} → Result Raised A × W → (A → Call W C) → Result Raised C × W
resume (err x, w) next = (err x, w)
resume (ok a, w) next = next a w
