-- ===== src/Sync/Securities.antt =====
-- `SecuritySyncService.sync`
use apanel.Base.{
  nat_equality, bool_equality, pair_equality, option_equality, Text, text_equality, Bool, Option,
  none, some, List, [], ◌∷◌, ◌++◌, map, if◌then◌else◌, ◌>>=◌, Result, err, ok,
}
use apanel.Base.Texts.{text}
use apanel.Base.Slices.{is_in}
use apanel.Sync.Failures.{
  sync_error, persistence_error, failed_item, fetched_item, Call, Raised, SyncError, SyncItemResult,
  SyncSummary,
}
use apanel.Sync.Quotes.{invalid}

-- `S` is the class `Security`, of which only the symbol is read; a record of another class is `none`.
pub record SecuritySyncService (W S : Type 0) : Type 0 where
  pub symbol_of : S → Text
  pub get_symbols : Call W (List (Option S))
  pub authoritative_universe : Bool
  pub reconcile_snapshot : List S → Bool → Call W (Unit {0})

-- `_require_security`
abbrev require_security : {S : Type 0} → Option S → Result Raised S
require_security none = err (invalid (text "provider returned a non-Security record"))
require_security (some s) = ok s

-- The loop over the records; `seen` are the symbols of `records`.
unfoldable pub check_records :
    {S : Type 0} → (S → Text) → List (Option S) → List S → Result Raised (List S)
check_records symbol_of [] records = ok records
check_records symbol_of (raw ∷ raws) records = require_security raw >>= λ s.
    let rest = check_records symbol_of raws (records ++ s ∷ []) in
    if is_in ⦃e = text_equality⦄ (symbol_of s) (map symbol_of records)
    then err (invalid (text "provider returned a duplicate security symbol: " ++ symbol_of s))
    else rest

-- `_security_failure`
unfoldable pub security_failure : SyncError → SyncSummary
security_failure e = record { operation = text "security"; items = failed_item (text "*") e ∷ [] }

module _ {W S : Type 0} where
  abbrev pub stored_item : SecuritySyncService W S → S → SyncItemResult
  stored_item service s = record (fetched_item (service.symbol_of s) 1) { persisted = 1 }

  unfoldable pub after_reconcile :
      SecuritySyncService W S → List S → Result Raised (Unit {0}) → SyncSummary
  unfolding security_failure
  after_reconcile service records (err x) = security_failure (persistence_error x)
  after_reconcile service records (ok u) = record {
    operation = text "security";
    items = map (stored_item service) records;
  }

  unfoldable pub after_check :
      SecuritySyncService W S → Result Raised (List S) → W → SyncSummary × W
  unfolding after_reconcile
  after_check service (err x) w = (security_failure (sync_error x), w)
  after_check service (ok records) w =
      let (reply, v) = service.reconcile_snapshot records service.authoritative_universe w in
      (after_reconcile service records reply, v)

  unfoldable pub after_symbols :
      SecuritySyncService W S → Result Raised (List (Option S)) × W → SyncSummary × W
  unfolding after_check
  after_symbols service (err x, w) = (security_failure (sync_error x), w)
  after_symbols service (ok [], w) = (record { operation = text "security"; items = [] }, w)
  after_symbols service (ok (raw ∷ raws), w) =
      after_check service (check_records service.symbol_of (raw ∷ raws) []) w

  unfoldable pub sync_securities : SecuritySyncService W S → W → SyncSummary × W
  unfolding after_symbols
  sync_securities service w = after_symbols service (service.get_symbols w)
