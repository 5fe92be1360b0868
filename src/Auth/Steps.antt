-- ===== src/Auth/Steps.antt =====
-- The calls in any order, and what each does to the table of refresh sessions.
use apanel.Base.{
  nat_equality, bool_equality, pair_equality, option_equality, ◌=?◌, Text, text_equality, ℕ, ◌+◌,
  ◌≡◌, Bool, true, ◌&&◌, Option, none, some, List, [], ◌∷◌, ◌++◌, ◌==◌, if◌then◌else◌, is_none,
}
use apanel.Auth.Records.{UserStatus, User, RefreshSession, Accounts, Security, Moment}
use apanel.Auth.Sessions.{find_session, revoke_family, mark_used, refresh_tokens, logout}
use apanel.Auth.Accounts.{
  create_invitation, register_user, authenticate, bootstrap_admin, IdentifierType,
}

abbrev pub is_live : RefreshSession → Bool
is_live s = is_none s.used_at && is_none s.revoked_at

-- The sessions of a family that are neither used up nor revoked.
unfoldable pub live_in : Text → List RefreshSession → ℕ
live_in f [] = 0
live_in f (s ∷ ss) = (if s.family_id =? f && is_live s then 1 else 0) + live_in f ss

unfoldable pub members : Text → List RefreshSession → ℕ
members f [] = 0
members f (s ∷ ss) = (if s.family_id =? f then 1 else 0) + members f ss

-- An operator changes the status of an account; the service does not.
abbrev pub with_status : ℕ → UserStatus → List User → List User
with_status n st [] = []
with_status n st (u ∷ us) =
    (if u.id == n then record u { status = st } else u) ∷ with_status n st us

-- One call, or the operator. A `uuid4` is new.
pub data Step (c : Security) (db : Accounts) : Accounts → Type 0 where
  signed_in :
      (m : Moment) (k : IdentifierType) (name password : Text)
      → members m.uuid db.sessions ≡ 0
      → Step c db (authenticate c m k name password db).1
  refreshed : (m : Moment) (raw : Text) → Step c db (refresh_tokens c m raw db).1
  signed_out : (m : Moment) (raw : Option Text) → Step c db (logout c m raw db)
  has_invited :
      (m : Moment) (email : Text) (creator : User)
      → Step c db (create_invitation c m email creator db).1
  registered :
      (m : Moment) (token username password : Text) (given : Option Text)
      → Step c db (register_user c m token username password given db).1
  bootstrapped :
      (m : Moment) (username email password : Text)
      → Step c db (bootstrap_admin m username email password db).1
  status_set :
      (n : ℕ) (st : UserStatus) → Step c db (record db { users = with_status n st db.users })

pub data Steps (c : Security) (db : Accounts) : Accounts → Type 0 where
  start : Steps c db db
  later : {x y : Accounts} → Steps c db x → Step c x y → Steps c db y

-- What a call can do to the sessions.
pub data Change (ss : List RefreshSession) : List RefreshSession → Type 0 where
  kept : Change ss ss
  closed : (f : Text) (now : ℕ) → Change ss (revoke_family f now ss)
  rotated :
      (s next_row : RefreshSession) (now : ℕ)
      → find_session s.token_hash ss ≡ some s
      → is_live s ≡ true
      → find_session next_row.token_hash ss ≡ none
      → next_row.family_id ≡ s.family_id
      → Change ss (mark_used s.token_hash now next_row.token_hash ss ++ next_row ∷ [])
  opened :
      (next_row : RefreshSession)
      → find_session next_row.token_hash ss ≡ none
      → members next_row.family_id ss ≡ 0
      → Change ss (ss ++ next_row ∷ [])
