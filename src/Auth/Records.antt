-- ===== src/Auth/Records.antt =====
-- The rows of backend/app/models that the authentication service reads and writes, and what one of
-- its calls draws from outside. Times are seconds, and all of them are in UTC.
use apanel.Base.{Text, ℕ, Bool, Option, List, Result}

pub data UserRole : Type 0 where
  admin_role user_role : UserRole

pub data UserStatus : Type 0 where
  invited active disabled : UserStatus

pub data InvitationStatus : Type 0 where
  pending accepted revoked expired : InvitationStatus

pub record User : Type 0 where
  pub id : ℕ
  pub username : Text
  pub email : Text
  pub password_hash : Text
  pub role : UserRole
  pub status : UserStatus
  pub invited_by : Option ℕ

pub record Invitation : Type 0 where
  pub email : Text
  pub token_hash : Text
  pub status : InvitationStatus
  pub created_by : ℕ
  pub expires_at : ℕ
  pub accepted_at : Option ℕ

pub record RefreshSession : Type 0 where
  pub user_id : ℕ
  pub token_hash : Text
  pub family_id : Text
  pub issued_at : ℕ
  pub expires_at : ℕ
  pub used_at : Option ℕ
  pub revoked_at : Option ℕ
  pub replaced_by_hash : Option Text

pub record InstallationSetup : Type 0 where
  pub token_hash : Option Text
  pub completed_at : Option ℕ

-- The tables. `next_id` is the number that the database gives to the next user.
pub record Accounts : Type 0 where
  pub users : List User
  pub invitations : List Invitation
  pub sessions : List RefreshSession
  pub setup : Option InstallationSetup
  pub next_id : ℕ

-- The settings, with the functions of hashlib and argon2.
pub record Security : Type 0 where
  pub hash_opaque_token : Text → Text
  pub verify_password : Text → Text → Bool
  pub refresh_token_ttl_seconds : ℕ
  pub invitation_ttl_seconds : ℕ

-- What one call draws: the clock, a new token, a `uuid4`, a salted password hash, a signed token.
pub record Moment : Type 0 where
  pub now : ℕ
  pub opaque_token : Text
  pub uuid : Text
  pub hash_password : Text → Text
  pub create_access_token : ℕ → Text

pub record IssuedTokens : Type 0 where
  pub access_token : Text
  pub refresh_token : Text
  pub account : User

-- The exceptions; the last two are those of the database that the service does not catch.
pub data AuthError : Type 0 where
  forbidden no_invitation invalid_invitation identifier_in_use : AuthError
  invalid_credentials no_session invalid_refresh_token : AuthError
  authentication_required admin_already_exists : AuthError
  integrity_error multiple_results : AuthError

-- What a call raised or returned, and the tables after it.
abbrev pub Outcome {ℓ} : Type ℓ → Type ℓ
Outcome A = Result AuthError A × Accounts
