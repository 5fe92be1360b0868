-- ===== src/Auth/Examples.antt =====
-- Runs of the authentication service, and the theorems at concrete inputs.
use apanel.Base.{
  nat_equality, bool_equality, pair_equality, option_equality, ◌=?◌, text_equality, ℕ, ◌≤◌, ◌≡◌,
  refl, true, none, some, [], ◌∷◌, arith, length, err,
}
use apanel.Base.Texts.{text}
use apanel.Auth.Records.{
  admin_role, user_role, active, User, RefreshSession, Accounts, Security, Moment,
  invalid_invitation, invalid_refresh_token,
}
use apanel.Auth.Sessions.{
  find_session, find_user, revoke_family, tokens_of, is_enabled, refresh_tokens, logout,
}
use apanel.Auth.Accounts.{
  create_invitation, register_user, matches, authenticate, count_admins, bootstrap_admin, automatic,
}
use apanel.Auth.Steps.{
  live_in, members, signed_in, refreshed, has_invited, registered, bootstrapped, Steps, start,
  later,
}
use apanel.Auth.Reuse.{steps-IsSingle}
use apanel.Auth.Replay.{refresh_tokens-accepted_once, replay_closes, logout_closes}
use apanel.Auth.Chain.{present, current, copies, IsSound}
use apanel.Auth.Refines.{Agrees, refresh_tokens-refines}
use apanel.Auth.Sound.{steps-IsSound}
use apanel.Auth.Identifiers.{steps-unambiguous}
use apanel.Auth.Invitations.{register_user-used_once, steps-one_admin}

-- A hash that is injective, and a password that is its own.
abbrev settings : Security
settings = record {
  hash_opaque_token = λ t. 35 ∷ t;
  verify_password = λ p h. p =? h;
  refresh_token_ttl_seconds = 100;
  invitation_ttl_seconds = 50;
}

-- The call at second `n` draws tokens that are told apart by `n`.
abbrev at_second : ℕ → Moment
at_second n = record {
  now = n;
  opaque_token = n ∷ [];
  uuid = 117 ∷ n ∷ [];
  hash_password = λ p. p;
  create_access_token = λ i. i ∷ n ∷ [];
}

abbrev empty_tables : Accounts
empty_tables = record { users = []; invitations = []; sessions = []; setup = none; next_id = 1 }

abbrev founder : User
founder = record {
  id = 1;
  username = text "Ann";
  email = text "ann@a";
  password_hash = text "secret";
  role = admin_role;
  status = active;
  invited_by = none;
}

abbrev with_admin : Accounts
with_admin =
    (bootstrap_admin (at_second 1) (text " Ann") (text "ANN@a") (text "secret") empty_tables).1

abbrev with_invitation : Accounts
with_invitation = (create_invitation settings (at_second 2) (text "Bob@b ") founder with_admin).1

abbrev with_bob : Accounts
with_bob =
    (register_user settings (at_second 3) (2 ∷ []) (text "bob") (text "pw") none with_invitation).1

abbrev signed : Accounts
signed = (authenticate settings (at_second 4) automatic (text "BOB") (text "pw") with_bob).1

abbrev rotated_once : Accounts
rotated_once = (refresh_tokens settings (at_second 5) (4 ∷ []) signed).1

with_admin_lem : with_admin.users ≡ founder ∷ []
unfolding bootstrap_admin
with_admin_lem = refl

abbrev bob : User
bob = record {
  id = 2;
  username = text "bob";
  email = text "bob@b";
  password_hash = text "pw";
  role = user_role;
  status = active;
  invited_by = some 1;
}

with_bob_lem : with_bob.users ≡ founder ∷ bob ∷ []
unfolding register_user create_invitation bootstrap_admin
with_bob_lem = refl

no_session_yet : with_bob.sessions ≡ []
unfolding register_user create_invitation bootstrap_admin
no_session_yet = refl

-- The session that the login opened, and the one that replaced it.
abbrev opened_row : RefreshSession
opened_row = record {
  user_id = 2;
  token_hash = 35 ∷ 4 ∷ [];
  family_id = 117 ∷ 4 ∷ [];
  issued_at = 4;
  expires_at = 104;
  used_at = none;
  revoked_at = none;
  replaced_by_hash = none;
}

abbrev replacing_row : RefreshSession
replacing_row = record opened_row { token_hash = 35 ∷ 5 ∷ []; issued_at = 5; expires_at = 105 }

signed_lem : signed.sessions ≡ opened_row ∷ []
unfolding authenticate register_user create_invitation bootstrap_admin find_session
signed_lem = refl

rotated_once_lem :
    rotated_once.sessions
    ≡ (record opened_row { used_at = some 5; replaced_by_hash = some (35 ∷ 5 ∷ []) })
      ∷ replacing_row
      ∷ []
unfolding refresh_tokens authenticate register_user create_invitation bootstrap_admin find_user
rotated_once_lem = refl

-- An administrator, an invitation, a registration, a login and a refresh.
steps_to_bob : Steps settings empty_tables with_bob
steps_to_bob =
    later
      (later (later start (bootstrapped (at_second 1) (text " Ann") (text "ANN@a") (text "secret")))
        (has_invited (at_second 2) (text "Bob@b ") founder))
      (registered (at_second 3) (2 ∷ []) (text "bob") (text "pw") none)

steps_to_rotated : Steps settings empty_tables rotated_once
unfolding register_user create_invitation bootstrap_admin members
steps_to_rotated =
    later (later steps_to_bob (signed_in (at_second 4) automatic (text "BOB") (text "pw") refl))
      (refreshed (at_second 5) (4 ∷ []))

steps-IsSingle_example : live_in (117 ∷ 4 ∷ []) rotated_once.sessions ≤ 1
steps-IsSingle_example =
    steps-IsSingle settings empty_tables rotated_once (117 ∷ 4 ∷ []) refl steps_to_rotated

steps-unambiguous_example : length (matches automatic (text "bob@b") rotated_once.users) ≤ 1
steps-unambiguous_example =
    steps-unambiguous settings empty_tables rotated_once automatic (text "bob@b") refl refl
      steps_to_rotated

steps-one_admin_example : count_admins rotated_once.users ≤ 1
steps-one_admin_example = steps-one_admin settings empty_tables rotated_once refl steps_to_rotated

register_user-used_once_example :
    (register_user settings (at_second 6) (2 ∷ []) (text "eve") (text "x") none signed).0
    ≡ err invalid_invitation
unfolding register_user create_invitation bootstrap_admin members
register_user-used_once_example =
    register_user-used_once settings (at_second 3) (at_second 6) (2 ∷ []) (text "bob") (text "pw")
      (text "eve") (text "x") none none with_invitation signed bob refl
      (later start (signed_in (at_second 4) automatic (text "BOB") (text "pw") refl))

-- Bob's first token is presented again at second 6; the one he got for it is lost.
abbrev replayed : Accounts
replayed = (refresh_tokens settings (at_second 6) (4 ∷ []) rotated_once).1

refresh_tokens-accepted_once_example :
    (refresh_tokens settings (at_second 6) (4 ∷ []) rotated_once).0 ≡ err invalid_refresh_token
unfolding refresh_tokens authenticate register_user create_invitation bootstrap_admin find_user
refresh_tokens-accepted_once_example =
    refresh_tokens-accepted_once settings (at_second 5) (at_second 6) (4 ∷ []) signed rotated_once
      (tokens_of (at_second 5) bob) refl start

replay_closes_example :
    (refresh_tokens settings (at_second 7) (5 ∷ []) replayed).0 ≡ err invalid_refresh_token
unfolding refresh_tokens authenticate register_user create_invitation bootstrap_admin find_session
    find_user revoke_family
replay_closes_example =
    replay_closes settings (at_second 5) (at_second 6) (at_second 7) (4 ∷ []) (5 ∷ []) signed
      rotated_once replayed (tokens_of (at_second 5) bob)
      (record opened_row { used_at = some 5; replaced_by_hash = some (35 ∷ 5 ∷ []) })
      (record replacing_row { revoked_at = some 6 }) refl start refl start refl refl

logout_closes_example :
    (refresh_tokens settings
      (at_second 7)
      (5 ∷ [])
      (logout settings (at_second 6) (some (4 ∷ [])) rotated_once)).0
    ≡ err invalid_refresh_token
unfolding refresh_tokens authenticate register_user create_invitation bootstrap_admin find_session
    find_user revoke_family logout
logout_closes_example =
    logout_closes settings (at_second 6) (at_second 7) (4 ∷ []) (5 ∷ []) rotated_once
      (logout settings (at_second 6) (some (4 ∷ [])) rotated_once)
      (record opened_row { used_at = some 5; replaced_by_hash = some (35 ∷ 5 ∷ []) })
      (record replacing_row { revoked_at = some 6 }) refl refl start refl refl

empty-IsSound : IsSound []
unfolding live_in copies
empty-IsSound = (λ f. ground arith, λ h. ground arith)

refresh_tokens-refines_example :
    Agrees rotated_once replacing_row
      (117 ∷ 4 ∷ [])
      (true, some (35 ∷ 6 ∷ []))
      (refresh_tokens settings (at_second 6) (5 ∷ []) rotated_once)
unfolding refresh_tokens authenticate register_user create_invitation bootstrap_admin find_session
    find_user revoke_family present current is_enabled
refresh_tokens-refines_example =
    refresh_tokens-refines settings (at_second 6) (5 ∷ []) rotated_once replacing_row (117 ∷ 4 ∷ [])
      (steps-IsSound settings empty_tables rotated_once empty-IsSound steps_to_rotated) refl refl
      refl
