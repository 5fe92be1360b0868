-- ===== src/Auth/Accounts.antt =====
-- The calls on invitations and accounts.
use apanel.Base.{
  nat_equality, bool_equality, pair_equality, option_equality, ◌=?◌, Text, text_equality, ℕ, ◌+◌,
  Bool, true, false, not, ◌&&◌, ◌||◌, Option, none, some, List, [], ◌∷◌, ◌++◌, ltb, leb,
  if◌then◌else◌, is_some, any, err, ok,
}
use apanel.Base.Texts.{strip, lower, is_empty}
use apanel.Auth.Records.{
  Outcome, UserRole, admin_role, user_role, active, InvitationStatus, pending, accepted, expired,
  User, Invitation, InstallationSetup, Accounts, Security, Moment, IssuedTokens, forbidden,
  no_invitation, invalid_invitation, identifier_in_use, invalid_credentials, admin_already_exists,
  multiple_results,
}
use apanel.Auth.Sessions.{is_active, issue_tokens}

-- `normalize_identifier`
unfoldable pub normalize : Text → Text
unfolding lower strip
normalize t = lower (strip t)

unfoldable pub is_admin : UserRole → Bool
is_admin admin_role = true
is_admin user_role = false

unfoldable pub is_pending : InvitationStatus → Bool
is_pending pending = true
is_pending _ = false

-- One of the two login names of the account, in lower case, is `x`.
unfoldable pub answers_to : Text → User → Bool
unfolding lower
answers_to x u = lower u.username =? x || lower u.email =? x

unfoldable pub find_invitation : Text → List Invitation → Option Invitation
find_invitation h [] = none
find_invitation h (i ∷ is) =
    let rest = find_invitation h is in if i.token_hash =? h then some i else rest

unfoldable pub set_invitation :
    InvitationStatus → Option ℕ → Text → List Invitation → List Invitation
set_invitation st at h [] = []
set_invitation st at h (i ∷ is) =
    let rest = set_invitation st at h is in
    (if i.token_hash =? h then record i { status = st; accepted_at = at } else i) ∷ rest

-- `create_invitation`, by the account that asks for it
unfoldable pub create_invitation : Security → Moment → Text → User → Accounts → Outcome Text
unfolding normalize is_admin is_active find_invitation
create_invitation c m email creator db =
    if not (is_active creator.status && is_admin creator.role)
    then (err forbidden, db)
    else let h = c.hash_opaque_token m.opaque_token in
      if is_some (find_invitation h db.invitations) then (err no_invitation, db) else (
        ok m.opaque_token,
        record db {
          invitations =
              db.invitations
              ++ record {
                email = normalize email;
                token_hash = h;
                status = pending;
                created_by = creator.id;
                expires_at = m.now + c.invitation_ttl_seconds;
                accepted_at = none;
              }
                ∷ [];
        },
      )

-- `_reserve_login_identifiers`: no account answers to one of the two
unfoldable pub is_reserved : Text → Text → List User → Bool
unfolding normalize answers_to
is_reserved username email us =
    any (λ u. answers_to (normalize username) u || answers_to (normalize email) u) us

-- The unique indexes on the lower-case name and on the lower-case address.
unfoldable pub is_duplicate : User → List User → Bool
unfolding lower
is_duplicate new us =
    any (λ u. lower u.username =? lower new.username || lower u.email =? lower new.email) us

-- `_reserve_login_identifiers` and the flush of the new account
unfoldable pub add_user : Text → Text → User → Accounts → Outcome User
unfolding is_reserved is_duplicate
add_user username email new db =
    if is_reserved username email db.users || is_duplicate new db.users
    then (err identifier_in_use, db)
    else (ok new, record db { users = db.users ++ new ∷ []; next_id = db.next_id + 1 })

unfoldable pub registered_user : Moment → Text → Text → Invitation → ℕ → User
unfolding strip
registered_user m username password i n = record {
  id = n;
  username = strip username;
  email = i.email;
  password_hash = m.hash_password password;
  role = user_role;
  status = active;
  invited_by = some i.created_by;
}

abbrev pub same_address : Option Text → Text → Bool
same_address none email = true
same_address (some given) email = is_empty given || normalize given =? normalize email

-- The end of a registration by a valid invitation. An exception rolls everything back.
unfoldable pub accept_invitation : Moment → Text → Text → Invitation → Accounts → Outcome User
unfolding registered_user add_user set_invitation
accept_invitation m username password i db =
    let new = registered_user m username password i db.next_id in
    let done = add_user username i.email new db in
    elim done.0 [
      | err x ↦ (err x, db)
      | ok u ↦ (
        ok u,
        record done.1 {
          invitations = set_invitation accepted (some m.now) i.token_hash db.invitations;
        },
      )
    ]

unfoldable pub use_invitation :
    Moment → Text → Text → Option Text → Invitation → Accounts → Outcome User
unfolding is_pending normalize accept_invitation
use_invitation m username password given i db =
    if not (is_pending i.status)
    then (err invalid_invitation, db)
    else if leb i.expires_at m.now
    then (
      err invalid_invitation,
      record db { invitations = set_invitation expired i.accepted_at i.token_hash db.invitations },
    )
    else if same_address given i.email
    then accept_invitation m username password i db
    else (err invalid_invitation, db)

unfoldable pub register_user :
    Security → Moment → Text → Text → Text → Option Text → Accounts → Outcome User
unfolding use_invitation find_invitation
register_user c m token username password given db =
    elim (find_invitation (c.hash_opaque_token token) db.invitations) [
      | none ↦ (err invalid_invitation, db)
      | some i ↦ use_invitation m username password given i db
    ]

-- `identifier_type`
pub data IdentifierType : Type 0 where
  by_username by_email automatic : IdentifierType

unfoldable pub is_named : IdentifierType → Text → User → Bool
unfolding answers_to lower
is_named by_username x u = lower u.username =? x
is_named by_email x u = lower u.email =? x
is_named automatic x u = answers_to x u

unfoldable pub matches : IdentifierType → Text → List User → List User
unfolding is_named
matches k x [] = []
matches k x (u ∷ us) = let rest = matches k x us in if is_named k x u then u ∷ rest else rest

-- `matches[0] if len(matches) == 1 else None`
abbrev pub single : List User → Option User
single (u ∷ []) = some u
single _ = none

unfoldable pub authenticate :
    Security → Moment → IdentifierType → Text → Text → Accounts → Outcome IssuedTokens
unfolding matches normalize issue_tokens is_active
authenticate c m k name password db = elim (single (matches k (normalize name) db.users)) [
  | none ↦ (err invalid_credentials, db)
  | some u ↦
      if c.verify_password password u.password_hash && is_active u.status
      then issue_tokens c m u db
      else (err invalid_credentials, db)
]

unfoldable pub count_admins : List User → ℕ
unfolding is_admin
count_admins [] = 0
count_admins (u ∷ us) = (if is_admin u.role then 1 else 0) + count_admins us

-- `_create_first_admin_locked`; the query raises when it finds two administrators
unfoldable pub create_first_admin : Moment → Text → Text → Text → Accounts → Outcome User
unfolding count_admins add_user normalize strip
create_first_admin m username email password db =
    if ltb 0 (count_admins db.users)
    then (
      err (if ltb 1 (count_admins db.users) then multiple_results else admin_already_exists),
      db,
    )
    else add_user username email
        (record {
          id = db.next_id;
          username = strip username;
          email = normalize email;
          password_hash = m.hash_password password;
          role = admin_role;
          status = active;
          invited_by = none;
        })
        db

abbrev pub is_complete : Option InstallationSetup → Bool
is_complete none = false
is_complete (some s) = is_some s.completed_at

-- An exception rolls everything back.
unfoldable pub bootstrap_admin : Moment → Text → Text → Text → Accounts → Outcome User
unfolding create_first_admin
bootstrap_admin m username email password db =
    if is_complete db.setup
    then (err admin_already_exists, db)
    else let done = create_first_admin m username email password db in
      elim done.0 [
        | err x ↦ (err x, db)
        | ok u ↦ (
          ok u,
          record done.1 { setup = some (record { token_hash = none; completed_at = some m.now }) },
        )
      ]
