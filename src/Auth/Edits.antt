-- ===== src/Auth/Edits.antt =====
-- What each call does to the accounts and the invitations.
use apanel.Base.{
  Text, ℕ, ◌≡◌, refl, inl, inr, false, not, ◌&&◌, Option, none, some, List, [], ◌∷◌, ◌++◌, ltb,
  Option-cases, is_some, if-split,
}
use apanel.Base.Texts.{lower, is_empty}
use apanel.Auth.Records.{
  Outcome, user_role, UserStatus, accepted, expired, User, Invitation, RefreshSession, Accounts,
  Security, Moment,
}
use apanel.Auth.Sessions.{
  find_session, find_user, is_active, is_stale, rotate, refresh_session, refresh_tokens, logout,
  issue_tokens,
}
use apanel.Auth.Accounts.{
  normalize, is_admin, find_invitation, set_invitation, create_invitation, is_reserved, matches,
  single, authenticate, count_admins, IdentifierType,
}
use apanel.Auth.Steps.{with_status}

-- A new account under two reserved identifiers.
abbrev pub Joins : Text → Text → User → List User → Type 0
Joins username email r us =
    (is_reserved username email us ≡ false)
    × (lower r.username ≡ normalize username)
    × (lower r.email ≡ lower email)

pub data Edit (us : List User) (is : List Invitation) : List User → List Invitation → Type 0 where
  untouched : Edit us is us is
  offered :
      (i : Invitation) (mailbox : Text) → i.email ≡ normalize mailbox → Edit us is us (is ++ i ∷ [])
  lapsed : (h : Text) (at : Option ℕ) → Edit us is us (set_invitation expired at h is)
  joined :
      (h login : Text) (i : Invitation) (r : User) (at : Option ℕ)
      → find_invitation h is ≡ some i
      → Joins login i.email r us
      → r.role ≡ user_role
      → Edit us is (us ++ r ∷ []) (set_invitation accepted at i.token_hash is)
  founded :
      (login mailbox : Text) (r : User)
      → is_reserved login mailbox us ≡ false
      → lower r.username ≡ normalize login
      → r.email ≡ normalize mailbox
      → ltb 0 (count_admins us) ≡ false
      → Edit us is (us ++ r ∷ []) is
  restated : (n : ℕ) (st : UserStatus) → Edit us is (with_status n st us) is

abbrev pub EditOf : Accounts → Accounts → Type 0
EditOf db after = Edit db.users db.invitations after.users after.invitations

abbrev pub Edits {ℓ} : {A : Type ℓ} → Accounts → Outcome A → Type 0
Edits db out = EditOf db out.1

rotate-Edits :
    (c : Security) (m : Moment) (s : RefreshSession) (u : User) (db : Accounts)
    → Edits db (rotate c m s u db)
unfolding rotate
rotate-Edits c m s u db =
    if-split (Edits db) (is_some (find_session (c.hash_opaque_token m.opaque_token) db.sessions)) _
      _ (λ _. untouched) λ _. untouched

refresh_session-Edits :
    (c : Security) (m : Moment) (s : RefreshSession) (db : Accounts)
    → Edits db (refresh_session c m s db)
unfolding refresh_session
refresh_session-Edits c m s db =
    if-split (Edits db) (is_stale m.now s) _ _ (λ _. untouched)
      λ _. elim (Option-cases (find_user s.user_id db.users)) [
        | inl nobody ↦ rw (nobody, refresh_session) untouched
        | inr (u, known) ↦
            rw (known, refresh_session)
              (if-split (Edits db) (is_active u.status) _ _ (λ _. rotate-Edits c m s u db)
                λ _. untouched)
      ]

pub refresh_tokens-Edits :
    (c : Security) (m : Moment) (raw : Text) (db : Accounts) → Edits db (refresh_tokens c m raw db)
unfolding refresh_tokens
refresh_tokens-Edits c m raw db =
    if-split (Edits db) (is_empty raw) _ _ (λ _. untouched)
      λ _. elim (Option-cases (find_session (c.hash_opaque_token raw) db.sessions)) [
        | inl unknown ↦ rw unknown untouched
        | inr (s, found) ↦ rw found (refresh_session-Edits c m s db)
      ]

pub logout-Edits :
    (c : Security) (m : Moment) (raw : Option Text) (db : Accounts) → EditOf db (logout c m raw db)
unfolding logout
logout-Edits c m none db = untouched
logout-Edits c m (some raw) db =
    if-split {A = Accounts} (EditOf db) (is_empty raw) _ _ (λ _. untouched)
      λ _. elim (Option-cases (find_session (c.hash_opaque_token raw) db.sessions)) [
        | inl unknown ↦ rw unknown untouched
        | inr (s, found) ↦ rw found untouched
      ]

issue_tokens-Edits :
    (c : Security) (m : Moment) (u : User) (db : Accounts) → Edits db (issue_tokens c m u db)
unfolding issue_tokens
issue_tokens-Edits c m u db =
    if-split (Edits db) (is_some (find_session (c.hash_opaque_token m.opaque_token) db.sessions)) _
      _ (λ _. untouched) λ _. untouched

pub authenticate-Edits :
    (c : Security) (m : Moment) (k : IdentifierType) (name password : Text) (db : Accounts)
    → Edits db (authenticate c m k name password db)
unfolding authenticate
authenticate-Edits c m k name password db =
    elim (Option-cases (single (matches k (normalize name) db.users))) [
      | inl nobody ↦ rw (nobody, authenticate) untouched
      | inr (u, known) ↦
          rw (known, authenticate)
            (if-split (Edits db) (c.verify_password password u.password_hash && is_active u.status)
              _ _ (λ _. issue_tokens-Edits c m u db) λ _. untouched)
    ]

pub create_invitation-Edits :
    (c : Security) (m : Moment) (email : Text) (creator : User) (db : Accounts)
    → Edits db (create_invitation c m email creator db)
unfolding create_invitation
create_invitation-Edits c m email creator db =
    if-split (Edits db) (not (is_active creator.status && is_admin creator.role)) _ _
      (λ _. untouched)
      λ _.
        if-split (Edits db)
          (is_some (find_invitation (c.hash_opaque_token m.opaque_token) db.invitations)) _ _
          (λ _. untouched) λ _. offered _ email refl
