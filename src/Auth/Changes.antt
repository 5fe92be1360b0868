-- ===== src/Auth/Changes.antt =====
-- Proofs on what each call does to the refresh sessions.
use mathlib.Core.Path.{subst}
use apanel.Base.{
  nat_equality, bool_equality, pair_equality, option_equality, ◌=?◌, Text, text_equality, ℕ, ◌≡◌,
  refl, sym, ◌⊎◌, inl, inr, true, false, not, ◌&&◌, ◌||◌, Option, none, some, List, [], ◌∷◌, arith,
  ltb, leb, Option-cases, is_some, if-split, Result-cases,
}
use apanel.Base.Texts.{is_empty}
use apanel.Auth.Records.{Outcome, User, Invitation, RefreshSession, Accounts, Security, Moment}
use apanel.Auth.Sessions.{
  find_session, find_user, is_active, new_session, is_stale, rotate, refresh_session,
  refresh_tokens, logout, issue_tokens,
}
use apanel.Auth.Accounts.{
  normalize, is_admin, is_pending, find_invitation, create_invitation, is_reserved, is_duplicate,
  add_user, registered_user, same_address, accept_invitation, use_invitation, register_user,
  matches, single, authenticate, count_admins, create_first_admin, is_complete, bootstrap_admin,
  IdentifierType,
}
use apanel.Auth.Steps.{
  is_live, members, Step, signed_in, refreshed, signed_out, has_invited, registered, bootstrapped,
  status_set, Change, kept, closed, rotated, opened,
}

pub find_session-token_hash :
    (h : Text) (ss : List RefreshSession) (s : RefreshSession)
    → find_session h ss ≡ some s
    → s.token_hash ≡ h
unfolding find_session
find_session-token_hash h [] s e = ground (arith, e)
find_session-token_hash h (x ∷ ss) s e =
    ground (arith, e, find_session-token_hash h ss s, text_equality.test_iff x.token_hash h)

-- The row that is found is the first one, or one after it.
pub found_in :
    (h : Text) (x : RefreshSession) (ss : List RefreshSession) (s : RefreshSession)
    → find_session h (x ∷ ss) ≡ some s
    → (((x.token_hash =? h) ≡ true) × (x ≡ s))
      ⊎ (((x.token_hash =? h) ≡ false) × (find_session h ss ≡ some s))
unfolding find_session
found_in h x ss s e = ground (arith, e)

pub not_stale-is_live : (now : ℕ) (s : RefreshSession) → is_stale now s ≡ false → is_live s ≡ true
unfolding is_stale
not_stale-is_live now s e = ground (arith, e)

pub is_absent :
    (h : Text) (ss : List RefreshSession)
    → is_some (find_session h ss) ≡ false
    → find_session h ss ≡ none
is_absent h ss e = ground (arith, e)

-- What a call does to the sessions.
abbrev Changes {ℓ} : {A : Type ℓ} → Accounts → Outcome A → Type 0
Changes db out = Change db.sessions out.1.sessions

rotate-Changes :
    (c : Security) (m : Moment) (s : RefreshSession) (u : User) (db : Accounts)
    → find_session s.token_hash db.sessions ≡ some s
    → is_live s ≡ true
    → Changes db (rotate c m s u db)
unfolding rotate new_session
rotate-Changes c m s u db found live =
    let next = c.hash_opaque_token m.opaque_token in
    if-split (Changes db) (is_some (find_session next db.sessions)) _ _ (λ _. kept)
      λ fresh.
        rotated s (new_session c m u.id s.family_id) m.now found live
          (is_absent next db.sessions fresh) refl

refresh_session-Changes :
    (c : Security) (m : Moment) (s : RefreshSession) (db : Accounts)
    → find_session s.token_hash db.sessions ≡ some s
    → Changes db (refresh_session c m s db)
unfolding refresh_session
refresh_session-Changes c m s db found =
    if-split (Changes db) (is_stale m.now s) _ _ (λ _. closed s.family_id m.now)
      λ fresh. elim (Option-cases (find_user s.user_id db.users)) [
        | inl nobody ↦ rw nobody (closed s.family_id m.now)
        | inr (u, known) ↦ rw known (
            if-split (Changes db) (is_active u.status) _ _
              (λ _. rotate-Changes c m s u db found (not_stale-is_live m.now s fresh))
              λ _. closed s.family_id m.now)
      ]

refresh_tokens-Changes :
    (c : Security) (m : Moment) (raw : Text) (db : Accounts)
    → Changes db (refresh_tokens c m raw db)
unfolding refresh_tokens
refresh_tokens-Changes c m raw db =
    let h = c.hash_opaque_token raw in
    if-split (Changes db) (is_empty raw) _ _ (λ _. kept)
      λ _. elim (Option-cases (find_session h db.sessions)) [
        | inl unknown ↦ rw unknown kept
        | inr (s, found) ↦ rw found (
            refresh_session-Changes c m s db (
              subst (λ t. find_session t db.sessions ≡ some s)
                (sym (find_session-token_hash h db.sessions s found)) found))
      ]

logout-Changes :
    (c : Security) (m : Moment) (raw : Option Text) (db : Accounts)
    → Change db.sessions (logout c m raw db).sessions
unfolding logout
logout-Changes c m none db = kept
logout-Changes c m (some raw) db =
    if-split {A = Accounts} (λ out. Change db.sessions out.sessions) (is_empty raw) _ _ (λ _. kept)
      λ _. elim (Option-cases (find_session (c.hash_opaque_token raw) db.sessions)) [
        | inl unknown ↦ rw unknown kept
        | inr (s, found) ↦ rw found (closed s.family_id m.now)
      ]

issue_tokens-Changes :
    (c : Security) (m : Moment) (u : User) (db : Accounts)
    → members m.uuid db.sessions ≡ 0
    → Changes db (issue_tokens c m u db)
unfolding issue_tokens new_session
issue_tokens-Changes c m u db fresh =
    let h = c.hash_opaque_token m.opaque_token in
    if-split (Changes db) (is_some (find_session h db.sessions)) _ _ (λ _. kept)
      λ unknown. opened (new_session c m u.id m.uuid) (is_absent h db.sessions unknown) fresh

authenticate-Changes :
    (c : Security) (m : Moment) (k : IdentifierType) (name password : Text) (db : Accounts)
    → members m.uuid db.sessions ≡ 0
    → Changes db (authenticate c m k name password db)
unfolding authenticate
authenticate-Changes c m k name password db fresh =
    elim (Option-cases (single (matches k (normalize name) db.users))) [
      | inl nobody ↦ rw (nobody, authenticate) kept
      | inr (u, known) ↦
          rw (known, authenticate)
            (if-split (Changes db)
              (c.verify_password password u.password_hash && is_active u.status) _ _
              (λ _. issue_tokens-Changes c m u db fresh) λ _. kept)
    ]

-- The calls on invitations and accounts leave the sessions as they are.
abbrev Leaves {ℓ} : {A : Type ℓ} → Accounts → Outcome A → Type 0
Leaves db out = out.1.sessions ≡ db.sessions

create_invitation-Leaves :
    (c : Security) (m : Moment) (email : Text) (creator : User) (db : Accounts)
    → Leaves db (create_invitation c m email creator db)
unfolding create_invitation
create_invitation-Leaves c m email creator db =
    if-split (Leaves db) (not (is_active creator.status && is_admin creator.role)) _ _ (λ _. refl)
      λ _.
        if-split (Leaves db)
          (is_some (find_invitation (c.hash_opaque_token m.opaque_token) db.invitations)) _ _
          (λ _. refl) λ _. refl

add_user-Leaves :
    (username email : Text) (new : User) (db : Accounts)
    → Leaves db (add_user username email new db)
unfolding add_user
add_user-Leaves username email new db =
    if-split (Leaves db) (is_reserved username email db.users || is_duplicate new db.users) _ _
      (λ _. refl) λ _. refl

accept_invitation-Leaves :
    (m : Moment) (username password : Text) (i : Invitation) (db : Accounts)
    → Leaves db (accept_invitation m username password i db)
unfolding accept_invitation
accept_invitation-Leaves m username password i db =
    let new = registered_user m username password i db.next_id in
    elim (Result-cases (add_user username i.email new db).0) [
      | inl (x, raised) ↦ rw (raised, accept_invitation) refl
      | inr (u, added) ↦ rw (added, accept_invitation) (add_user-Leaves username i.email new db)
    ]

register_user-Leaves :
    (c : Security) (m : Moment) (token username password : Text) (given : Option Text)
    (db : Accounts)
    → Leaves db (register_user c m token username password given db)
unfolding register_user use_invitation
register_user-Leaves c m token username password given db =
    elim (Option-cases (find_invitation (c.hash_opaque_token token) db.invitations)) [
      | inl unknown ↦ rw (unknown, register_user) refl
      | inr (i, found) ↦
          rw (found, register_user)
            (if-split (Leaves db) (not (is_pending i.status)) _ _ (λ _. refl)
              λ _.
                if-split (Leaves db) (leb i.expires_at m.now) _ _ (λ _. refl)
                  λ _.
                    if-split (Leaves db) (same_address given i.email) _ _
                      (λ _. accept_invitation-Leaves m username password i db) λ _. refl)
    ]

bootstrap_admin-Leaves :
    (m : Moment) (username email password : Text) (db : Accounts)
    → Leaves db (bootstrap_admin m username email password db)
unfolding bootstrap_admin create_first_admin
bootstrap_admin-Leaves m username email password db =
    if-split (Leaves db) (is_complete db.setup) _ _ (λ _. refl)
      λ _. elim (Result-cases (create_first_admin m username email password db).0) [
        | inl (x, raised) ↦ rw (raised, bootstrap_admin) refl
        | inr (u, added) ↦
            rw (added, bootstrap_admin)
              (if-split (Leaves db) (ltb 0 (count_admins db.users)) _ _ (λ _. refl)
                λ _. add_user-Leaves username email _ db)
      ]

leaves : (ss new : List RefreshSession) → new ≡ ss → Change ss new
leaves ss new e = subst (Change ss) (sym e) kept

pub call_change :
    (c : Security) (db after : Accounts) → Step c db after → Change db.sessions after.sessions
call_change c db _ (signed_in m k name password fresh) =
    authenticate-Changes c m k name password db fresh
call_change c db _ (refreshed m raw) = refresh_tokens-Changes c m raw db
call_change c db _ (signed_out m raw) = logout-Changes c m raw db
call_change c db _ (has_invited m email creator) =
    leaves db.sessions _ (create_invitation-Leaves c m email creator db)
call_change c db _ (registered m token username password given) =
    leaves db.sessions _ (register_user-Leaves c m token username password given db)
call_change c db _ (bootstrapped m username email password) =
    leaves db.sessions _ (bootstrap_admin-Leaves m username email password db)
call_change c db _ (status_set n st) = kept
