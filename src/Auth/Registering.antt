-- ===== src/Auth/Registering.antt =====
-- What a registration and the creation of the first administrator do to the accounts; and so, what
-- any call does.
use apanel.Base.{
  Text, ◌+◌, ◌≡◌, refl, ap, inl, inr, false, not, ◌||◌, Option, some, List, [], ◌∷◌, ◌++◌, arith,
  ltb, leb, Bool-cases, Option-cases, if-split, Result-cases, err, ok,
}
use apanel.Auth.Records.{Outcome, User, Invitation, Accounts, Security, Moment, identifier_in_use}
use apanel.Auth.Accounts.{
  normalize, is_pending, find_invitation, is_reserved, is_duplicate, add_user, registered_user,
  same_address, accept_invitation, use_invitation, register_user, count_admins, create_first_admin,
  is_complete, bootstrap_admin,
}
use apanel.Auth.Steps.{
  Step, signed_in, refreshed, signed_out, has_invited, registered, bootstrapped, status_set, Steps,
  start, later,
}
use apanel.Auth.Edits.{
  EditOf, Edits, refresh_tokens-Edits, logout-Edits, authenticate-Edits, create_invitation-Edits,
  Edit, untouched, lapsed, joined, founded, restated,
}

-- An account is added under reserved identifiers only.
add_user-added :
    (username email : Text) (r u : User) (db : Accounts)
    → (add_user username email r db).0 ≡ ok u
    → (is_reserved username email db.users ≡ false)
      × ((add_user username email r db).1
          ≡ record db { users = db.users ++ r ∷ []; next_id = db.next_id + 1 })
unfolding add_user
add_user-added username email r u db added =
    let taken = is_reserved username email db.users || is_duplicate r db.users in
    elim (Bool-cases taken) [
      | inl conflict ↦
          let refused : (add_user username email r db).0 ≡ err identifier_in_use =
            rw (conflict, add_user) refl in
          cc (refused, added)
      | inr free ↦ (ground (arith, free), rw (free, add_user) refl)
    ]

accept_invitation-Edits :
    (m : Moment) (h username password : Text) (i : Invitation) (db : Accounts)
    → find_invitation h db.invitations ≡ some i
    → Edits db (accept_invitation m username password i db)
unfolding accept_invitation registered_user normalize
accept_invitation-Edits m h username password i db found =
    let r = registered_user m username password i db.next_id in
    elim (Result-cases (add_user username i.email r db).0) [
      | inl (x, raised) ↦ rw (raised, accept_invitation) untouched
      | inr (u, added) ↦
          let (free, out) = add_user-added username i.email r u db added in
          rw (added, accept_invitation)
            (rw (ap (λ d. d.users) out)
              (joined h username i r (some m.now) found (free, refl, refl) refl))
    ]

register_user-Edits :
    (c : Security) (m : Moment) (token username password : Text) (given : Option Text)
    (db : Accounts)
    → Edits db (register_user c m token username password given db)
unfolding register_user use_invitation
register_user-Edits c m token username password given db =
    let h = c.hash_opaque_token token in
    elim (Option-cases (find_invitation h db.invitations)) [
      | inl unknown ↦ rw (unknown, register_user) untouched
      | inr (i, found) ↦
          rw (found, register_user)
            (if-split (Edits db) (not (is_pending i.status)) _ _ (λ _. untouched)
              λ _.
                if-split (Edits db) (leb i.expires_at m.now) _ _
                  (λ _. lapsed i.token_hash i.accepted_at)
                  λ _.
                    if-split (Edits db) (same_address given i.email) _ _
                      (λ _. accept_invitation-Edits m h username password i db found)
                      λ _. untouched)
    ]

create_first_admin-founds :
    (m : Moment) (username email password : Text) (u : User) (db : Accounts)
    → (create_first_admin m username email password db).0 ≡ ok u
    → Edits db (create_first_admin m username email password db)
unfolding create_first_admin normalize
create_first_admin-founds m username email password u db =
    if-split {A = Outcome User} (λ out. out.0 ≡ ok u → Edits db out) (ltb 0 (count_admins db.users))
      _ _ (λ _ e. untouched)
      λ first added.
        let (free, out) = add_user-added username email _ u db added in
        rw out (founded username email _ free refl refl first)

bootstrap_admin-Edits :
    (m : Moment) (username email password : Text) (db : Accounts)
    → Edits db (bootstrap_admin m username email password db)
unfolding bootstrap_admin
bootstrap_admin-Edits m username email password db =
    if-split (Edits db) (is_complete db.setup) _ _ (λ _. untouched)
      λ _. elim (Result-cases (create_first_admin m username email password db).0) [
        | inl (x, raised) ↦ rw (raised, bootstrap_admin) untouched
        | inr (u, added) ↦
            rw (added, bootstrap_admin)
              (create_first_admin-founds m username email password u db added)
      ]

pub call_edit : (c : Security) (db after : Accounts) → Step c db after → EditOf db after
call_edit c db _ (signed_in m k name password _) = authenticate-Edits c m k name password db
call_edit c db _ (refreshed m raw) = refresh_tokens-Edits c m raw db
call_edit c db _ (signed_out m raw) = logout-Edits c m raw db
call_edit c db _ (has_invited m email creator) = create_invitation-Edits c m email creator db
call_edit c db _ (registered m token username password given) =
    register_user-Edits c m token username password given db
call_edit c db _ (bootstrapped m username email password) =
    bootstrap_admin-Edits m username email password db
call_edit c db _ (status_set n st) = restated n st

-- What every edit keeps, every sequence of calls keeps.
pub steps-keep_accounts :
    (P : List User → List Invitation → Type 0)
    → ((us vs : List User) (is js : List Invitation) → Edit us is vs js → P us is → P vs js)
    → (c : Security) (db after : Accounts) → Steps c db after
    → P db.users db.invitations
    → P after.users after.invitations
steps-keep_accounts P keep c db _ start h = h
steps-keep_accounts P keep c db after (later {x} steps step) h =
    keep x.users after.users x.invitations after.invitations (call_edit c x after step)
      (steps-keep_accounts P keep c db x steps h)
