-- ===== src/Auth/Invitations.antt =====
-- Proofs on the use of invitations, and on the number of administrators.
use apanel.Base.{
  nat_equality, bool_equality, pair_equality, option_equality, ◌=?◌, Text, text_equality, ℕ, ◌+◌,
  ◌≤◌, ◌≡◌, refl, sym, ap, ◌∙◌, ◌⊎◌, inl, inr, Bool, true, false, not, Option, some, List, [], ◌∷◌,
  ◌++◌, arith, leb, if◌then◌else◌, Option-cases, if-split, Result-cases, err, ok,
}
use apanel.Auth.Records.{
  Outcome, UserStatus, InvitationStatus, accepted, expired, User, Invitation, Accounts, Security,
  Moment, invalid_invitation,
}
use apanel.Auth.Accounts.{
  is_admin, is_pending, find_invitation, set_invitation, add_user, registered_user, same_address,
  accept_invitation, use_invitation, register_user, count_admins,
}
use apanel.Auth.Steps.{with_status, Steps}
use apanel.Auth.Edits.{Edit, untouched, offered, lapsed, joined, founded, restated}
use apanel.Auth.Registering.{steps-keep_accounts}

-- The token is known, and its invitation was accepted, revoked or found expired.
unfoldable pub settled : Text → List Invitation → Bool
unfolding is_pending
settled h [] = false
settled h (i ∷ is) =
    let rest = settled h is in if i.token_hash =? h then not (is_pending i.status) else rest

settled-append :
    (h : Text) (is js : List Invitation) → settled h is ≡ true → settled h (is ++ js) ≡ true
unfolding settled
settled-append h [] js e = ground (arith, e)
settled-append h (i ∷ is) js e = ground (arith, e, settled-append h is js)

settled-set_invitation :
    (h k : Text) (st : InvitationStatus) (at : Option ℕ) (is : List Invitation)
    → is_pending st ≡ false
    → settled h is ≡ true
    → settled h (set_invitation st at k is) ≡ true
unfolding settled set_invitation
settled-set_invitation h k st at [] final e = e
settled-set_invitation h k st at (i ∷ is) final e =
    ground (arith, e, final, settled-set_invitation h k st at is final)

edit-settled :
    (h : Text) (us vs : List User) (is js : List Invitation)
    → Edit us is vs js
    → settled h is ≡ true
    → settled h js ≡ true
unfolding is_pending
edit-settled h us _ is _ untouched e = e
edit-settled h us _ is _ (offered i _ _) e = settled-append h is (i ∷ []) e
edit-settled h us _ is _ (lapsed k at) e = settled-set_invitation h k expired at is refl e
edit-settled h us _ is _ (joined _ _ i _ at _ _ _) e =
    settled-set_invitation h i.token_hash accepted at is refl e
edit-settled h us _ is _ (founded _ _ _ _ _ _ _) e = e
edit-settled h us _ is _ (restated _ _) e = e

-- Accepting the invitation of a token settles it.
accepted-settled :
    (h : Text) (at : Option ℕ) (is : List Invitation) (i : Invitation)
    → find_invitation h is ≡ some i
    → settled h (set_invitation accepted at h is) ≡ true
unfolding settled set_invitation find_invitation is_pending
accepted-settled h at [] i found = ground (arith, found)
accepted-settled h at (k ∷ is) i found = ground (arith, found, accepted-settled h at is i)

found_first :
    (h : Text) (k : Invitation) (is : List Invitation) (i : Invitation)
    → find_invitation h (k ∷ is) ≡ some i
    → (((k.token_hash =? h) ≡ true) × (k ≡ i))
      ⊎ (((k.token_hash =? h) ≡ false) × (find_invitation h is ≡ some i))
unfolding find_invitation
found_first h k is i found = ground (arith, found)

find_invitation-token_hash :
    (h : Text) (is : List Invitation) (i : Invitation)
    → find_invitation h is ≡ some i
    → i.token_hash ≡ h
unfolding find_invitation
find_invitation-token_hash h [] i found = ground (arith, found)
find_invitation-token_hash h (k ∷ is) i found =
    ground (arith, found, find_invitation-token_hash h is i, text_equality.test_iff k.token_hash h)

settled-found :
    (h : Text) (is : List Invitation) (i : Invitation)
    → find_invitation h is ≡ some i
    → settled h is ≡ not (is_pending i.status)
unfolding settled find_invitation
settled-found h [] i found = ground (arith, found)
settled-found h (k ∷ is) i found = elim (found_first h k is i found) [
  | inl (same, here) ↦ rw (same, settled) (ap (λ r. not (is_pending r.status)) here)
  | inr (other, there) ↦ rw (other, settled) (settled-found h is i there)
]

settled-refused :
    (c : Security) (m : Moment) (token username password : Text) (given : Option Text)
    (db : Accounts)
    → settled (c.hash_opaque_token token) db.invitations ≡ true
    → (register_user c m token username password given db).0 ≡ err invalid_invitation
unfolding register_user
settled-refused c m token username password given db e =
    let h = c.hash_opaque_token token in
    elim (Option-cases (find_invitation h db.invitations)) [
      | inl unknown ↦ rw (unknown, register_user) refl
      | inr (i, found) ↦
          let final : not (is_pending i.status) ≡ true =
            sym (settled-found h db.invitations i found) ∙ e in
          rw (found, register_user) (rw (final, use_invitation) refl)
    ]

-- A call that returned `u` settled the invitation.
abbrev Settles : User → Text → Outcome User → Type 0
Settles u h out = out.0 ≡ ok u → settled h out.1.invitations ≡ true

accept_invitation-settles :
    (m : Moment) (h username password : Text) (i : Invitation) (db : Accounts) (u : User)
    → find_invitation h db.invitations ≡ some i
    → (accept_invitation m username password i db).0 ≡ ok u
    → settled h (accept_invitation m username password i db).1.invitations ≡ true
unfolding accept_invitation
accept_invitation-settles m h username password i db u found e =
    let r = registered_user m username password i db.next_id in
    elim (Result-cases (add_user username i.email r db).0) [
      | inl (x, raised) ↦
          let refused : (accept_invitation m username password i db).0 ≡ err x =
            rw (raised, accept_invitation) refl in
          cc (refused, e)
      | inr (v, added) ↦
          rw (added, accept_invitation)
            (rw (find_invitation-token_hash h db.invitations i found)
              (accepted-settled h (some m.now) db.invitations i found))
    ]

register_user-settles :
    (c : Security) (m : Moment) (token username password : Text) (given : Option Text)
    (db : Accounts) (u : User)
    → (register_user c m token username password given db).0 ≡ ok u
    → settled
        (c.hash_opaque_token token)
        (register_user c m token username password given db).1.invitations
      ≡ true
unfolding register_user use_invitation
register_user-settles c m token username password given db u =
    let h = c.hash_opaque_token token in
    elim (Option-cases (find_invitation h db.invitations)) [
      | inl unknown ↦ rw (unknown, register_user) λ e. cc
      | inr (i, found) ↦
          rw (found, register_user)
            (if-split (Settles u h) (not (is_pending i.status)) _ _ (λ _ e. cc)
              λ _.
                if-split (Settles u h) (leb i.expires_at m.now) _ _ (λ _ e. cc)
                  λ _.
                    if-split (Settles u h) (same_address given i.email) _ _
                      (λ _. accept_invitation-settles m h username password i db u found) λ _ e. cc)
    ]

-- An invitation is used once: after a registration with its token succeeded, whatever calls follow,
-- every registration with that token is refused.
pub register_user-used_once :
    (c : Security) (m again : Moment) (token username password username' password' : Text)
    (given given' : Option Text) (db after : Accounts) (u : User)
    → (register_user c m token username password given db).0 ≡ ok u
    → Steps c (register_user c m token username password given db).1 after
    → (register_user c again token username' password' given' after).0 ≡ err invalid_invitation
register_user-used_once c m again token username password username' password' given given' db after
      u first steps =
    let h = c.hash_opaque_token token in
    let done =
      steps-keep_accounts (λ _ is. settled h is ≡ true) (edit-settled h) c
        (register_user c m token username password given db).1 after steps
        (register_user-settles c m token username password given db u first) in
    settled-refused c again token username' password' given' after done

count_admins-append :
    (us vs : List User) → count_admins (us ++ vs) ≡ count_admins us + count_admins vs
unfolding count_admins
count_admins-append [] vs = omega arith
count_admins-append (u ∷ us) vs = omega (arith, count_admins-append us vs)

count_admins-with_status :
    (n : ℕ) (st : UserStatus) (us : List User)
    → count_admins (with_status n st us) ≡ count_admins us
unfolding count_admins
count_admins-with_status n st [] = refl
count_admins-with_status n st (u ∷ us) = ground (arith, count_admins-with_status n st us)

edit-one_admin :
    (us vs : List User) (is js : List Invitation)
    → Edit us is vs js
    → count_admins us ≤ 1
    → count_admins vs ≤ 1
unfolding count_admins is_admin
edit-one_admin us _ is _ untouched e = e
edit-one_admin us _ is _ (offered _ _ _) e = e
edit-one_admin us _ is _ (lapsed _ _) e = e
edit-one_admin us _ is _ (joined _ _ _ r _ _ _ plain) e =
    let role : is_admin r.role ≡ false = ap is_admin plain in
    ground (arith, e, count_admins-append us (r ∷ []), role)
edit-one_admin us _ is _ (founded _ _ r _ _ _ first) e =
    ground (arith, first, count_admins-append us (r ∷ []))
edit-one_admin us _ is _ (restated n st) e = ground (arith, e, count_admins-with_status n st us)

-- Starting without accounts, whatever calls are made in whatever order: there is one administrator at
-- most.
pub steps-one_admin :
    (c : Security) (db after : Accounts)
    → db.users ≡ []
    → Steps c db after
    → count_admins after.users ≤ 1
unfolding count_admins
steps-one_admin c db after no_users steps =
    steps-keep_accounts (λ us _. count_admins us ≤ 1) edit-one_admin c db after steps
      (rw no_users (ground arith))
