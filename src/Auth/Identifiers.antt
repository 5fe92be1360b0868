-- ===== src/Auth/Identifiers.antt =====
-- Login identifiers: the user names and the addresses share one namespace.
use mathlib.Core.Path.{subst}
use apanel.Base.{
  nat_equality, bool_equality, pair_equality, option_equality, ◌=?◌, beq→eq, Text, text_equality, ℕ,
  ◌+◌, ◌≤◌, ◌≡◌, refl, sym, ap, ◌∙◌, ◌⊎◌, inl, inr, false, Option, some, List, [], ◌∷◌, ◌++◌, arith,
  if◌then◌else◌, Bool-cases, if-split, length, All,
}
use apanel.Base.Case.{lower_idem, lstrip-lower, rstrip-lower}
use apanel.Base.Texts.{lstrip, rstrip, strip, strip_idem, lower}
use apanel.Auth.Records.{
  UserStatus, InvitationStatus, accepted, expired, User, Invitation, Accounts, Security,
}
use apanel.Auth.Accounts.{
  normalize, answers_to, find_invitation, set_invitation, is_reserved, is_named, matches,
  IdentifierType, by_username, by_email, automatic,
}
use apanel.Auth.Steps.{with_status, Steps}
use apanel.Auth.Edits.{Edit, untouched, offered, lapsed, joined, founded, restated}
use apanel.Auth.Registering.{steps-keep_accounts}

-- The accounts whose user name or address, in lower case, is `x`.
unfoldable pub bearers : Text → List User → ℕ
unfolding answers_to
bearers x [] = 0
bearers x (u ∷ us) = (if answers_to x u then 1 else 0) + bearers x us

-- An address is stored as `normalize_identifier` returns it.
abbrev IsClean : Text → Type 0
IsClean email = normalize email ≡ lower email

abbrev AllClean : List Invitation → Type 0
AllClean is = All (λ i. IsClean i.email) is

-- Each identifier names one account at most.
abbrev pub IsDistinct : List User → List Invitation → Type 0
IsDistinct us is = ((x : Text) → bearers x us ≤ 1) × AllClean is

normalize-lower : (t : Text) → normalize (lower t) ≡ normalize t
unfolding normalize strip
normalize-lower t =
    ap (λ s. lower (rstrip s)) (lstrip-lower t)
    ∙ ap lower (rstrip-lower (lstrip t))
    ∙ lower_idem (rstrip (lstrip t))

-- Normalizing twice normalizes once, so that what was normalized is clean.
normalize-IsClean : (t : Text) → IsClean (normalize t)
unfolding normalize
normalize-IsClean t =
    normalize-lower (strip t) ∙ ap lower (strip_idem t) ∙ sym (lower_idem (strip t))

bearers-append : (x : Text) (us vs : List User) → bearers x (us ++ vs) ≡ bearers x us + bearers x vs
unfolding bearers
bearers-append x [] vs = omega arith
bearers-append x (u ∷ us) vs = omega (arith, bearers-append x us vs)

bearers-with_status :
    (x : Text) (n : ℕ) (st : UserStatus) (us : List User)
    → bearers x (with_status n st us) ≡ bearers x us
unfolding bearers answers_to
bearers-with_status x n st [] = refl
bearers-with_status x n st (u ∷ us) = ground (arith, bearers-with_status x n st us)

-- Two reserved identifiers have no bearer yet.
reserved-bearers :
    (username email : Text) (us : List User)
    → is_reserved username email us ≡ false
    → (bearers (normalize username) us ≡ 0) × (bearers (normalize email) us ≡ 0)
unfolding bearers is_reserved
reserved-bearers username email [] free = (refl, refl)
reserved-bearers username email (u ∷ us) free =
    let (a, b) = reserved-bearers username email us (ground (arith, free)) in
    (ground (arith, free, a), ground (arith, free, b))

joined-bearers :
    (username email : Text) (r : User) (us : List User) (x : Text)
    → is_reserved username email us ≡ false
    → lower r.username ≡ normalize username
    → lower r.email ≡ normalize email
    → bearers x us ≤ 1
    → bearers x (us ++ r ∷ []) ≤ 1
unfolding bearers answers_to
joined-bearers username email r us x free name address once =
    let (a, b) = reserved-bearers username email us free in
    let more = bearers-append x us (r ∷ []) in
    elim (Bool-cases (lower r.username =? x)) [
      | inl same ↦
          let none_yet : bearers x us ≡ 0 =
            subst (λ k. bearers k us ≡ 0) (sym name ∙ beq→eq (lower r.username) x same) a in
          ground (arith, more, none_yet)
      | inr other ↦ elim (Bool-cases (lower r.email =? x)) [
        | inl same ↦
            let none_yet : bearers x us ≡ 0 =
              subst (λ k. bearers k us ≡ 0) (sym address ∙ beq→eq (lower r.email) x same) b in
            ground (arith, more, none_yet)
        | inr apart ↦ ground (arith, more, once, other, apart)
      ]
    ]

All-append :
    (P : Invitation → Type 0) (is js : List Invitation) → All P is → All P js → All P (is ++ js)
All-append P [] js h k = k
All-append P (i ∷ is) js (p, h) k = (p, All-append P is js h k)

set_invitation-AllClean :
    (st : InvitationStatus) (at : Option ℕ) (h : Text) (is : List Invitation)
    → AllClean is
    → AllClean (set_invitation st at h is)
unfolding set_invitation
set_invitation-AllClean st at h [] clean = tt
set_invitation-AllClean st at h (i ∷ is) (first, rest) = (
  if-split (λ k. IsClean k.email) (i.token_hash =? h) _ i (λ _. first) (λ _. first),
  set_invitation-AllClean st at h is rest,
)

found_invitation :
    (h : Text) (k : Invitation) (is : List Invitation) (i : Invitation)
    → find_invitation h (k ∷ is) ≡ some i
    → (k ≡ i) ⊎ (find_invitation h is ≡ some i)
unfolding find_invitation
found_invitation h k is i found = ground (arith, found)

found-IsClean :
    (h : Text) (is : List Invitation) (i : Invitation)
    → AllClean is
    → find_invitation h is ≡ some i
    → IsClean i.email
unfolding find_invitation
found-IsClean h [] i clean found = ground (arith, found)
found-IsClean h (k ∷ is) i (first, rest) found = elim (found_invitation h k is i found) [
  | inl here ↦ subst (λ r. IsClean r.email) here first
  | inr there ↦ found-IsClean h is i rest there
]

edit-IsDistinct :
    (us vs : List User) (is js : List Invitation)
    → Edit us is vs js
    → IsDistinct us is
    → IsDistinct vs js
unfolding normalize
edit-IsDistinct us _ is _ untouched h = h
edit-IsDistinct us _ is _ (offered i email e) (once, clean) = (
  once,
  All-append (λ k. IsClean k.email) is _ clean
      (subst IsClean (sym e) (normalize-IsClean email), tt),
)
edit-IsDistinct us _ is _ (lapsed h at) (once, clean) =
    (once, set_invitation-AllClean expired at h is clean)
edit-IsDistinct us _ is _ (joined h name i r at found (free, named, addressed) _) (once, clean) = (
  λ x.
      joined-bearers name i.email r us x free named
        (addressed ∙ sym (found-IsClean h is i clean found)) (once x),
  set_invitation-AllClean accepted at i.token_hash is clean,
)
edit-IsDistinct us _ is _ (founded name email r free named addressed _) (once, clean) = (
  λ x.
      joined-bearers name email r us x free named (ap lower addressed ∙ lower_idem (strip email))
        (once x),
  clean,
)
edit-IsDistinct us _ is _ (restated n st) (once, clean) =
    (λ x. ground (arith, once x, bearers-with_status x n st us), clean)

matches-bearers :
    (k : IdentifierType) (x : Text) (us : List User) → length (matches k x us) ≤ bearers x us
unfolding matches bearers is_named answers_to
matches-bearers k x [] = ground arith
matches-bearers by_username x (u ∷ us) = ground (arith, matches-bearers by_username x us)
matches-bearers by_email x (u ∷ us) = ground (arith, matches-bearers by_email x us)
matches-bearers automatic x (u ∷ us) = ground (arith, matches-bearers automatic x us)

-- Starting without accounts and invitations, whatever calls are made in whatever order: a login
-- identifier, as a user name, as an address or as either, matches one account at most.
pub steps-unambiguous :
    (c : Security) (db after : Accounts) (k : IdentifierType) (x : Text)
    → db.users ≡ []
    → db.invitations ≡ []
    → Steps c db after
    → length (matches k x after.users) ≤ 1
unfolding bearers
steps-unambiguous c db after k x no_users no_invitations steps =
    let start_distinct : IsDistinct db.users db.invitations =
      rw (no_users, no_invitations) (λ y. ground arith, tt) in
    let (once, _) =
      steps-keep_accounts IsDistinct edit-IsDistinct c db after steps start_distinct in
    ground (arith, once x, matches-bearers k x after.users)
