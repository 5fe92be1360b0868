-- ===== src/Auth/Reuse.antt =====
-- Proofs on the live sessions of a family over any calls.
use mathlib.Core.Path.{subst}
use apanel.Base.{
  nat_equality, bool_equality, pair_equality, option_equality, ◌=?◌, beq→eq, ne→beq, Text,
  text_equality, ℕ, ◌+◌, ◌≤◌, ◌≡◌, sym, ap, inl, inr, true, false, some, List, [], ◌∷◌, ◌++◌, arith,
  if◌then◌else◌, Bool-cases,
}
use apanel.Auth.Records.{RefreshSession, Accounts, Security}
use apanel.Auth.Sessions.{find_session, mark_used}
use apanel.Auth.Steps.{
  is_live, live_in, members, Steps, start, later, Change, kept, closed, rotated, opened,
}
use apanel.Auth.Changes.{call_change}
use apanel.Auth.Families.{
  live_in-append, members-append, live_in-revoke_family, members-revoke_family, members-mark_used,
  live_in-used, IsClosed, IsSingle,
}
use apanel.Auth.Tokens.{spent, spent-append, spent-mark_used, spent-revoke_family}

-- A new row is at most one live session, and it counts for its own family.
live_in-extended :
    (f : Text) (ss : List RefreshSession) (r : RefreshSession)
    → live_in f (ss ++ r ∷ []) ≤ live_in f ss + (if r.family_id =? f then 1 else 0)
unfolding live_in
live_in-extended f ss r = ground (arith, live_in-append f ss (r ∷ []))

pub live_in≤members : (f : Text) (ss : List RefreshSession) → live_in f ss ≤ members f ss
unfolding live_in members
live_in≤members f [] = ground arith
live_in≤members f (s ∷ ss) = ground (arith, live_in≤members f ss)

rotated-live_in :
    (f : Text) (ss : List RefreshSession) (s r : RefreshSession) (now : ℕ)
    → find_session s.token_hash ss ≡ some s
    → is_live s ≡ true
    → r.family_id ≡ s.family_id
    → live_in f (mark_used s.token_hash now r.token_hash ss ++ r ∷ []) ≤ live_in f ss
rotated-live_in f ss s r now found live same =
    let used = live_in-used f s.token_hash now r.token_hash ss s found live in
    let more = live_in-extended f (mark_used s.token_hash now r.token_hash ss) r in
    let alike : (r.family_id =? f) ≡ (s.family_id =? f) = ap (λ t. t =? f) same in
    ground (arith, used, more, alike)

-- The family of a new row that no row has is not `f`, which some row has.
other_family :
    (f g : Text) (ss : List RefreshSession) → 1 ≤ members f ss → members g ss ≡ 0 → (g =? f) ≡ false
other_family f g ss some_rows no_rows = ne→beq g f λ same.
    let clash : members f ss ≡ 0 = subst (λ x. members x ss ≡ 0) same no_rows in
    omega (arith, some_rows, clash)

pub change-IsSingle :
    (ss after : List RefreshSession) → Change ss after → IsSingle ss → IsSingle after
change-IsSingle ss _ kept h f = h f
change-IsSingle ss _ (closed g now) h f = ground (arith, live_in-revoke_family f g now ss, h f)
change-IsSingle ss _ (rotated s r now found live _ same) h f =
    ground (arith, h f, rotated-live_in f ss s r now found live same)
change-IsSingle ss _ (opened r _ fresh) h f = elim (Bool-cases (r.family_id =? f)) [
  | inl same ↦
      let none_yet : members f ss ≡ 0 =
        subst (λ g. members g ss ≡ 0) (beq→eq r.family_id f same) fresh in
      ground (arith, live_in-extended f ss r, same, live_in≤members f ss, none_yet)
  | inr other ↦ ground (arith, live_in-extended f ss r, other, h f)
]

pub change-IsClosed :
    (f : Text) (ss after : List RefreshSession) → Change ss after → IsClosed f ss → IsClosed f after
change-IsClosed f ss _ kept h = h
change-IsClosed f ss _ (closed g now) (dead, known) = (
  ground (arith, live_in-revoke_family f g now ss, dead),
  ground (arith, members-revoke_family f g now ss, known),
)
change-IsClosed f ss _ (rotated s r now found live _ same) (dead, known) =
    let marked = mark_used s.token_hash now r.token_hash ss in
    (
      ground (arith, dead, rotated-live_in f ss s r now found live same),
      ground (
        arith,
        known,
        members-append f marked (r ∷ []),
        members-mark_used f s.token_hash now r.token_hash ss,
      ),
    )
change-IsClosed f ss _ (opened r _ fresh) (dead, known) =
    let other = other_family f r.family_id ss known fresh in
    (
      ground (arith, live_in-extended f ss r, other, dead),
      ground (arith, known, members-append f ss (r ∷ [])),
    )

pub change-spent :
    (h : Text) (ss after : List RefreshSession)
    → Change ss after
    → spent h ss ≡ true
    → spent h after ≡ true
change-spent h ss _ kept e = e
change-spent h ss _ (closed g now) e = spent-revoke_family h g now ss e
change-spent h ss _ (rotated s r now _ _ _ _) e =
    spent-append h _ (r ∷ []) (spent-mark_used h s.token_hash now r.token_hash ss e)
change-spent h ss _ (opened r _ _) e = spent-append h ss (r ∷ []) e

-- What every change keeps, every sequence of calls keeps.
pub steps-keep :
    (P : List RefreshSession → Type 0)
    → ((ss after : List RefreshSession) → Change ss after → P ss → P after)
    → (c : Security) (db after : Accounts) → Steps c db after
    → P db.sessions
    → P after.sessions
steps-keep P keep c db _ start h = h
steps-keep P keep c db after (later {x} steps step) h =
    keep x.sessions after.sessions (call_change c x after step) (steps-keep P keep c db x steps h)

-- From a database without sessions, whatever calls are made in whatever order, where each login draws
-- a new `uuid4`: no family has two sessions that are neither used up nor revoked.
pub steps-IsSingle :
    (c : Security) (db after : Accounts) (f : Text)
    → db.sessions ≡ []
    → Steps c db after
    → live_in f after.sessions ≤ 1
unfolding live_in
steps-IsSingle c db after f empty steps =
    steps-keep IsSingle change-IsSingle c db after steps
      (subst IsSingle (sym empty) λ g. ground arith) f
