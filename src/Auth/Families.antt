-- ===== src/Auth/Families.antt =====
-- The families of refresh sessions: how many of a family's sessions can still be used.
use mathlib.Core.Path.{subst}
use apanel.Base.{
  nat_equality, bool_equality, pair_equality, option_equality, ◌=?◌, Text, text_equality, ℕ, ◌+◌,
  ◌≤◌, ◌≡◌, refl, sym, inl, inr, true, some, List, [], ◌∷◌, ◌++◌, arith, if◌then◌else◌,
}
use apanel.Auth.Records.{RefreshSession}
use apanel.Auth.Sessions.{find_session, revoke_family, mark_used}
use apanel.Auth.Steps.{is_live, live_in, members}
use apanel.Auth.Changes.{found_in}

pub live_in-append :
    (f : Text) (xs ys : List RefreshSession) → live_in f (xs ++ ys) ≡ live_in f xs + live_in f ys
unfolding live_in
live_in-append f [] ys = omega arith
live_in-append f (x ∷ xs) ys = omega (arith, live_in-append f xs ys)

pub members-append :
    (f : Text) (xs ys : List RefreshSession) → members f (xs ++ ys) ≡ members f xs + members f ys
unfolding members
members-append f [] ys = omega arith
members-append f (x ∷ xs) ys = omega (arith, members-append f xs ys)

pub live_in-revoke_family :
    (f g : Text) (now : ℕ) (ss : List RefreshSession)
    → live_in f (revoke_family g now ss) ≡ (if g =? f then 0 else live_in f ss)
unfolding live_in revoke_family
live_in-revoke_family f g now [] = ground arith
live_in-revoke_family f g now (s ∷ ss) = ground (
  arith,
  live_in-revoke_family f g now ss,
  text_equality.test_iff s.family_id g,
  text_equality.test_iff s.family_id f,
  text_equality.test_iff g f,
)

pub members-revoke_family :
    (f g : Text) (now : ℕ) (ss : List RefreshSession)
    → members f (revoke_family g now ss) ≡ members f ss
unfolding members revoke_family
members-revoke_family f g now [] = refl
members-revoke_family f g now (s ∷ ss) = ground (arith, members-revoke_family f g now ss)

pub members-mark_used :
    (f h : Text) (now : ℕ) (next : Text) (ss : List RefreshSession)
    → members f (mark_used h now next ss) ≡ members f ss
unfolding members mark_used
members-mark_used f h now next [] = refl
members-mark_used f h now next (s ∷ ss) = ground (arith, members-mark_used f h now next ss)

live_in-mark_used :
    (f h : Text) (now : ℕ) (next : Text) (ss : List RefreshSession)
    → live_in f (mark_used h now next ss) ≤ live_in f ss
unfolding live_in mark_used
live_in-mark_used f h now next [] = ground arith
live_in-mark_used f h now next (s ∷ ss) = ground (arith, live_in-mark_used f h now next ss)

-- A live session that is used up is one less in its family.
pub live_in-used :
    (f h : Text) (now : ℕ) (next : Text) (ss : List RefreshSession) (s : RefreshSession)
    → find_session h ss ≡ some s
    → is_live s ≡ true
    → live_in f (mark_used h now next ss) + (if s.family_id =? f then 1 else 0) ≤ live_in f ss
unfolding live_in mark_used find_session
live_in-used f h now next [] s found live = ground (arith, found)
live_in-used f h now next (x ∷ ss) s found live = elim (found_in h x ss s found) [
  | inl (same, here) ↦
      subst
        (λ r.
          live_in f (mark_used h now next (x ∷ ss)) + (if r.family_id =? f then 1 else 0)
          ≤ live_in f (x ∷ ss))
        here (live_in-used_head same (subst (λ r. is_live r ≡ true) (sym here) live))
  | inr (other, there) ↦
      rw (other, mark_used) (omega (arith, live_in-used f h now next ss s there live))
]
  where
    live_in-used_head :
        x.token_hash =? h ≡ true
        → is_live x ≡ true
        → live_in f (mark_used h now next (x ∷ ss)) + (if x.family_id =? f then 1 else 0)
          ≤ live_in f (x ∷ ss)
    live_in-used_head same alive =
        let rest = live_in-mark_used f h now next ss in
        rw (same, mark_used) (ground (arith, alive, rest))

-- No session of a family that exists can be used.
abbrev pub IsClosed : Text → List RefreshSession → Type 0
IsClosed f ss = (live_in f ss ≡ 0) × (1 ≤ members f ss)

-- No family has two sessions that can be used.
abbrev pub IsSingle : List RefreshSession → Type 0
IsSingle ss = (f : Text) → live_in f ss ≤ 1
