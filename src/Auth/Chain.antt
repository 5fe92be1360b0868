-- ===== src/Auth/Chain.antt =====
-- A family of sessions as a chain with at most one current token, and `refresh_tokens` as one move of
-- that chain.
use mathlib.Core.Path.{subst}
use apanel.Base.{
  nat_equality, bool_equality, pair_equality, option_equality, ◌=?◌, beq_refl, beq→eq, Text,
  text_equality, ℕ, ◌+◌, ◌≤◌, ◌≡◌, refl, sym, inl, inr, Bool, true, false, not, ◌&&◌, Option, none,
  some, List, [], ◌∷◌, ◌++◌, arith, leb, if◌then◌else◌, or_else, Result, err, ok,
}
use apanel.Auth.Records.{RefreshSession, Accounts, AuthError}
use apanel.Auth.Sessions.{find_session, revoke_family, mark_used, is_enabled}
use apanel.Auth.Steps.{is_live, live_in}
use apanel.Auth.Changes.{found_in}
use apanel.Auth.Families.{IsSingle}
use apanel.Auth.Replay.{found-live_in}

-- The abstract family: the hash of the token that is accepted next, if there is one.
abbrev pub Chain : Type 0
Chain = Option Text

-- A token is presented. Only the current one is accepted, and then the next one takes its place; any
-- other ends the chain.
unfoldable pub present : Bool → Text → Text → Chain → Bool × Chain
present allowed h next none = (false, none)
present allowed h next (some t) = if allowed && t =? h then (true, some next) else (false, none)

-- The chain that the table stands for.
unfoldable pub current : Text → List RefreshSession → Chain
current f [] = none
current f (s ∷ ss) =
    let rest = current f ss in if s.family_id =? f && is_live s then some s.token_hash else rest

unfoldable pub copies : Text → List RefreshSession → ℕ
copies h [] = 0
copies h (s ∷ ss) = (if s.token_hash =? h then 1 else 0) + copies h ss

-- A family has one live session at most, and a hash one row.
abbrev pub IsSound : List RefreshSession → Type 0
IsSound ss = IsSingle ss × ((h : Text) → copies h ss ≤ 1)

abbrev pub is_ok : {A : Type 0} → Result AuthError A → Bool
is_ok (ok _) = true
is_ok (err _) = false

-- Apart from what the table of sessions says: the token has not expired, and its account is active.
abbrev pub is_allowed : ℕ → RefreshSession → Accounts → Bool
is_allowed now s db = not (leb s.expires_at now) && is_enabled db.users s.user_id

pub current-closed : (f : Text) (ss : List RefreshSession) → live_in f ss ≡ 0 → current f ss ≡ none
unfolding current live_in
current-closed f [] e = refl
current-closed f (s ∷ ss) e = ground (arith, e, current-closed f ss)

pub current-append :
    (f : Text) (xs ys : List RefreshSession)
    → current f (xs ++ ys) ≡ or_else (current f xs) (current f ys)
unfolding current
current-append f [] ys = refl
current-append f (x ∷ xs) ys = ground (arith, current-append f xs ys)

pub current-revoke_family :
    (g f : Text) (now : ℕ) (ss : List RefreshSession)
    → current g (revoke_family f now ss) ≡ (if f =? g then none else current g ss)
unfolding current revoke_family
current-revoke_family g f now [] = ground arith
current-revoke_family g f now (s ∷ ss) = ground (
  arith,
  current-revoke_family g f now ss,
  text_equality.test_iff s.family_id f,
  text_equality.test_iff s.family_id g,
  text_equality.test_iff f g,
)

current-copies : (f h : Text) (ss : List RefreshSession) → current f ss ≡ some h → 1 ≤ copies h ss
unfolding current copies
current-copies f h [] e = ground (arith, e)
current-copies f h (s ∷ ss) e =
    ground (arith, e, current-copies f h ss, text_equality.test_iff s.token_hash h)

pub found-copies :
    (h : Text) (ss : List RefreshSession) (s : RefreshSession)
    → find_session h ss ≡ some s
    → 1 ≤ copies h ss
unfolding copies find_session
found-copies h [] s found = ground (arith, found)
found-copies h (x ∷ ss) s found = ground (arith, found, found-copies h ss s)

-- The only live session of a family holds its current token.
pub current-live :
    (h : Text) (ss : List RefreshSession) (s : RefreshSession)
    → find_session h ss ≡ some s
    → is_live s ≡ true
    → live_in s.family_id ss ≤ 1
    → current s.family_id ss ≡ some h
unfolding current live_in find_session
current-live h [] s found live single = ground (arith, found)
current-live h (x ∷ ss) s found live single = elim (found_in h x ss s found) [
  | inl (same, here) ↦
      let alive : is_live x ≡ true = subst (λ r. is_live r ≡ true) (sym here) live in
      let own = beq_refl x.family_id in
      let hash = beq→eq x.token_hash h same in
      subst (λ r. current r.family_id (x ∷ ss) ≡ some h) here (ground (arith, own, alive, hash))
  | inr (other, there) ↦
      let more = found-live_in h ss s there live in
      ground (arith, single, more, current-live h ss s there live)
]

-- The row of a current token is live.
pub live-current :
    (f h : Text) (ss : List RefreshSession) (s : RefreshSession)
    → copies h ss ≤ 1
    → find_session h ss ≡ some s
    → current f ss ≡ some h
    → is_live s ≡ true
unfolding current copies
live-current f h [] s once found e = ground (arith, e)
live-current f h (x ∷ ss) s once found e = elim (found_in h x ss s found) [
  | inl (same, here) ↦
      subst (λ r. is_live r ≡ true) here (ground (arith, e, once, same, current-copies f h ss))
  | inr (other, there) ↦
      let once_more : copies h ss ≤ 1 = ground (arith, once, other) in
      let rest = live-current f h ss s once_more there in
      ground (arith, e, other, text_equality.test_iff x.token_hash h, rest)
]

current-mark_used :
    (g h : Text) (now : ℕ) (next : Text) (ss : List RefreshSession)
    → copies h ss ≡ 0
    → current g (mark_used h now next ss) ≡ current g ss
unfolding current mark_used copies
current-mark_used g h now next [] absent_hash = refl
current-mark_used g h now next (s ∷ ss) absent_hash =
    ground (arith, absent_hash, current-mark_used g h now next ss)

-- Using a token up does not change the other families.
pub current-mark_other :
    (g h : Text) (now : ℕ) (next : Text) (ss : List RefreshSession) (s : RefreshSession)
    → copies h ss ≤ 1
    → find_session h ss ≡ some s
    → (s.family_id =? g) ≡ false
    → current g (mark_used h now next ss) ≡ current g ss
unfolding current mark_used copies
current-mark_other g h now next [] s once found apart = refl
current-mark_other g h now next (x ∷ ss) s once found apart = elim (found_in h x ss s found) [
  | inl (same, here) ↦
      let outside : (x.family_id =? g) ≡ false =
        subst (λ r. (r.family_id =? g) ≡ false) (sym here) apart in
      let none_left : copies h ss ≡ 0 = ground (arith, once, same) in
      ground (arith, outside, same, current-mark_used g h now next ss none_left)
  | inr (other, there) ↦
      let once_more : copies h ss ≤ 1 = ground (arith, once, other) in
      ground (arith, other, current-mark_other g h now next ss s once_more there apart)
]
