-- ===== src/Auth/Sound.antt =====
-- Proofs on the live sessions of a family and the rows of a hash, over any calls.
use mathlib.Core.Path.{subst}
use apanel.Base.{
  nat_equality, bool_equality, pair_equality, option_equality, ◌=?◌, beq→eq, Text, text_equality, ℕ,
  ◌+◌, ◌≤◌, ◌≡◌, refl, ◌∙◌, inl, inr, none, List, [], ◌∷◌, ◌++◌, arith, Bool-cases,
}
use apanel.Auth.Records.{RefreshSession, Accounts, Security}
use apanel.Auth.Sessions.{find_session, revoke_family, mark_used}
use apanel.Auth.Steps.{Steps, Change, kept, closed, rotated, opened}
use apanel.Auth.Reuse.{change-IsSingle, steps-keep}
use apanel.Auth.Chain.{copies, IsSound}

copies-append :
    (h : Text) (xs ys : List RefreshSession) → copies h (xs ++ ys) ≡ copies h xs + copies h ys
unfolding copies
copies-append h [] ys = omega arith
copies-append h (x ∷ xs) ys = omega (arith, copies-append h xs ys)

copies-mark_used :
    (h k : Text) (now : ℕ) (next : Text) (ss : List RefreshSession)
    → copies h (mark_used k now next ss) ≡ copies h ss
unfolding copies mark_used
copies-mark_used h k now next [] = refl
copies-mark_used h k now next (s ∷ ss) = ground (arith, copies-mark_used h k now next ss)

copies-revoke_family :
    (h f : Text) (now : ℕ) (ss : List RefreshSession)
    → copies h (revoke_family f now ss) ≡ copies h ss
unfolding copies revoke_family
copies-revoke_family h f now [] = refl
copies-revoke_family h f now (s ∷ ss) = ground (arith, copies-revoke_family h f now ss)

unknown-copies : (h : Text) (ss : List RefreshSession) → find_session h ss ≡ none → copies h ss ≡ 0
unfolding copies find_session
unknown-copies h [] e = refl
unknown-copies h (s ∷ ss) e = ground (arith, e, unknown-copies h ss)

abbrev OnceEach : List RefreshSession → Type 0
OnceEach ss = (h : Text) → copies h ss ≤ 1

-- A row with a new hash keeps every hash single.
extended-OnceEach :
    (ss : List RefreshSession) (r : RefreshSession)
    → copies r.token_hash ss ≡ 0
    → OnceEach ss
    → OnceEach (ss ++ r ∷ [])
unfolding copies
extended-OnceEach ss r fresh once h = elim (Bool-cases (r.token_hash =? h)) [
  | inl same ↦
      let none_yet : copies h ss ≡ 0 =
        subst (λ k. copies k ss ≡ 0) (beq→eq r.token_hash h same) fresh in
      ground (arith, copies-append h ss (r ∷ []), none_yet, same)
  | inr other ↦ ground (arith, copies-append h ss (r ∷ []), once h, other)
]

change-OnceEach : (ss after : List RefreshSession) → Change ss after → OnceEach ss → OnceEach after
change-OnceEach ss _ kept once h = once h
change-OnceEach ss _ (closed f now) once h = ground (arith, copies-revoke_family h f now ss, once h)
change-OnceEach ss _ (rotated s r now _ _ fresh _) once h =
    let marked = mark_used s.token_hash now r.token_hash ss in
    extended-OnceEach marked r
      (copies-mark_used r.token_hash s.token_hash now r.token_hash ss
        ∙ unknown-copies r.token_hash ss fresh)
      (λ k. ground (arith, copies-mark_used k s.token_hash now r.token_hash ss, once k)) h
change-OnceEach ss _ (opened r fresh _) once h =
    extended-OnceEach ss r (unknown-copies r.token_hash ss fresh) once h

change-IsSound : (ss after : List RefreshSession) → Change ss after → IsSound ss → IsSound after
change-IsSound ss after change (single, once) =
    (change-IsSingle ss after change single, change-OnceEach ss after change once)

-- Every call keeps the table of sessions sound: one live session at most in a family, and one row at
-- most for a hash.
pub steps-IsSound :
    (c : Security) (db after : Accounts)
    → IsSound db.sessions
    → Steps c db after
    → IsSound after.sessions
steps-IsSound c db after sound steps = steps-keep IsSound change-IsSound c db after steps sound
