-- ===== src/Sync/Requests.antt =====
-- Proofs on the number of requests that the isolation makes.
use apanel.Base.{
  Text, ℕ, zero, suc, ◌+◌, ◌*◌, ◌/◌, ◌≤◌, ◌≡◌, List, [], ◌∷◌, arith, if-split, length, Result, err,
  ok,
}
use apanel.Base.Slices.{take, drop, length-take, length-drop}
use apanel.Sync.Failures.{is_invalid, Call, resume, Raised}
use apanel.Sync.Fetching.{Isolated, both, divide, resolve, isolate}

module _ {W : Type 0} (count : W → ℕ) where
  -- At most `2n - 1` requests were made from the world `w` on.
  abbrev Within : ℕ → W → W → Type 0
  Within n w v = suc (count v) ≤ count w + 2 * n

  later-Within :
      {B : Type 0} (n m : ℕ) (w v : W) (l : Isolated B) (right : Result Raised (Isolated B) × W)
      → Within n w v
      → Within m v right.1
      → suc (suc (count (resume right (λ r u. (ok (both l r), u))).1)) ≤ count w + 2 * (n + m)
  later-Within n m w v l (err x, u) h g = omega (arith, h, g)
  later-Within n m w v l (ok r, u) h g = omega (arith, h, g)

  halves-Within :
      {B : Type 0} (n m : ℕ) (w : W) (left : Result Raised (Isolated B) × W)
      (right : Call W (Isolated B))
      → 1 ≤ m
      → Within n w left.1
      → ((v : W) → Within m v (right v).1)
      → suc (suc (count (resume left (λ l v. resume (right v) (λ r u. (ok (both l r), u)))).1))
        ≤ count w + 2 * (n + m)
  halves-Within n m w (err x, v) right p h g = omega (arith, p, h)
  halves-Within n m w (ok l, v) right p h g = later-Within n m w v l (right v) h (g v)

  divide-Within :
      {B : Type 0} (symbols : List Text) (x : Raised) (left right : Call W (Isolated B)) (w v : W)
      → 1 ≤ length symbols
      → count v ≡ suc (count w)
      → ((u : W)
          → 2 ≤ length symbols
          → Within (length (take (length symbols / 2) symbols)) u (left u).1)
      → ((u : W)
          → 2 ≤ length symbols
          → Within (length (drop (length symbols / 2) symbols)) u (right u).1)
      → Within (length symbols) w (divide symbols x left right v).1
  unfolding divide
  divide-Within [] x left right w v some_symbol once h g = absurd (omega arith)
  divide-Within (s ∷ []) x left right w v some_symbol once h g = omega (arith, once)
  divide-Within (s ∷ t ∷ rest) x left right w v some_symbol once h g =
      let symbols = s ∷ t ∷ rest in
      let middle = length symbols / 2 in
      let a = length-take middle symbols in
      let b = length-drop middle symbols in
      let both_halves =
        halves-Within (length (take middle symbols)) (length (drop middle symbols)) v (left v) right
          (omega (arith, b)) (h v (omega arith)) (λ u. g u (omega arith)) in
      omega (arith, a, b, once, both_halves)

  resolve-Within :
      {B : Type 0} (symbols : List Text) (left right : Call W (Isolated B)) (w : W)
      (r : Result Raised B × W)
      → 1 ≤ length symbols
      → count r.1 ≡ suc (count w)
      → ((u : W)
          → 2 ≤ length symbols
          → Within (length (take (length symbols / 2) symbols)) u (left u).1)
      → ((u : W)
          → 2 ≤ length symbols
          → Within (length (drop (length symbols / 2) symbols)) u (right u).1)
      → Within (length symbols) w (resolve symbols left right r).1
  unfolding resolve
  resolve-Within symbols left right w (ok b, v) some_symbol once h g =
      omega (arith, some_symbol, once)
  resolve-Within {B = B} symbols left right w (err x, v) some_symbol once h g =
      if-split {A = Result Raised (Isolated B) × W} (λ r. Within (length symbols) w r.1)
        (is_invalid x) _ _ (λ _. divide-Within symbols x left right w v some_symbol once h g)
        (λ _. omega (arith, some_symbol, once))

  -- Where each request is counted once: whatever the provider answers or raises, isolating a batch of
  -- `n` symbols, at least one, makes at most `2n - 1` requests.
  pub isolate_requests :
      {B : Type 0} (fetch : List Text → Call W B)
      → ((rs : List Text) (w : W) → count (fetch rs w).1 ≡ suc (count w))
      → (n : ℕ) (symbols : List Text) (w : W) → 1 ≤ length symbols
      → suc (count (isolate fetch n symbols w).1) ≤ count w + 2 * length symbols
  unfolding isolate
  isolate_requests fetch once zero symbols w some_symbol = omega (arith, some_symbol)
  isolate_requests fetch once (suc n) symbols w some_symbol =
      let middle = length symbols / 2 in
      resolve-Within symbols _ _ w (fetch symbols w) some_symbol (once symbols w)
        (λ u long.
          isolate_requests fetch once n (take middle symbols) u
            (rw (length-take middle symbols) (omega arith)))
        (λ u long.
          isolate_requests fetch once n (drop middle symbols) u
            (rw (length-drop middle symbols) (omega arith)))
