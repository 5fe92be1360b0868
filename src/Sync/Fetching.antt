-- ===== src/Sync/Fetching.antt =====
-- `_fetch_with_invalid_symbol_isolation`.
use apanel.Base.{
  nat_equality, bool_equality, pair_equality, option_equality, Text, text_equality, ℕ, zero, suc,
  ◌/◌, List, [], ◌∷◌, ◌++◌, if◌then◌else◌, length, Result, err, ok,
}
use apanel.Base.Dict.{Dict, put}
use apanel.Base.Slices.{take, drop}
use apanel.Sync.Failures.{is_invalid, Call, resume, recursion_limit, Raised}

-- `{**d, **e}`
unfoldable pub merge : {V : Type 0} → Dict Text V → Dict Text V → Dict Text V
unfolding put
merge d [] = d
merge d ((k, v) ∷ e) = merge (put d k v) e

-- The requests that were answered, in order, and the exception for each symbol that was singled out.
abbrev pub Isolated : Type 0 → Type 0
Isolated B = List (List Text × B) × Dict Text Raised

unfoldable pub both : {B : Type 0} → Isolated B → Isolated B → Isolated B
unfolding merge
both (l, le) (r, re) = (l ++ r, merge le re)

abbrev pub too_deep : Raised
too_deep = record { kind = recursion_limit; message = []; class_name = [] }

module _ {W B : Type 0} where
  -- The handler of `InvalidMarketDataError`, given the calls on the halves
  unfoldable pub divide :
      List Text → Raised → Call W (Isolated B) → Call W (Isolated B) → Call W (Isolated B)
  unfolding both
  divide (s ∷ []) x left right w = (ok ([], (s, x) ∷ []), w)
  divide _ x left right w = resume (left w) λ l v. resume (right v) λ r u. (ok (both l r), u)

  unfoldable pub resolve :
      List Text
      → Call W (Isolated B)
      → Call W (Isolated B)
      → Result Raised B × W
      → Result Raised (Isolated B) × W
  unfolding divide
  resolve symbols left right (ok b, w) = (ok ((symbols, b) ∷ [], []), w)
  resolve symbols left right (err x, w) =
      if is_invalid x then divide symbols x left right w else (err x, w)

  -- The fuel is the depth of calls that the interpreter allows.
  unfoldable pub isolate : (List Text → Call W B) → ℕ → List Text → Call W (Isolated B)
  unfolding resolve take drop
  isolate fetch zero symbols w = (err too_deep, w)
  isolate fetch (suc n) symbols w =
      let middle = length symbols / 2 in
      resolve symbols (isolate fetch n (take middle symbols))
        (isolate fetch n (drop middle symbols)) (fetch symbols w)
