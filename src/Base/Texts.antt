-- ===== src/Base/Texts.antt =====
-- Texts as lists of code points, with the methods of Python's `str` that the program calls.
-- Case mapping is that of ASCII: a code point past 127 is its own upper, lower and folded form.
use Prim.Native.Nat.{ℕ, ◌+◌, ◌-◌}
use Prim.Native.Char.{code}
use Prim.Native.String.{String}
use mathlib.Core.Path.{◌≡◌, refl, ap, ◌∙◌}
use mathlib.Core.Logic.{◌↔◌, inl, inr}
use mathlib.Core.Bool.{Bool, true, false, ◌&&◌, ◌||◌}
use mathlib.Core.List.{List, [], ◌∷◌, map}
use native.Mathlib.Omega.{arith}
use apanel.Base.Tests.{leb, ◌==◌, if◌then◌else◌, Bool-cases}
use apanel.Base.Eq.{nat_equality, bool_equality, pair_equality, option_equality, Equality}

abbrev pub Text : Type 0
Text = List ℕ

-- The code points of a literal.
abbrev pub text : String → Text
text String.[] = []
text (String.◌∷◌ c s) = code c ∷ text s

abbrev text_test : Text → Text → Bool
text_test [] [] = true
text_test (a ∷ s) (b ∷ t) = a == b && text_test s t
text_test _ _ = false

pub text_test_iff : (s t : Text) → (text_test s t ≡ true) ↔ (s ≡ t)
text_test_iff [] [] = ground arith
text_test_iff [] (b ∷ t) = ground arith
text_test_iff (a ∷ s) [] = ground arith
text_test_iff (a ∷ s) (b ∷ t) = ground (arith, text_test_iff s t)

instance abbrev pub text_equality : Equality Text
text_equality = record { test = text_test; test_iff = text_test_iff }

-- `str.isspace` of one character.
unfoldable pub is_space : ℕ → Bool
is_space c =
    (leb 9 c && leb c 13)
    || (leb 28 c && leb c 32)
    || c == 133
    || c == 160
    || c == 5760
    || (leb 8192 c && leb c 8202)
    || c == 8232
    || c == 8233
    || c == 8239
    || c == 8287
    || c == 12288

unfoldable pub lstrip : Text → Text
unfolding is_space
lstrip [] = []
lstrip (c ∷ s) = let rest = lstrip s in if is_space c then rest else c ∷ s

abbrev pub keep : ℕ → Text → Text
keep c [] = if is_space c then [] else c ∷ []
keep c (d ∷ s) = c ∷ d ∷ s

unfoldable pub rstrip : Text → Text
unfolding is_space
rstrip [] = []
rstrip (c ∷ s) = keep c (rstrip s)

unfoldable pub strip : Text → Text
unfolding lstrip rstrip
strip s = rstrip (lstrip s)

rstrip_idem : (s : Text) → rstrip (rstrip s) ≡ rstrip s
unfolding rstrip
rstrip_idem [] = refl
rstrip_idem (c ∷ s) = keep_idem c (rstrip s) (rstrip_idem s)
  where
    keep_idem : (c : ℕ) (t : Text) → rstrip t ≡ t → rstrip (keep c t) ≡ keep c t
    keep_idem c [] h = elim (Bool-cases (is_space c)) [
      | inl blank ↦ rw blank refl
      | inr ink ↦ rw ink (rw ink refl)
    ]
    keep_idem c (d ∷ t) h = rw h refl

-- The text is empty or begins with a character that is no space.
abbrev pub HasInk : Text → Type 0
HasInk [] = Unit
HasInk (c ∷ s) = is_space c ≡ false

lstrip-HasInk : (s : Text) → HasInk (lstrip s)
unfolding lstrip
lstrip-HasInk [] = tt
lstrip-HasInk (c ∷ s) = elim (Bool-cases (is_space c)) [
  | inl blank ↦ rw blank (lstrip-HasInk s)
  | inr ink ↦ rw ink ink
]

lstrip-rstrip : (s : Text) → HasInk s → lstrip (rstrip s) ≡ rstrip s
unfolding lstrip rstrip
lstrip-rstrip [] h = refl
lstrip-rstrip (c ∷ s) h = kept (rstrip s)
  where
    kept : (t : Text) → lstrip (keep c t) ≡ keep c t
    kept [] = rw h (rw h refl)
    kept (d ∷ t) = rw h refl

-- Stripping twice strips once.
pub strip_idem : (s : Text) → strip (strip s) ≡ strip s
unfolding strip
strip_idem s = ap rstrip (lstrip-rstrip (lstrip s) (lstrip-HasInk s)) ∙ rstrip_idem (lstrip s)

unfoldable pub upper_code : ℕ → ℕ
upper_code c = if leb b'a' c && leb c b'z' then c - 32 else c

unfoldable pub lower_code : ℕ → ℕ
lower_code c = if leb b'A' c && leb c b'Z' then c + 32 else c

unfoldable pub upper : Text → Text
unfolding upper_code
upper = map upper_code

unfoldable pub lower : Text → Text
unfolding lower_code
lower = map lower_code

-- `str.casefold`, which is `lower` on ASCII.
unfoldable pub casefold : Text → Text
unfolding lower_code
casefold = map lower_code

abbrev pub is_empty : Text → Bool
is_empty [] = true
is_empty (_ ∷ _) = false

-- `not s.strip()`, the test for a blank text.
unfoldable pub is_blank : Text → Bool
unfolding strip
is_blank s = is_empty (strip s)

pub is_blank-strip : (s : Text) → is_blank (strip s) ≡ is_blank s
unfolding is_blank
is_blank-strip s = ap is_empty (strip_idem s)

unfoldable pub starts_with : Text → Text → Bool
starts_with [] s = true
starts_with (p ∷ ps) [] = false
starts_with (p ∷ ps) (c ∷ s) = p == c && starts_with ps s

-- `needle in s`
unfoldable pub contains : Text → Text → Bool
unfolding starts_with
contains needle [] = starts_with needle []
contains needle (c ∷ s) = starts_with needle (c ∷ s) || contains needle s
