-- ===== src/States/Codes.antt =====
-- The invariant of `StateRegistry`, and what registration keeps.
use apanel.Base.{
  beq, nat_equality, bool_equality, pair_equality, option_equality, beq_refl, beq_sym, Text,
  text_equality, ◌≡◌, refl, inl, inr, Bool, true, false, ◌||◌, none, some, List, [], ◌∷◌, ◌++◌, map,
  arith, if◌then◌else◌, Bool-cases, All, ok,
}
use apanel.Base.Texts.{text_test_iff, strip, upper}
use apanel.Base.Dict.{Dict, get, put, has, get-put}
use apanel.States.Definitions.{StateDefinition}
use apanel.States.Registry.{member, first_collision, put_names, register, Registry}

-- No code is listed twice.
abbrev pub Distinct : List Text → Type 0
Distinct [] = Unit
Distinct (c ∷ cs) = (member cs c ≡ false) × Distinct cs

module _ {F : Type 0} where
  -- Every listed code has a definition.
  abbrev pub HasDefinitions : Dict Text (StateDefinition F) → List Text → Type 0
  HasDefinitions states codes = All (λ c. has states c ≡ true) codes

  pub record IsWellFormed (r : Registry F) : Type 0 where
    pub defined : HasDefinitions r.states r.canonical_codes
    pub distinct : Distinct r.canonical_codes

  has-put :
      (m : Dict Text (StateDefinition F)) (k : Text) (d : StateDefinition F) (j : Text)
      → has m j ≡ true
      → has (put m k d) j ≡ true
  unfolding has
  has-put m k d j h = ground (arith, get-put m k d j)

  has-put_names :
      (m : Dict Text (StateDefinition F)) (names : List Text) (d : StateDefinition F) (j : Text)
      → has m j ≡ true
      → has (put_names m names d) j ≡ true
  unfolding put_names
  has-put_names m [] d j h = h
  has-put_names m (n ∷ names) d j h = has-put_names (put m n d) names d j (has-put m n d j h)

  -- A name that was written has the definition; any other keeps what it had.
  get-put_names :
      (m : Dict Text (StateDefinition F)) (names : List Text) (d : StateDefinition F) (j : Text)
      → get (put_names m names d) j ≡ (if member names j then some d else get m j)
  unfolding put_names
  get-put_names m [] d j = refl
  get-put_names m (n ∷ names) d j =
      ground (arith, get-put_names (put m n d) names d j, get-put m n d j)

  HasDefinitions-put_names :
      (m : Dict Text (StateDefinition F)) (names : List Text) (d : StateDefinition F)
      (codes : List Text)
      → HasDefinitions m codes
      → HasDefinitions (put_names m names d) codes
  HasDefinitions-put_names m names d [] h = tt
  HasDefinitions-put_names m names d (c ∷ cs) h =
      (has-put_names m names d c h.0, HasDefinitions-put_names m names d cs h.1)

  HasDefinitions-append :
      (m : Dict Text (StateDefinition F)) (codes : List Text) (c : Text)
      → HasDefinitions m codes
      → has m c ≡ true
      → HasDefinitions m (codes ++ (c ∷ []))
  HasDefinitions-append m [] c h k = (k, tt)
  HasDefinitions-append m (x ∷ codes) c h k = (h.0, HasDefinitions-append m codes c h.1 k)

member-append :
    (codes : List Text) (c x : Text) → member (codes ++ (c ∷ [])) x ≡ member codes x || beq c x
member-append [] c x = ground arith
member-append (y ∷ codes) c x = ground (arith, member-append codes c x)

Distinct-append :
    (codes : List Text) (c : Text)
    → Distinct codes
    → member codes c ≡ false
    → Distinct (codes ++ (c ∷ []))
Distinct-append [] c h k = (refl, tt)
Distinct-append (x ∷ codes) c h k = (
  ground (arith, member-append codes c x, beq_sym c x),
  Distinct-append codes c h.1 (ground arith),
)

module _ {F : Type 0} where
  abbrev names_of : StateDefinition F → List Text → List Text
  names_of d aliases = d.code ∷ map (λ a. upper (strip a)) aliases

  -- A registration that succeeds has written its names, and appended a code that was not listed.
  pub register-eq-ok :
      (d : StateDefinition F) (aliases : List Text) (replace : Bool) (r r' : Registry F)
      → register d aliases replace r ≡ ok r'
      → (r'.states ≡ put_names r.states (names_of d aliases) d)
        × (r'.canonical_codes ≡ (
            if member r.canonical_codes d.code
            then r.canonical_codes
            else r.canonical_codes ++ (d.code ∷ [])))
        × (replace ≡ false → first_collision r.states (names_of d aliases) ≡ none)
  unfolding register
  register-eq-ok d aliases replace r r' p = ground arith

  first_collision-eq-none :
      (states : Dict Text (StateDefinition F)) (names : List Text) (j : Text)
      (x : StateDefinition F)
      → first_collision states names ≡ none
      → get states j ≡ some x
      → member names j ≡ false
  unfolding first_collision has
  first_collision-eq-none states [] j x h g = refl
  first_collision-eq-none states (n ∷ names) j x h g =
      ground (arith, first_collision-eq-none states names j x, text_test_iff n j)

  code-has :
      (m : Dict Text (StateDefinition F)) (aliases : List Text) (d : StateDefinition F)
      → has (put_names m (names_of d aliases) d) d.code ≡ true
  unfolding has
  code-has m aliases d =
      ground (arith, get-put_names m (names_of d aliases) d d.code, beq_refl d.code)

  -- Registering a definition, replacing or not, keeps the registry's invariant: every listed code
  -- has a definition and is listed once.
  pub register-IsWellFormed :
      (d : StateDefinition F) (aliases : List Text) (replace : Bool) (r r' : Registry F)
      → IsWellFormed r
      → register d aliases replace r ≡ ok r'
      → IsWellFormed r'
  register-IsWellFormed d aliases replace r r' w p =
      let (states, codes, _) = register-eq-ok d aliases replace r r' p in
      let names = names_of d aliases in
      let kept = HasDefinitions-put_names r.states names d r.canonical_codes w.defined in
      let named = code-has r.states aliases d in
      elim (Bool-cases (member r.canonical_codes d.code)) [
        | inl listed ↦ record {
          defined = rw (states, codes, listed) kept;
          distinct = rw (codes, listed) w.distinct;
        }
        | inr fresh ↦ record {
          defined =
              rw (states, codes, fresh)
                (HasDefinitions-append (put_names r.states names d) r.canonical_codes d.code kept
                  named);
          distinct = rw (codes, fresh) (Distinct-append r.canonical_codes d.code w.distinct fresh);
        }
      ]

  -- Without `replace` a registration that succeeds changes no lookup that already had an answer,
  -- and every one of the names it was given now has the definition.
  pub register_keeps :
      (d : StateDefinition F) (aliases : List Text) (r r' : Registry F) (j : Text)
      → register d aliases false r ≡ ok r'
      → ((x : StateDefinition F) → get r.states j ≡ some x → get r'.states j ≡ some x)
        × (member (d.code ∷ map (λ a. upper (strip a)) aliases) j ≡ true → get r'.states j ≡ some d)
  register_keeps d aliases r r' j p =
      let (states, _, free) = register-eq-ok d aliases false r r' p in
      let names = names_of d aliases in
      (
        λ x g.
            rw
              (
                states,
                get-put_names r.states names d j,
                first_collision-eq-none r.states names j x (free refl) g,
              )
              g,
        λ m. rw (states, get-put_names r.states names d j, m) refl,
      )
