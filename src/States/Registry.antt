-- ===== src/States/Registry.antt =====
-- `StateRegistry` of backend/app/states/registry.py.
use apanel.Base.{
  nat_equality, bool_equality, pair_equality, option_equality, ◌=?◌, Text, text_equality, Bool,
  false, Option, none, some, List, [], ◌∷◌, ◌++◌, map, if◌then◌else◌, any, ◌>>=◌, Result, ok, err,
}
use apanel.Base.Texts.{strip, upper, is_blank}
use apanel.Base.Dict.{Dict, get, put, has}
use apanel.States.Definitions.{StateDefinition}

pub record Registry (F : Type 0) : Type 0 where
  pub states : Dict Text (StateDefinition F)
  pub canonical_codes : List Text

-- `ValueError` of `register`, and `UnknownStateError` of `get`
pub data RegistryError : Type 0 where
  empty_name unknown_state : RegistryError
  already_registered : Text → RegistryError

abbrev pub member : List Text → Text → Bool
member names name = any (λ n. n =? name) names

module _ {F : Type 0} where
  abbrev pub empty_registry : Registry F
  empty_registry = record { states = []; canonical_codes = [] }

  -- `collisions[0]`, when there is one
  unfoldable pub first_collision : Dict Text (StateDefinition F) → List Text → Option Text
  unfolding has
  first_collision states [] = none
  first_collision states (name ∷ names) =
      let later = first_collision states names in if has states name then some name else later

  -- `for name in names: self._states[name] = definition`
  unfoldable pub put_names :
      Dict Text (StateDefinition F) → List Text → StateDefinition F → Dict Text (StateDefinition F)
  put_names states [] d = states
  put_names states (name ∷ names) d = put_names (put states name d) names d

  unfoldable pub register :
      StateDefinition F → List Text → Bool → Registry F → Result RegistryError (Registry F)
  unfolding first_collision put_names upper strip
  register d aliases replace r =
      let names = d.code ∷ map (λ a. upper (strip a)) aliases in
      if any (λ n. n =? []) names
      then err empty_name
      else elim (if replace then none else first_collision r.states names) [
        | some name ↦ err (already_registered name)
        | none ↦ ok (record {
          states = put_names r.states names d;
          canonical_codes =
              if member r.canonical_codes d.code
              then r.canonical_codes
              else r.canonical_codes ++ (d.code ∷ []);
        })
      ]

  -- `StateRegistry.__init__`
  unfoldable pub register_all :
      List (StateDefinition F) → Registry F → Result RegistryError (Registry F)
  unfolding register
  register_all [] r = ok r
  register_all (d ∷ ds) r = do next ← register d [] false r; register_all ds next

  -- `StateRegistry.get`
  unfoldable pub get_state : Registry F → Text → Result RegistryError (StateDefinition F)
  unfolding upper strip is_blank
  get_state r code =
      if is_blank code
      then err unknown_state
      else elim (get r.states (upper (strip code))) [ some d ↦ ok d | none ↦ err unknown_state ]

  -- `StateRegistry.definitions`; `none` is the `KeyError` of `self._states[code]`
  unfoldable pub definitions_of :
      Dict Text (StateDefinition F) → List Text → Option (List (StateDefinition F))
  definitions_of states [] = some []
  definitions_of states (code ∷ codes) =
      let others = definitions_of states codes in
      elim (get states code) [
        | none ↦ none
        | some d ↦ elim others [ none ↦ none | some ds ↦ some (d ∷ ds) ]
      ]

  unfoldable pub definitions : Registry F → Option (List (StateDefinition F))
  unfolding definitions_of
  definitions r = definitions_of r.states r.canonical_codes
