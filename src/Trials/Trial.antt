-- ===== src/Trials/Trial.antt =====
-- `Trial` of rest_client/nw_control/trial_provider.py: a name and a dictionary of parameters.
use cpsc_of_testbed.Base.{
  ℕ, String, ◌≡◌, refl, Bool, true, false, [], ◌∷◌, arith, Result, ok, raise, value_error, or_raise,
  ◌==◌, string_eq, nat_eq, if◌then◌else◌,
}
use cpsc_of_testbed.Base.Dict.{Dict, lookup, insert, has_key, lookup-insert}

-- A parameter is a text, a number or any other object, of which it matters only which it is.
pub data Value : Type 0 where
  text : String → Value
  number : ℕ → Value
  object : ℕ → Value

pub record Trial : Type 0 where
  pub name : String
  pub parameters : Dict String Value

-- `Trial(name)`; the identifier is the text of a random number.
unfoldable pub make : String → String → Trial
make name id = record { name = name; parameters = ("trial-name", text name) ∷ ("id", text id) ∷ [] }

unfoldable pub has_parameter : Trial → String → Bool
has_parameter t name = has_key name t.parameters

unfoldable pub add_parameter : Trial → String → Value → Result Trial
add_parameter t name v =
    if has_key name t.parameters
    then raise value_error
    else ok (record t { parameters = insert name v t.parameters })

unfoldable pub update_parameter : Trial → String → Value → Result Trial
update_parameter t name v =
    if has_key name t.parameters
    then ok (record t { parameters = insert name v t.parameters })
    else raise value_error

unfoldable pub get_parameter : Trial → String → Result Value
get_parameter t name = or_raise (lookup name t.parameters) value_error

-- The call succeeds; the parameter then reads as the value, and every other as before.
abbrev pub Sets : Trial → String → Value → Result Trial → Type 0
Sets t name v result =
    (t' : Trial) × (result ≡ ok t')
    × ((j : String) → get_parameter t' j ≡ (if name == j then ok v else get_parameter t j))

insert-Sets :
    (t : Trial) (name : String) (v : Value)
    → Sets t name v (ok (record t { parameters = insert name v t.parameters }))
unfolding get_parameter
insert-Sets t name v = (
  record t { parameters = insert name v t.parameters },
  refl,
  λ j. ground (arith, lookup-insert name j v t.parameters),
)

-- A parameter that is new can be added and not updated, and one that is there can be updated and
-- not added: the wrong call raises ValueError, the right one changes this parameter alone.
pub add_or_update_parameter :
    (t : Trial) (name : String) (v : Value)
    → (has_parameter t name ≡ false
        → Sets t name v (add_parameter t name v) × (update_parameter t name v ≡ raise value_error))
      × (has_parameter t name ≡ true
          → Sets t name v (update_parameter t name v)
            × (add_parameter t name v ≡ raise value_error))
unfolding has_parameter add_parameter update_parameter
add_or_update_parameter t name v = (
  λ missing. (rw missing (insert-Sets t name v), rw missing),
  λ present. (rw present (insert-Sets t name v), rw present),
)
