-- ===== src/Scenarios/Callbacks.antt =====
-- A callback that is registered, called and replaced.
use iec104_python.Base.{◌≡◌, refl, true, false, List, [], ◌∷◌, ◌++◌, none, some}
use iec104_python.Point.Update.{ResponseState, success, failure}
use iec104_python.Text.{Text, same_text}
use iec104_python.Callback.{
  Parameter, callable_with, raised, gave, Callable, Callback, new_callback, reset, register,
  required, without_spaces,
}
use iec104_python.Callback.Soundness.{Step, registered, called, IsSound, steps, steps-IsSound}
use iec104_python.Callback.Answers.{answer_of, any_takes_off, ask, ask_lem}

-- The declarations, in order, and the annotation.
abbrev print : List Parameter → Text → Text
print [] annotation = annotation
print (p ∷ ps) annotation = p.declaration ++ print ps annotation

abbrev expected : Text
expected = 40 ∷ 32 ∷ 41 ∷ []

abbrev fitting : Callable ResponseState
fitting = record {
  signature =
      callable_with
        (record { declaration = 40 ∷ []; has_default = false }
          ∷ record { declaration = 9 ∷ 1 ∷ []; has_default = true }
          ∷ [])
        (41 ∷ []);
  run = gave failure;
}

abbrev failing : Callable ResponseState
failing = record { signature = callable_with [] (40 ∷ 41 ∷ []); run = raised }

abbrev wrong : Callable ResponseState
wrong = record { signature = callable_with [] []; run = gave success }

abbrev a_callback : Callback ResponseState
a_callback = record {
  callback = some fitting;
  expected = 40 ∷ 41 ∷ [];
  success = false;
  result = none;
}

is_registered : (reset print (some fitting) (new_callback expected)).0 ≡ a_callback
unfolding reset register new_callback required same_text without_spaces
is_registered = refl

abbrev some_steps : List (Step ResponseState)
some_steps =
    registered (some fitting)
    ∷ called []
    ∷ registered (some wrong)
    ∷ registered (some failing)
    ∷ called (some fitting ∷ [])
    ∷ []

steps-IsSound_example : IsSound print expected (steps print some_steps (new_callback expected))
steps-IsSound_example = steps-IsSound print expected some_steps

ask_lem_example :
    (ask print success failure [] (some wrong ∷ []) a_callback).1
    ≡ answer_of success failure
        (any_takes_off print (40 ∷ 41 ∷ []) (some wrong ∷ []))
        (some fitting)
ask_lem_example = ask_lem print success failure [] (some wrong ∷ []) a_callback
