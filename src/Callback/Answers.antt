-- ===== src/Callback/Answers.antt =====
-- How the handlers of src/object/DataPoint.cpp and src/Server.cpp take the answer of a callback.
use iec104_python.Base.{
  ◌≡◌, ◌∙◌, ap, refl, Bool, true, false, not, if◌then◌else◌, List, [], ◌∷◌, Option, none, some,
  Result, ok, err, arith,
}
use iec104_python.Point.Update.{ResponseState, success, failure}
use iec104_python.Text.{Text}
use iec104_python.Callback.{
  Parameter, Signature, no_callable, callable_with, Called, raised, unsuited, gave, Callable,
  Callback, CallbackError, unset, is_set, complete, get_result, is_some, register, reset, resets,
  invoke, call,
}
use iec104_python.Callback.Soundness.{is_fit}

-- An exception of C++ that no handler catches, or a value; `unstored` where the result read was
-- never written.
pub data Answer {ℓ} (T : Type ℓ) : Type ℓ where
  escapes unstored : Answer T
  answer : T → Answer T

module _ {ℓ} {T : Type ℓ} where
  abbrev stored_answer : Option T → Answer T
  stored_answer none = unstored
  stored_answer (some v) = answer v

  -- The `catch` around `getResult`.
  abbrev pub read_answer : (invalid : T) → Result CallbackError (Option T) → Answer T
  read_answer invalid (ok r) = stored_answer r
  read_answer invalid (err e) = answer invalid

  -- What `ask` answers, by what the callable does that is there when the call begins.
  abbrev pub outcome : (default invalid : T) → (taken_off : Bool) → Called T → Answer T
  outcome default invalid taken_off raised = answer default
  outcome default invalid taken_off unsuited = escapes
  outcome default invalid taken_off (gave v) = answer (if taken_off then invalid else v)

  abbrev pub answer_of : (default invalid : T) → (taken_off : Bool) → Option (Callable T) → Answer T
  answer_of default invalid taken_off none = answer default
  answer_of default invalid taken_off (some f) = outcome default invalid taken_off f.run

-- The registrations that take the callback off: of nothing, and of what has another signature.
abbrev pub is_unfit : (List Parameter → Text → Text) → Text → Signature → Bool
is_unfit print expected no_callable = false
is_unfit print expected (callable_with ps annotation) =
    not (is_fit print expected (callable_with ps annotation))

module _ {ℓ} {T : Type ℓ} (print : List Parameter → Text → Text) where
  unfoldable pub take_answer :
      (default invalid : T)
      → (between : List (Option (Callable T))) → Callback T × Result CallbackError Bool
      → Callback T × Answer T
  unfolding resets get_result
  take_answer default invalid between (c, err e) = (c, escapes)
  take_answer default invalid between (c, ok false) = (c, answer default)
  take_answer default invalid between (c, ok true) =
      let c' = resets print between c in (c', read_answer invalid (get_result c'))

  -- The callback is called if it is set; `between` is registered before its result is read.
  unfoldable pub ask :
      (default invalid : T)
      → (during between : List (Option (Callable T))) → Callback T
      → Callback T × Answer T
  unfolding is_set call take_answer
  ask default invalid during between c =
      if is_set c
      then take_answer default invalid between (call print during c)
      else (c, answer default)

  unfoldable pub takes_off : Text → Option (Callable T) → Bool
  takes_off expected none = true
  takes_off expected (some f) = is_unfit print expected f.signature

  unfoldable pub any_takes_off : Text → List (Option (Callable T)) → Bool
  unfolding takes_off
  any_takes_off expected [] = false
  any_takes_off expected (f ∷ fs) =
      let rest = any_takes_off expected fs in if takes_off expected f then true else rest

  register-fields :
      (x : Signature) (f : Callable T) (c : Callback T)
      → let c' = (register print x f c).0 in
        (c'.expected ≡ c.expected)
        × (c'.result ≡ c.result)
        × (c'.success ≡ (if is_unfit print c.expected x then false else c.success))
  unfolding register is_fit unset
  register-fields no_callable f c = (refl, refl, refl)
  register-fields (callable_with ps annotation) f c = ground arith

  reset-fields :
      (f : Option (Callable T)) (c : Callback T)
      → let c' = (reset print f c).0 in
        (c'.expected ≡ c.expected)
        × (c'.result ≡ c.result)
        × (c'.success ≡ (if takes_off c.expected f then false else c.success))
  unfolding reset takes_off unset
  reset-fields none c = (refl, refl, refl)
  reset-fields (some f) c = register-fields f.signature f c

  resets-fields :
      (fs : List (Option (Callable T))) (c : Callback T)
      → let c' = resets print fs c in
        (c'.expected ≡ c.expected)
        × (c'.result ≡ c.result)
        × (c'.success ≡ (if any_takes_off c.expected fs then false else c.success))
  unfolding resets any_takes_off
  resets-fields [] c = (refl, refl, refl)
  resets-fields (f ∷ fs) c = ground (arith, reset-fields f c, resets-fields fs (reset print f c).0)

  take_answer-complete :
      (default invalid : T) (between : List (Option (Callable T))) (r : Called T) (c : Callback T)
      → (take_answer default invalid between (complete r c)).1
        ≡ outcome default invalid (any_takes_off c.expected between) r
  unfolding take_answer complete get_result
  take_answer-complete default invalid between raised c = refl
  take_answer-complete default invalid between unsuited c = refl
  take_answer-complete default invalid between (gave v) c =
      ground (arith, resets-fields between (record c { success = true; result = some v }))

  ask_of :
      (default invalid : T) (during between : List (Option (Callable T))) (x : Option (Callable T))
      (c : Callback T)
      → (if is_some x
          then take_answer default invalid between (invoke print during x c)
          else (c, answer default)).1
        ≡ answer_of default invalid (any_takes_off c.expected between) x
  unfolding invoke
  ask_of default invalid during between none c = refl
  ask_of default invalid during between (some f) c =
      let c' = resets print during c in
      take_answer-complete default invalid between f.run c'
      ∙ ap (λ t. outcome default invalid (any_takes_off t between) f.run) (resets-fields during c).0

  -- A handler that asks a callback answers the default where none is set and where the callable raises
  -- an exception, also if another one is registered while it runs; a value of the wrong type is an
  -- exception that leaves the handler; and a value is the answer, but for the handler's invalid one
  -- where the callback is taken off before its result is read.
  pub ask_lem :
      (default invalid : T) (during between : List (Option (Callable T))) (c : Callback T)
      → (ask default invalid during between c).1
        ≡ answer_of default invalid (any_takes_off c.expected between) c.callback
  unfolding ask is_set call
  ask_lem default invalid during between c = ask_of default invalid during between c.callback c

-- `onReceive`, `onClockSync` and `connectionRequestHandler`.
module _ (print : List Parameter → Text → Text) where
  unfoldable pub ask_response :
      (during between : List (Option (Callable ResponseState)))
      → Callback ResponseState
      → Callback ResponseState × Answer ResponseState
  unfolding ask
  ask_response = ask print success failure

  unfoldable pub connection_request :
      (during between : List (Option (Callable Bool))) → Callback Bool → Callback Bool × Answer Bool
  unfolding ask
  connection_request = ask print true false
