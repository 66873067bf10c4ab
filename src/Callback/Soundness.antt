-- ===== src/Callback/Soundness.antt =====
-- The registrations and calls of src/module/Callback.h in any order: what is registered has the expected
-- signature, and a result that can be read has been stored.
use iec104_python.Base.{
  ◌≡◌, ◌≢◌, subst, Bool, Bool-cases, inl, inr, true, false, List, [], ◌∷◌, Option, none, some, refl,
}
use iec104_python.Text.{Text, same_text}
use iec104_python.Callback.{
  Parameter, Signature, no_callable, callable_with, Called, raised, unsuited, gave, Callable,
  Callback, without_spaces, required, new_callback, unset, complete, register, reset, resets,
  invoke, call,
}

unfoldable pub is_fit : (List Parameter → Text → Text) → Text → Signature → Bool
is_fit print expected no_callable = false
is_fit print expected (callable_with ps annotation) =
    same_text expected (without_spaces (print (required ps) annotation))

-- What can happen to a callback.
pub data Step {ℓ} (T : Type ℓ) : Type ℓ where
  registered : Option (Callable T) → Step T
  called : (during : List (Option (Callable T))) → Step T

module _ {ℓ} {T : Type ℓ} (print : List Parameter → Text → Text) where
  abbrev pub IsFit : Text → Option (Callable T) → Type 0
  IsFit expected none = Unit {0}
  IsFit expected (some f) = is_fit print expected f.signature ≡ true

  pub record IsSound (signature : Text) (c : Callback T) : Type ℓ where
    pub same : c.expected ≡ without_spaces signature
    pub fit : IsFit c.expected c.callback
    pub stored : c.success ≡ true → c.result ≢ none

  unfoldable pub step : Step T → Callback T → Callback T
  unfolding reset call
  step (registered f) c = (reset print f c).0
  step (called during) c = (call print during c).0

  unfoldable pub steps : List (Step T) → Callback T → Callback T
  unfolding step
  steps [] c = c
  steps (x ∷ xs) c = steps xs (step x c)

  module _ (signature : Text) where
    unset-IsSound : (c : Callback T) → IsSound signature c → IsSound signature (unset c)
    unfolding unset
    unset-IsSound c s = record { same = s.same; fit = tt; stored = λ h. cc }

    register-IsSound :
        (x : Signature) (f : Callable T) (c : Callback T)
        → x ≡ f.signature
        → IsSound signature c
        → IsSound signature (register print x f c).0
    unfolding register is_fit
    register-IsSound no_callable f c e s = s
    register-IsSound (callable_with ps annotation) f c e s =
        elim (Bool-cases (same_text c.expected (without_spaces (print (required ps) annotation)))) [
          | inl h ↦ rw h (record {
            same = s.same;
            fit = subst (λ y. is_fit print c.expected y ≡ true) e h;
            stored = s.stored;
          })
          | inr h ↦ rw h (unset-IsSound c s)
        ]

    reset-IsSound :
        (f : Option (Callable T)) (c : Callback T)
        → IsSound signature c
        → IsSound signature (reset print f c).0
    unfolding reset
    reset-IsSound none c s = unset-IsSound c s
    reset-IsSound (some f) c s = register-IsSound f.signature f c refl s

    resets-IsSound :
        (fs : List (Option (Callable T))) (c : Callback T)
        → IsSound signature c
        → IsSound signature (resets print fs c)
    unfolding resets
    resets-IsSound [] c s = s
    resets-IsSound (f ∷ fs) c s = resets-IsSound fs (reset print f c).0 (reset-IsSound f c s)

    complete-IsSound :
        (r : Called T) (c : Callback T) → IsSound signature c → IsSound signature (complete r c).0
    unfolding complete
    complete-IsSound raised c s = unset-IsSound c s
    complete-IsSound unsuited c s = s
    complete-IsSound (gave v) c s = record { same = s.same; fit = s.fit; stored = λ h. λ e. cc }

    invoke-IsSound :
        (during : List (Option (Callable T))) (f : Option (Callable T)) (c : Callback T)
        → IsSound signature c
        → IsSound signature (invoke print during f c).0
    unfolding invoke
    invoke-IsSound during none c s = s
    invoke-IsSound during (some f) c s =
        complete-IsSound f.run (resets print during c) (resets-IsSound during c s)

    step-IsSound :
        (x : Step T) (c : Callback T) → IsSound signature c → IsSound signature (step x c)
    unfolding step call
    step-IsSound (registered f) c s = reset-IsSound f c s
    step-IsSound (called during) c s = invoke-IsSound during c.callback c s

    steps_from :
        (xs : List (Step T)) (c : Callback T) → IsSound signature c → IsSound signature (steps xs c)
    unfolding steps
    steps_from [] c s = s
    steps_from (x ∷ xs) c s = steps_from xs (step x c) (step-IsSound x c s)

    -- Whatever is registered and called, in whatever order and also while a callable runs, what a
    -- callback holds has the signature it was made for, up to spaces and parameters with a default, and
    -- where it says that a call succeeded there is a result to read.
    pub steps-IsSound : (xs : List (Step T)) → IsSound signature (steps xs (new_callback signature))
    unfolding new_callback
    steps-IsSound xs =
        steps_from xs (new_callback signature) (record { same = refl; fit = tt; stored = λ h. cc })
