-- ===== src/Callback.antt =====
-- src/module/Callback.h: a Python callback, its registration, its call and its result.
-- How `inspect` prints a signature is an argument; texts are lists of character codes. A round of the
-- lock is one step: what other threads, or the callback itself, register meanwhile is an argument.
use iec104_python.Base.{
  ℕ, ◌≡◌, Bool, true, false, not, ◌==◌, ◌||◌, elem, if◌then◌else◌, List, [], ◌∷◌, Option, none,
  some, Result, ok, err,
}
use iec104_python.Text.{Text, same_text}
pub mod Soundness
pub mod Answers
pub mod Raw
pub mod Before

-- The codes for which `isspace` holds in the C locale.
unfoldable pub without_spaces : Text → Text
without_spaces [] = []
without_spaces (c ∷ cs) =
    let rest = without_spaces cs in
    if elem c (9 ∷ 10 ∷ 11 ∷ 12 ∷ 13 ∷ 32 ∷ []) then rest else c ∷ rest

pub record Parameter : Type 0 where
  pub declaration : Text
  pub has_default : Bool

-- `inspect.signature` raises for what is no callable.
pub data Signature : Type 0 where
  no_callable : Signature
  callable_with : List Parameter → (annotation : Text) → Signature

-- What the call does: it raises an exception of Python, or returns a value that `py::cast` refuses, or
-- one of the type of the result.
pub data Called {ℓ} (T : Type ℓ) : Type ℓ where
  raised unsuited : Called T
  gave : T → Called T

pub record Callable {ℓ} (T : Type ℓ) : Type ℓ where
  pub signature : Signature
  pub run : Called T

-- `result` is empty until the first value is stored.
pub record Callback {ℓ} (T : Type ℓ) : Type ℓ where
  pub callback : Option (Callable T)
  pub expected : Text
  pub success : Bool
  pub result : Option T

pub data CallbackError : Type 0 where
  not_callable invalid_signature no_result cast_error : CallbackError

unfoldable pub required : List Parameter → List Parameter
required [] = []
required (p ∷ ps) = let rest = required ps in if p.has_default then rest else p ∷ rest

module _ {ℓ} {T : Type ℓ} where
  unfoldable pub new_callback : (signature : Text) → Callback T
  unfolding without_spaces
  new_callback signature = record {
    callback = none;
    expected = without_spaces signature;
    success = false;
    result = none;
  }

  unfoldable pub unset : Callback T → Callback T
  unset c = record c { callback = none; success = false }

  abbrev pub is_some : Option (Callable T) → Bool
  is_some none = false
  is_some (some f) = true

  unfoldable pub is_set : Callback T → Bool
  is_set c = is_some c.callback

  -- The object that `call` copied is run, and what it did is entered.
  unfoldable pub complete : Called T → Callback T → Callback T × Result CallbackError Bool
  unfolding unset
  complete raised c = (unset c, ok false)
  complete unsuited c = (c, err cast_error)
  complete (gave v) c = (record c { success = true; result = some v }, ok true)

  unfoldable pub get_result : Callback T → Result CallbackError (Option T)
  get_result c = if c.success then ok c.result else err no_result

module _ {ℓ} {T : Type ℓ} (print : List Parameter → Text → Text) where
  -- The printed signature of the parameters without a default, compared without spaces.
  unfoldable pub register :
      Signature → Callable T → Callback T → Callback T × Result CallbackError (Unit {0})
  unfolding unset
  register no_callable f c = (c, err not_callable)
  register (callable_with ps annotation) f c =
      if same_text c.expected (without_spaces (print (required ps) annotation))
      then (record c { callback = some f }, ok tt)
      else (unset c, err invalid_signature)

  unfoldable pub reset :
      Option (Callable T) → Callback T → Callback T × Result CallbackError (Unit {0})
  unfolding unset register
  reset none c = (unset c, ok tt)
  reset (some f) c = register f.signature f c

  unfoldable pub resets : List (Option (Callable T)) → Callback T → Callback T
  unfolding reset
  resets [] c = c
  resets (f ∷ fs) c = resets fs (reset f c).0

  -- The object that `call` copied is run; `during` is registered while it runs.
  unfoldable pub invoke :
      (during : List (Option (Callable T)))
      → Option (Callable T)
      → Callback T
      → Callback T × Result CallbackError Bool
  unfolding resets complete
  invoke during none c = (c, ok false)
  invoke during (some f) c = complete f.run (resets during c)

  unfoldable pub call :
      (during : List (Option (Callable T))) → Callback T → Callback T × Result CallbackError Bool
  unfolding invoke
  call during c = invoke during c.callback c
