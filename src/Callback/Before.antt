-- ===== src/Callback/Before.antt =====
-- The callbacks of a point before a read and before a report: their setters and their calls in
-- src/object/DataPoint.cpp. `station_local` says whether the station of the point is one of a server,
-- if it still exists.
use iec104_python.Base.{
  ◌≡◌, ◌≢◌, refl, sym, subst, arith, Bool, true, false, if◌then◌else◌, List, [], ◌∷◌, Option, none,
  some, Result, ok, err,
}
use iec104_python.Text.{Text}
use iec104_python.Callback.{Callable, Callback, CallbackError, Parameter, is_set, reset}
use iec104_python.Callback.Raw.{call_void}

pub data BeforeError : Type 0 where
  station_deleted set_by_client : BeforeError
  refused : CallbackError → BeforeError

module _ (print : List Parameter → Text → Text) where
  abbrev entered :
      Callback (Unit {0}) × Result CallbackError (Unit {0})
      → Callback (Unit {0}) × Result BeforeError (Unit {0})
  entered (c, ok done) = (c, ok tt)
  entered (c, err e) = (c, err (refused e))

  -- `setOnBeforeReadCallback` and `setOnBeforeAutoTransmitCallback`.
  unfoldable pub set_before :
      (station_local : Option Bool)
      → Option (Callable (Unit {0}))
      → Callback (Unit {0})
      → Callback (Unit {0}) × Result BeforeError (Unit {0})
  unfolding reset
  set_before none f c = (c, err station_deleted)
  set_before (some false) f c = (c, err set_by_client)
  set_before (some true) f c = entered (reset print f c)

  -- `onBeforeRead` and `onBeforeAutoTransmit`.
  unfoldable pub call_before :
      (during : List (Option (Callable (Unit {0})))) → Callback (Unit {0}) → Callback (Unit {0})
  unfolding is_set call_void
  call_before during c = let called = (call_void print during c).0 in if is_set c then called else c

  pub data BeforeStep : Type 0 where
    sets : (station_local : Option Bool) → Option (Callable (Unit {0})) → BeforeStep
    calls : BeforeStep

  unfoldable pub before_steps : List BeforeStep → Callback (Unit {0}) → Callback (Unit {0})
  unfolding set_before call_before
  before_steps [] c = c
  before_steps (sets station_local f ∷ rest) c = before_steps rest (set_before station_local f c).0
  before_steps (calls ∷ rest) c = before_steps rest (call_before [] c)

  abbrev IsOfClient : List BeforeStep → Type 0
  IsOfClient [] = Unit {0}
  IsOfClient (sets station_local f ∷ rest) = (station_local ≢ some true) × IsOfClient rest
  IsOfClient (calls ∷ rest) = IsOfClient rest

  call_before-free : (c : Callback (Unit {0})) → c.callback ≡ none → call_before [] c ≡ c
  unfolding call_before is_set
  call_before-free c free = ground (arith, free)

  -- A point that is not of a server, or whose station is gone, never has these callbacks.
  before_steps-client :
      (xs : List BeforeStep) (c : Callback (Unit {0}))
      → IsOfClient xs
      → c.callback ≡ none
      → before_steps xs c ≡ c
  unfolding before_steps set_before
  before_steps-client [] c client free = refl
  before_steps-client (sets none f ∷ rest) c client free = before_steps-client rest c client.1 free
  before_steps-client (sets (some false) f ∷ rest) c client free =
      before_steps-client rest c client.1 free
  before_steps-client (sets (some true) f ∷ rest) c client free = absurd (client.0 refl)
  before_steps-client (calls ∷ rest) c client free =
      subst (λ x. before_steps rest x ≡ c) (sym (call_before-free c free))
        (before_steps-client rest c client free)
