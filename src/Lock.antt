-- ===== src/Lock.antt =====
-- A `GilAwareMutex` and the lock of the Python interpreter (GIL), src/module/GilAwareMutex.h,
-- ScopedGilAcquire.h and ScopedGilRelease.h, step by step.
-- `try_lock` makes the steps of `lock`, and gives up at once. A thread that owns the mutex does not lock
-- it again, which is undefined. Threads are numbered. Where a thread has to wait, its step is not possible; what it does between its
-- calls is not seen, but for its taking and giving back the GIL by the two scoped classes.
pub mod Safety
pub mod Progress
use iec104_python.Base.{
  ℕ, Bool, true, false, ◌==◌, if◌then◌else◌, List, [], ◌∷◌, Option, none, some,
}

-- Where a thread is: outside of the calls; before the GIL is taken for a callback; and in `lock` and
-- `unlock`, with whether the thread had the GIL when the call began.
pub data Phase : Type 0 where
  running acquiring : Phase
  locking locked timed_out unlocking unlocked : (had_gil : Bool) → Phase

pub record World : Type 0 where
  pub gil : Option ℕ
  pub owner : Option ℕ
  pub phase : ℕ → Phase

pub data Action : Type 0 where
  start_lock take_lock give_up return_lock throw_lock : Action
  start_unlock release_lock return_unlock : Action
  start_acquire acquire release : Action

abbrev pub has : ℕ → Option ℕ → Bool
has t none = false
has t (some u) = u == t

abbrev pub is_free : Option ℕ → Bool
is_free none = true
is_free (some u) = false

abbrev pub enter : ℕ → Phase → World → World
enter t p w = record w { phase = λ u. if u == t then p else w.phase u }

-- The constructor of `ScopedGilRelease`.
abbrev pub without_gil : ℕ → World → World
without_gil t w = if has t w.gil then record w { gil = none } else w

-- The destructor of `ScopedGilRelease`: it waits for the GIL if the thread had it.
unfoldable pub regain : (had_gil : Bool) → ℕ → World → Option World
regain had_gil t w =
    let gained = enter t running (record w { gil = some t }) in
    if had_gil then if is_free w.gil then some gained else none else some (enter t running w)

-- `try_lock_for` waits for the mutex, for 100 ms at most.
unfoldable pub act : Action → ℕ → Phase → World → Option World
unfolding regain
act start_lock t running w =
    if has t w.owner then none else some (enter t (locking (has t w.gil)) (without_gil t w))
act take_lock t (locking had) w =
    if is_free w.owner then some (enter t (locked had) (record w { owner = some t })) else none
act give_up t (locking had) w = some (enter t (timed_out had) w)
act return_lock t (locked had) w = regain had t w
act throw_lock t (timed_out had) w = regain had t w
act start_unlock t running w =
    if has t w.owner then some (enter t (unlocking (has t w.gil)) (without_gil t w)) else none
act release_lock t (unlocking had) w = some (enter t (unlocked had) (record w { owner = none }))
act return_unlock t (unlocked had) w = regain had t w
act start_acquire t running w = if has t w.gil then some w else some (enter t acquiring w)
act acquire t acquiring w =
    if is_free w.gil then some (enter t running (record w { gil = some t })) else none
act release t running w = if has t w.gil then some (record w { gil = none }) else none
act _ t p w = none

unfoldable pub step : Action → ℕ → World → Option World
unfolding act
step a t w = act a t (w.phase t) w

-- A step of a thread that has to wait leaves everything as it is.
abbrev or_stay : World → Option World → World
or_stay w none = w
or_stay w (some w') = w'

unfoldable pub steps : List (ℕ × Action) → World → World
unfolding step
steps [] w = w
steps ((t, a) ∷ rest) w = steps rest (or_stay w (step a t w))

-- One thread has the GIL, and none is in a call.
abbrev pub initial : World
initial = record { gil = some 0; owner = none; phase = λ t. running }
