-- ===== src/Scenarios/Locks.antt =====
-- Two threads with a mutex and the GIL.
use iec104_python.Base.{◌≡◌, ◌⊎◌, refl, true, false, List, [], ◌∷◌, some, ℕ}
use iec104_python.Lock.{
  running, locking, Action, start_lock, take_lock, return_lock, start_acquire, acquire, has, act,
  regain, step, steps, initial,
}
use iec104_python.Lock.Safety.{is_inside}
use iec104_python.Lock.Progress.{GoesSoon, WaitsForMutex, steps-GoesSoon}

-- Thread 1 takes the GIL while thread 0 locks, and waits for the mutex without it.
abbrev some_actions : List (ℕ × Action)
some_actions =
    (0, start_lock)
    ∷ (0, take_lock)
    ∷ (1, start_acquire)
    ∷ (1, acquire)
    ∷ (0, return_lock)
    ∷ (1, start_lock)
    ∷ (1, take_lock)
    ∷ (0, return_lock)
    ∷ []

one_waits :
    let w = steps some_actions initial in
    (w.gil ≡ some 0) × (w.owner ≡ some 0) × (w.phase 0 ≡ running) × (w.phase 1 ≡ locking true)
unfolding steps step act regain
one_waits = (refl, refl, refl, refl)

steps-GoesSoon_example :
    let w = steps some_actions initial in
    ((is_inside (w.phase 1) ≡ false) ⊎ (has 1 w.owner ≡ true)) × (GoesSoon 1 w ⊎ WaitsForMutex 1 w)
steps-GoesSoon_example = steps-GoesSoon some_actions 1
