-- ===== src/Lock/Safety.antt =====
-- Who has the GIL and who owns the mutex.
use iec104_python.Base.{
  ℕ, ◌≡◌, refl, arith, Bool, true, false, not, ◌&&◌, ◌||◌, List, [], ◌∷◌, Option, Option-cases,
  none, some,
}
use iec104_python.Lock.{
  Phase, running, acquiring, locking, locked, timed_out, unlocking, unlocked, World, Action,
  start_lock, take_lock, give_up, return_lock, throw_lock, start_unlock, release_lock,
  return_unlock, start_acquire, acquire, release, has, regain, act, step, or_stay, steps, initial,
}

abbrev pub is_running : Phase → Bool
is_running running = true
is_running _ = false

abbrev pub is_waiting : Phase → Bool
is_waiting (locking had) = true
is_waiting _ = false

-- Between the two calls on the mutex in `lock` and `unlock`.
abbrev pub is_inside : Phase → Bool
is_inside (locked had) = true
is_inside (unlocking had) = true
is_inside _ = false

-- In a call, without the mutex.
abbrev pub is_outside : Phase → Bool
is_outside (locking had) = true
is_outside (timed_out had) = true
is_outside (unlocked had) = true
is_outside _ = false

-- Whoever has the GIL is outside of the calls; the mutex belongs to whoever is between its calls, and to
-- no thread that waits for it.
abbrev pub fits : ℕ → Option ℕ → Option ℕ → Phase → Bool
fits t gil owner p =
    (not (has t gil) || is_running p)
    && (not (is_inside p) || has t owner)
    && (not (is_outside p) || not (has t owner))

abbrev pub IsSafe : World → Type 0
IsSafe w = (t : ℕ) → fits t w.gil w.owner (w.phase t) ≡ true

-- If a step is possible, the thread fits after it.
abbrev fits_after : ℕ → Option World → Bool
fits_after u none = true
fits_after u (some w) = fits u w.gil w.owner (w.phase u)

regain-fits :
    (had : Bool) (t u : ℕ) (p : Phase) (w : World)
    → is_running p ≡ false
    → fits t w.gil w.owner p ≡ true
    → fits u w.gil w.owner (w.phase u) ≡ true
    → fits_after u (regain had t w) ≡ true
unfolding regain
regain-fits true t u p w r h k = ground (arith, Option-cases w.gil, Option-cases w.owner)
regain-fits false t u p w r h k = ground (arith, Option-cases w.gil, Option-cases w.owner)

act-fits :
    (a : Action) (t u : ℕ) (p : Phase) (w : World)
    → fits t w.gil w.owner p ≡ true
    → fits u w.gil w.owner (w.phase u) ≡ true
    → fits_after u (act a t p w) ≡ true
unfolding act
act-fits start_lock t u running w h k = ground (arith, Option-cases w.gil, Option-cases w.owner)
act-fits take_lock t u (locking had) w h k =
    ground (arith, Option-cases w.gil, Option-cases w.owner)
act-fits give_up t u (locking had) w h k = ground (arith, Option-cases w.gil, Option-cases w.owner)
act-fits return_lock t u (locked had) w h k = regain-fits had t u (locked had) w refl h k
act-fits throw_lock t u (timed_out had) w h k = regain-fits had t u (timed_out had) w refl h k
act-fits start_unlock t u running w h k = ground (arith, Option-cases w.gil, Option-cases w.owner)
act-fits release_lock t u (unlocking had) w h k =
    ground (arith, Option-cases w.gil, Option-cases w.owner)
act-fits return_unlock t u (unlocked had) w h k = regain-fits had t u (unlocked had) w refl h k
act-fits start_acquire t u running w h k = ground (arith, Option-cases w.gil, Option-cases w.owner)
act-fits acquire t u acquiring w h k = ground (arith, Option-cases w.gil, Option-cases w.owner)
act-fits release t u running w h k = ground (arith, Option-cases w.gil, Option-cases w.owner)
act-fits a t u p w h k = refl

or_stay-fits :
    (u : ℕ) (w : World) (after : Option World)
    → fits_after u after ≡ true
    → fits u w.gil w.owner (w.phase u) ≡ true
    → fits u (or_stay w after).gil (or_stay w after).owner ((or_stay w after).phase u) ≡ true
or_stay-fits u w none h k = k
or_stay-fits u w (some w') h k = h

pub steps-IsSafe : (actions : List (ℕ × Action)) (w : World) → IsSafe w → IsSafe (steps actions w)
unfolding steps step
steps-IsSafe [] w safe = safe
steps-IsSafe ((t, a) ∷ rest) w safe =
    steps-IsSafe rest (or_stay w (step a t w))
      λ u. or_stay-fits u w (step a t w) (act-fits a t u (w.phase t) w (safe t) (safe u)) (safe u)

pub initial-IsSafe : IsSafe initial
initial-IsSafe t = ground arith
