-- ===== src/Lock/Progress.antt =====
-- Threads do not wait for each other in a circle.
use iec104_python.Base.{
  ℕ, ◌≡◌, ◌≢◌, ◌⊎◌, inl, inr, refl, arith, Bool, true, false, List, Option, Option-cases, none,
  some,
}
use iec104_python.Lock.{
  Phase, running, acquiring, locking, locked, timed_out, unlocking, unlocked, World, Action,
  take_lock, give_up, return_lock, throw_lock, release_lock, return_unlock, start_acquire, acquire,
  has, regain, act, step, steps, initial,
}
use iec104_python.Lock.Safety.{
  is_running, is_waiting, is_inside, fits, IsSafe, steps-IsSafe, initial-IsSafe,
}

abbrev is_possible : Option World → Bool
is_possible none = false
is_possible (some w) = true

-- A step of a thread is possible, other than giving up the wait for the mutex.
abbrev pub Goes : ℕ → World → Type 0
Goes t w = (a : Action) × (a ≢ give_up) × (is_possible (step a t w) ≡ true)

goes :
    (a : Action) (t : ℕ) (p : Phase) (w : World)
    → w.phase t ≡ p
    → a ≢ give_up
    → is_possible (act a t p w) ≡ true
    → Goes t w
unfolding step
goes a t p w e n h = (a, n, rw e h)

running_of_test : (p : Phase) → is_running p ≡ true → p ≡ running
running_of_test running h = refl
running_of_test acquiring h = absurd (cc h)
running_of_test (locking had) h = absurd (cc h)
running_of_test (locked had) h = absurd (cc h)
running_of_test (timed_out had) h = absurd (cc h)
running_of_test (unlocking had) h = absurd (cc h)
running_of_test (unlocked had) h = absurd (cc h)

test_of_fit :
    (t : ℕ) (gil owner : Option ℕ) (p : Phase)
    → gil ≡ some t
    → fits t gil owner p ≡ true
    → is_running p ≡ true
test_of_fit t gil owner p e h = ground (arith, e, h)

-- The thread that has the GIL is not in a call, and can go on.
holder-Goes : (u : ℕ) (w : World) → IsSafe w → w.gil ≡ some u → Goes u w
unfolding act
holder-Goes u w safe e =
    let running_now : w.phase u ≡ running =
      running_of_test (w.phase u) (test_of_fit u w.gil w.owner (w.phase u) e (safe u)) in
    goes start_acquire u running w running_now (λ e. cc e) (ground arith)

-- A thread goes on, or waits for the GIL of one that does.
abbrev pub GoesSoon : ℕ → World → Type 0
GoesSoon t w = Goes t w ⊎ ((u : ℕ) × (w.gil ≡ some u) × Goes u w)

regain-GoesSoon :
    (a : Action) (had : Bool) (t : ℕ) (p : Phase) (w : World)
    → IsSafe w
    → w.phase t ≡ p
    → a ≢ give_up
    → act a t p w ≡ regain had t w
    → GoesSoon t w
unfolding regain
regain-GoesSoon a had t p w safe at n e = elim (Option-cases w.gil) [
  | inl free ↦ inl (goes a t p w at n (rw e (ground (arith, free))))
  | inr (u, taken) ↦ inr (u, taken, holder-Goes u w safe taken)
]

not_locking-GoesSoon :
    (t : ℕ) (p : Phase) (w : World)
    → IsSafe w
    → w.phase t ≡ p
    → ((had : Bool) → p ≢ locking had)
    → GoesSoon t w
unfolding act
not_locking-GoesSoon t running w safe at n =
    inl (goes start_acquire t running w at (λ e. cc e) (ground arith))
not_locking-GoesSoon t acquiring w safe at n = elim (Option-cases w.gil) [
  | inl free ↦ inl (goes acquire t acquiring w at (λ e. cc e) (ground (arith, free)))
  | inr (u, taken) ↦ inr (u, taken, holder-Goes u w safe taken)
]
not_locking-GoesSoon t (locking had) w safe at n = absurd (n had refl)
not_locking-GoesSoon t (locked had) w safe at n =
    regain-GoesSoon return_lock had t (locked had) w safe at (λ e. cc e) refl
not_locking-GoesSoon t (timed_out had) w safe at n =
    regain-GoesSoon throw_lock had t (timed_out had) w safe at (λ e. cc e) refl
not_locking-GoesSoon t (unlocking had) w safe at n =
    inl (goes release_lock t (unlocking had) w at (λ e. cc e) refl)
not_locking-GoesSoon t (unlocked had) w safe at n =
    regain-GoesSoon return_unlock had t (unlocked had) w safe at (λ e. cc e) refl

-- A thread waits for the mutex, whose owner goes on, or will when the GIL is given back.
abbrev pub WaitsForMutex : ℕ → World → Type 0
WaitsForMutex t w = (u : ℕ) × (is_waiting (w.phase t) ≡ true) × (w.owner ≡ some u) × GoesSoon u w

owner_waits_not :
    (u : ℕ) (gil owner : Option ℕ) (p : Phase)
    → owner ≡ some u
    → fits u gil owner p ≡ true
    → is_waiting p ≡ false
owner_waits_not u gil owner running e h = refl
owner_waits_not u gil owner acquiring e h = refl
owner_waits_not u gil owner (locking had) e h = ground (arith, e, h)
owner_waits_not u gil owner (locked had) e h = refl
owner_waits_not u gil owner (timed_out had) e h = refl
owner_waits_not u gil owner (unlocking had) e h = refl
owner_waits_not u gil owner (unlocked had) e h = refl

owner-GoesSoon : (u : ℕ) (w : World) → IsSafe w → w.owner ≡ some u → GoesSoon u w
owner-GoesSoon u w safe e =
    not_locking-GoesSoon u (w.phase u) w safe refl
      λ had at. absurd (cc (owner_waits_not u w.gil w.owner (w.phase u) e (safe u), at))

waits :
    (t : ℕ) (p : Phase) (w : World) → IsSafe w → w.phase t ≡ p → GoesSoon t w ⊎ WaitsForMutex t w
unfolding act
waits t running w safe at = inl (not_locking-GoesSoon t running w safe at λ had e. cc e)
waits t acquiring w safe at = inl (not_locking-GoesSoon t acquiring w safe at λ had e. cc e)
waits t (locking had) w safe at = elim (Option-cases w.owner) [
  | inl free ↦ inl (inl (goes take_lock t (locking had) w at (λ e. cc e) (ground (arith, free))))
  | inr (u, taken) ↦ inr (u, rw at refl, taken, owner-GoesSoon u w safe taken)
]
waits t (locked had) w safe at = inl (not_locking-GoesSoon t (locked had) w safe at λ had e. cc e)
waits t (timed_out had) w safe at =
    inl (not_locking-GoesSoon t (timed_out had) w safe at λ had e. cc e)
waits t (unlocking had) w safe at =
    inl (not_locking-GoesSoon t (unlocking had) w safe at λ had e. cc e)
waits t (unlocked had) w safe at =
    inl (not_locking-GoesSoon t (unlocked had) w safe at λ had e. cc e)

inside_owns :
    (t : ℕ) (gil owner : Option ℕ) (p : Phase)
    → fits t gil owner p ≡ true
    → (is_inside p ≡ false) ⊎ (has t owner ≡ true)
inside_owns t gil owner p h = ground (arith, h)

-- Whatever steps the threads have made: a thread that is between the calls on the mutex in `lock` or
-- `unlock` owns it. Each thread can make a step without a timeout, or waits for the GIL, whose thread can
-- make one, or waits for the mutex, whose owner can make one or waits for the GIL, whose thread can
-- make one. So no threads wait for each other in a circle over one mutex and the GIL.
pub steps-GoesSoon :
    (actions : List (ℕ × Action)) (t : ℕ)
    → let w = steps actions initial in
      ((is_inside (w.phase t) ≡ false) ⊎ (has t w.owner ≡ true))
      × (GoesSoon t w ⊎ WaitsForMutex t w)
steps-GoesSoon actions t =
    let w = steps actions initial in
    let safe = steps-IsSafe actions initial initial-IsSafe in
    (inside_owns t w.gil w.owner (w.phase t) (safe t), waits t (w.phase t) w safe refl)
