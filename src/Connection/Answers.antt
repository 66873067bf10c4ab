-- ===== src/Connection/Answers.antt =====
-- What `awaitCommandSuccess` returns, whatever other threads do to the map while it waits.
use iec104_python.Base.{
  ℕ, ◌≡◌, refl, inl, inr, Bool, true, false, not, ◌==◌, ◌&&◌, if◌then◌else◌, List, [], ◌∷◌, Option,
  none, some, arith, Bool-cases,
}
use iec104_python.Connection.State.{CmdId}
use iec104_python.Connection.Pending.{Pending, same_id, find, erase, find-insert, find-erase}
use iec104_python.Connection.Command.{
  Move, prepared, responded, ended, move, moves, ends, ends_any, timed_out, notified, Wake, Awaited,
  waiting, fault, returned, finish, await_loop, await_command_success,
}

abbrev pub Schedule : Type 0
Schedule = List (List Move × Wake)

-- No other thread ends a wait for `id` in the schedule.
abbrev pub ends_none : CmdId → Schedule → Bool
ends_none id [] = true
ends_none id ((xs, w) ∷ rest) = not (ends_any id xs) && ends_none id rest

-- The entry of `id` after one move: 3 if prepared again, the answer if one came.
abbrev pub entry : CmdId → ℕ → Move → ℕ
entry id v (prepared j) = if same_id j id then 3 else v
entry id v (responded j negative) = if same_id j id then if negative then 0 else 1 else v
entry id v (ended j) = v

abbrev pub entries : CmdId → ℕ → List Move → ℕ
entries id v [] = v
entries id v (x ∷ xs) = entries id (entry id v x) xs

-- The result by the answers alone: none while the wait goes on, false on a timeout, and else what
-- the answer that stands at a wake-up says.
abbrev pub verdict : CmdId → ℕ → Schedule → Option Bool
verdict id v [] = none
verdict id v ((xs, timed_out) ∷ rest) = some false
verdict id v ((xs, notified) ∷ rest) =
    let later = verdict id (entries id v xs) rest in
    if entries id v xs == 3 then later else some (entries id v xs == 1)

find_same : (j id : CmdId) (m : Pending) → same_id j id ≡ true → find j m ≡ find id m
unfolding find
find_same j id [] h = refl
find_same j id ((k, v) ∷ m) h = ground (arith, find_same j id m h)

find-move :
    (id : CmdId) (v : ℕ) (x : Move) (m : Pending)
    → find id m ≡ some v
    → ends id x ≡ false
    → find id (move x m) ≡ some (entry id v x)
unfolding move
find-move id v (prepared j) m h e = ground (arith, find-insert id j 3 m)
find-move id v (responded j negative) m h e =
    ground (arith, find_same j id m, find-insert id j 0 m, find-insert id j 1 m)
find-move id v (ended j) m h e = ground (arith, find-erase id j m)

find-moves :
    (id : CmdId) (v : ℕ) (xs : List Move) (m : Pending)
    → find id m ≡ some v
    → ends_any id xs ≡ false
    → find id (moves xs m) ≡ some (entries id v xs)
unfolding moves
find-moves id v [] m h e = h
find-moves id v (x ∷ xs) m h e =
    find-moves id (entry id v x) xs (move x m) (find-move id v x m h (ground arith)) (ground arith)

-- The outcome that a verdict stands for; a wait that returns has taken its entry out of the map.
abbrev pub Outcome : CmdId → Option Bool → Awaited → Type 0
Outcome id none r = r ≡ waiting
Outcome id (some b) r = (m : Pending) × (r ≡ returned b m) × (find id m ≡ none)

find-erase_self : (id : CmdId) (m : Pending) → find id (erase id m) ≡ none
find-erase_self id m = ground (arith, find-erase id id m)

module _ (id : CmdId) (v : ℕ) (xs : List Move) (rest : Schedule) (m : Pending)
    (found : find id (moves xs m) ≡ some v) where
  loop_unanswered :
      (v == 3) ≡ true
      → ends_any id xs ≡ false
      → await_loop id true ((xs, notified) ∷ rest) m ≡ await_loop id true rest (moves xs m)
  unfolding await_loop
  loop_unanswered still kept = ground arith

  loop_answered :
      (v == 3) ≡ false
      → ends_any id xs ≡ false
      → await_loop id true ((xs, notified) ∷ rest) m ≡ returned (v == 1) (erase id (moves xs m))
  unfolding await_loop finish
  loop_answered done kept = ground arith

loop-Outcome :
    (id : CmdId) (v : ℕ) (schedule : Schedule) (m : Pending)
    → find id m ≡ some v
    → ends_none id schedule ≡ true
    → Outcome id (verdict id v schedule) (await_loop id true schedule m)
unfolding await_loop finish
loop-Outcome id v [] m h e = refl
loop-Outcome id v ((xs, timed_out) ∷ rest) m h e =
    (erase id (moves xs m), ground arith, find-erase_self id (moves xs m))
loop-Outcome id v ((xs, notified) ∷ rest) m h e =
    let kept : ends_any id xs ≡ false = ground arith in
    let found = find-moves id v xs m h kept in
    elim (Bool-cases (entries id v xs == 3)) [
      | inl still ↦
          rw (still, loop_unanswered id (entries id v xs) xs rest m found still kept)
            (loop-Outcome id (entries id v xs) rest (moves xs m) found (ground arith))
      | inr done ↦
          rw (done, loop_answered id (entries id v xs) xs rest m found done kept)
            (erase id (moves xs m), refl, find-erase_self id (moves xs m))
    ]

-- Where no other thread ends a wait for the same command, a prepared wait meets no fault: it goes on
-- until a timeout or a wake-up at which an answer stands, and returns whether that answer is positive.
pub await-Outcome :
    (id : CmdId) (v : ℕ) (schedule : Schedule) (m : Pending)
    → find id m ≡ some v
    → ends_none id schedule ≡ true
    → Outcome id (verdict id v schedule) (await_command_success id schedule m)
unfolding await_command_success
await-Outcome id v schedule m h e = rw (h, await_command_success) (loop-Outcome id v schedule m h e)

-- Two threads that wait for the same command: once another has ended its wait in this thread's
-- last round, the end of this wait erases an entry that is gone.
await_twice_fault :
    (id : CmdId) (v : ℕ) (xs : List Move) (rest : Schedule) (m : Pending)
    → find id m ≡ some v
    → ends_any id xs ≡ true
    → await_command_success id ((xs, timed_out) ∷ rest) m ≡ fault
unfolding await_command_success await_loop finish
await_twice_fault id v xs rest m h e = ground arith
