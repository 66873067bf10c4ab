-- ===== src/Connection/Command.antt =====
-- The commands of src/remote/Connection.cpp that may wait for an answer, and the wait itself.
-- Whether the library accepted what it was given to send is an argument, and so is what other
-- threads do to the map of awaited answers while this one waits.
use iec104_python.Base.{
  ℕ, Option, ◌+◌, ◌%◌, Bool, true, false, not, ◌==◌, ◌&&◌, ◌||◌, ltb, if◌then◌else◌, List, [], ◌∷◌,
  none, some,
}
use iec104_python.Protocol.{
  Cot, c_ic_na_1, c_ci_na_1, c_cs_na_1, c_ts_ta_1, c_rd_na_1, qoi_station, qoi_group_16,
}
use iec104_python.Connection.State.{
  CmdId, Effect, Connection, lib_interrogation, lib_counter_interrogation, lib_clock_sync, lib_test,
  lib_test_with_timestamp, lib_process_command, lib_read, fast_word, emit, is_open,
}
use iec104_python.Connection.Pending.{Pending, same_id, find, insert, erase}

-- What another thread does to the map: prepare a command, enter an answer, or end its own wait.
pub data Move : Type 0 where
  prepared : CmdId → Move
  responded : CmdId → (negative : Bool) → Move
  ended : CmdId → Move

unfoldable pub move : Move → Pending → Pending
move (prepared id) m = insert id 3 m
move (responded id negative) m = elim (find id m) [
  | some _ ↦ insert id (if negative then 0 else 1) m
  | none ↦ m
]
move (ended id) m = erase id m

unfoldable pub moves : List Move → Pending → Pending
unfolding move
moves [] m = m
moves (x ∷ xs) m = moves xs (move x m)

abbrev pub ends : CmdId → Move → Bool
ends id (ended j) = same_id j id
ends id _ = false

abbrev pub ends_any : CmdId → List Move → Bool
ends_any id [] = false
ends_any id (x ∷ xs) = ends id x || ends_any id xs

pub data Wake : Type 0 where
  timed_out notified : Wake

-- `waiting` if the schedule ends first; `fault` if the map is given an iterator to erase whose
-- entry is gone, which has no defined behaviour.
pub data Awaited : Type 0 where
  waiting fault : Awaited
  returned : (success : Bool) → Pending → Awaited

-- The end of the wait tests `it`, found before the wait, against the end of the map, and erases it.
unfoldable pub finish : CmdId → Bool → Bool → Pending → Awaited
finish id held success m = if held then returned success (erase id m) else fault

-- A round of `while (true)`: moves of other threads, then the wake-up. `held` says that the entry
-- that `it` points to has not been erased since.
unfoldable pub await_loop : CmdId → Bool → List (List Move × Wake) → Pending → Awaited
unfolding finish moves
await_loop id held [] m = waiting
await_loop id held ((xs, timed_out) ∷ rest) m =
    finish id (held && not (ends_any id xs)) false (moves xs m)
await_loop id held ((xs, notified) ∷ rest) m = elim (find id (moves xs m)) [
  | none ↦ await_loop id (held && not (ends_any id xs)) rest (moves xs m)
  | some v ↦ elim (v == 3) [
    | true ↦ await_loop id (held && not (ends_any id xs)) rest (moves xs m)
    | false ↦ finish id (held && not (ends_any id xs)) (v == 1) (moves xs m)
  ]
]

unfoldable pub await_command_success : CmdId → List (List Move × Wake) → Pending → Awaited
await_command_success id schedule m = elim (find id m) [
  | none ↦ returned false m
  | some _ ↦ await_loop id true schedule m
]

unfoldable pub prepare_command_success : CmdId → Connection → Connection
prepare_command_success id c = record c { expected = insert id 3 c.expected }

-- How a command ends: with a result at once, waiting for its answer, or by an exception.
pub data Sent : Type 0 where
  result : Bool → Sent
  awaits : CmdId → Sent
  invalid_qualifier : Sent

-- What all commands share: prepare the answer if one is waited for, send, and wait or return.
unfoldable pub send_command :
    CmdId → Effect → (wait_for_response accepted : Bool) → Connection → Connection × Sent
unfolding prepare_command_success
send_command id e wait_for_response accepted c =
    let prepared = if wait_for_response then prepare_command_success id c else c in
    (
      emit e prepared,
      (if accepted then if wait_for_response then awaits id else result true else result false),
    )

abbrev pub cmd_id : ℕ → ℕ → ℕ → CmdId
cmd_id ca type ioa = record { ca = ca; type = type; ioa = ioa }

abbrev bad_qualifier : ℕ → Bool
bad_qualifier q = ltb q qoi_station || ltb qoi_group_16 q

unfoldable pub interrogation :
    (ca : ℕ) → Cot → (qualifier : ℕ) → (wait accepted : Bool) → Connection → Connection × Sent
unfolding send_command is_open
interrogation ca cause qualifier wait accepted c =
    if is_open c
    then if bad_qualifier qualifier
      then (c, invalid_qualifier)
      else send_command (cmd_id ca c_ic_na_1 0) (lib_interrogation ca cause qualifier) wait accepted
          c
    else (c, result false)

unfoldable pub counter_interrogation :
    (ca : ℕ) → Cot → (qualifier : ℕ) → (wait accepted : Bool) → Connection → Connection × Sent
unfolding send_command is_open
counter_interrogation ca cause qualifier wait accepted c =
    if is_open c
    then if bad_qualifier qualifier
      then (c, invalid_qualifier)
      else send_command (cmd_id ca c_ci_na_1 0) (lib_counter_interrogation ca cause qualifier) wait
          accepted c
    else (c, result false)

unfoldable pub clock_sync : (ca : ℕ) → (wait accepted : Bool) → Connection → Connection × Sent
unfolding send_command is_open
clock_sync ca wait accepted c =
    if is_open c
    then send_command (cmd_id ca c_cs_na_1 0) (lib_clock_sync ca) wait accepted c
    else (c, result false)

-- Both forms wait under the identifier of the form with a time stamp.
unfoldable pub test : (ca : ℕ) → (with_time wait accepted : Bool) → Connection → Connection × Sent
unfolding send_command is_open
test ca with_time wait accepted c =
    let counter = c.test_sequence_counter in
    let counted = record c { test_sequence_counter = (counter + 1) % fast_word } in
    let id = cmd_id ca c_ts_ta_1 0 in
    if is_open c
    then if with_time
      then send_command id (lib_test_with_timestamp ca counter) wait accepted counted
      else send_command id (lib_test ca) wait accepted c
    else (c, result false)

-- `message` is the identifier of an outgoing message: its address, type and object address.
unfoldable pub command :
    (message : CmdId) → Cot → (wait accepted : Bool) → Connection → Connection × Sent
unfolding send_command is_open
command message cause wait accepted c =
    if is_open c
    then send_command message (lib_process_command cause message) wait accepted c
    else (c, result false)

-- `station_ca` is the common address of the point's station, if that still exists.
unfoldable pub read :
    (station_ca : Option ℕ) → (ioa : ℕ) → (wait accepted : Bool) → Connection → Connection × Sent
unfolding send_command is_open
read none ioa wait accepted c = (c, result false)
read (some ca) ioa wait accepted c =
    if is_open c
    then send_command (cmd_id ca c_rd_na_1 ioa) (lib_read ca ioa) wait accepted c
    else (c, result false)
