-- ===== src/Scenarios/Links.antt =====
-- Runs of a client's connection.
use iec104_python.Base.{ℕ, ◌≡◌, refl, true, false, List, [], ◌∷◌, some}
use iec104_python.Connection.State.{
  ConnectionState, closed, opened, ConnectionInit, init_all, CmdId, Connection, is_open,
}
use iec104_python.Connection.Pending.{Pending, find}
use iec104_python.Connection.Link.{
  connect, disconnect, disconnect_close, disconnect_state, set_closed, Response,
  set_command_success, connection_handler, connection_opened, connection_closed, failed,
  startdt_con,
}
use iec104_python.Connection.Command.{
  prepared, responded, ended, timed_out, notified, await_command_success, cmd_id,
}
use iec104_python.Connection.Safety.{
  Input, connects, disconnects, event, response, step, run, Fits, run-Fits, IsDown,
  disconnect-IsDown_forever, disconnect_race,
}
use iec104_python.Connection.Answers.{Schedule, Outcome, await-Outcome}

abbrev link : ConnectionState → ConnectionInit → Connection
link state init = record {
  state = state;
  init = init;
  watched = true;
  originator_address = 1;
  connection_count = 0;
  connected_at = 0;
  disconnected_at = 0;
  test_sequence_counter = 0;
  expected = [];
  log = [];
}

abbrev answer : ℕ → ℕ → Response
answer type cot = record { type = type; cot = cot; ca = 47; ioa = 0; negative = false }

abbrev full_dial : List Input
full_dial =
    connects
    ∷ event 1 connection_opened
    ∷ event 1 startdt_con
    ∷ response (answer 100 7)
    ∷ response (answer 103 7)
    ∷ []

dials_in_full : (run full_dial (link closed init_all)).state ≡ opened
unfolding run step connect connection_handler set_command_success find
dials_in_full = refl

run-Fits_example :
    let c = run full_dial (link closed init_all) in Fits c.init c.state × (c.init ≡ init_all)
run-Fits_example = run-Fits full_dial (link closed init_all) tt

abbrev late_events : List Input
late_events = event 2 connection_closed ∷ event 3 failed ∷ disconnects ∷ []

disconnect-IsDown_forever_example :
    IsDown (run late_events (disconnect (link opened init_all))).state
disconnect-IsDown_forever_example =
    disconnect-IsDown_forever late_events (link opened init_all) (refl, (refl, (refl, tt)))

disconnect_race_example :
    ((disconnect_state (set_closed 2 (disconnect_close (link opened init_all))).0).state ≡ closed)
    × ((set_closed 2 (disconnect_state (disconnect_close (link opened init_all)))).0.state ≡ closed)
unfolding is_open
disconnect_race_example = disconnect_race 2 (link opened init_all) refl

abbrev single_command : CmdId
single_command = cmd_id 47 45 20

abbrev other_command : CmdId
other_command = cmd_id 47 46 21

-- Another command is prepared and answered before this one gets its negative answer.
abbrev crossed : Schedule
crossed =
    (prepared other_command ∷ responded other_command false ∷ [], notified)
    ∷ (ended other_command ∷ responded single_command true ∷ [], notified)
    ∷ []

abbrev one_pending : Pending
one_pending = (single_command, 3) ∷ []

await-Outcome_example :
    Outcome single_command (some false) (await_command_success single_command crossed one_pending)
unfolding find
await-Outcome_example = await-Outcome single_command 3 crossed one_pending refl refl

abbrev test_answered : Schedule
test_answered = (responded (cmd_id 47 104 0) false ∷ [], notified) ∷ ([], timed_out) ∷ []
