-- ===== src/Connection/Staying.antt =====
-- An answer to a command leaves an open connection of src/remote/Connection.cpp open.
use iec104_python.Base.{ℕ, ◌≡◌, refl, Bool, true, arith}
use iec104_python.Connection.State.{
  ConnectionState, opened, open_await_clock_sync, open_await_interrogation, is_open_state,
  set_state, ConnectionInit, init_all, init_interrogation, init_clock_sync, init_none, CmdId,
  Connection, is_open,
}
use iec104_python.Connection.Link.{
  Response, response_id, response_type, after_interrogation, advance_init, record_response,
  set_command_success,
}

set_state-open :
    (t : ConnectionState) (c : Connection)
    → is_open_state t ≡ true
    → is_open c ≡ true
    → is_open (set_state t c) ≡ true
unfolding set_state is_open
set_state-open t c h o = ground (arith, h, o)

after_interrogation-open : (i : ConnectionInit) → is_open_state (after_interrogation i) ≡ true
after_interrogation-open init_interrogation = refl
after_interrogation-open init_all = refl
after_interrogation-open init_clock_sync = refl
after_interrogation-open init_none = refl

advance_init-open :
    (s : ConnectionState) (t : ℕ) (c : Connection)
    → is_open c ≡ true
    → is_open (advance_init s t c) ≡ true
unfolding advance_init
advance_init-open open_await_clock_sync t c o = ground (arith, o, set_state-open opened c refl o)
advance_init-open open_await_interrogation t c o =
    ground
      (arith, o, set_state-open (after_interrogation c.init) c (after_interrogation-open c.init) o)
advance_init-open _ t c o = o

record_response-open :
    (id : CmdId) (b : Bool) (c : Connection)
    → is_open c ≡ true
    → is_open (record_response id b c) ≡ true
unfolding record_response is_open
record_response-open id b c o = ground (arith, o)

pub confirmed-open :
    (r : Response) (c : Connection) → is_open c ≡ true → is_open (set_command_success r c) ≡ true
unfolding set_command_success
confirmed-open r c o =
    record_response-open (response_id r) r.negative (advance_init c.state (response_type r) c)
      (advance_init-open c.state (response_type r) c o)
