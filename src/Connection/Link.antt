-- ===== src/Connection/Link.antt =====
-- The operations that move the state of a connection (src/remote/Connection.cpp).
use iec104_python.Base.{ℕ, ◌+◌, ◌%◌, Bool, true, false, ◌==◌, if◌then◌else◌, none, some}
use iec104_python.Protocol.{TypeId, Cot, cot_request, c_rd_na_1, c_cs_na_1, c_ic_na_1}
use iec104_python.Connection.State.{
  ConnectionState, closed, closed_await_open, closed_await_reconnect, open_muted,
  open_await_interrogation, open_await_clock_sync, opened, open_await_closed, ConnectionInit,
  init_all, init_interrogation, init_clock_sync, init_none, CmdId, Connection, lib_close,
  lib_connect_async, lib_start_dt, lib_stop_dt, notify_all, fast_word, emit, same_state, set_state,
  is_open, can_connect,
}
use iec104_python.Connection.Pending.{find, insert}

unfoldable pub connect : Connection → Connection
unfolding set_state
connect c =
    if can_connect c.state
    then emit lib_connect_async (emit lib_close (set_state closed_await_open c))
    else c

-- `disconnect` first closes the library's connection, whose thread may report the end before the
-- second part runs.
unfoldable pub disconnect_close : Connection → Connection
disconnect_close c = emit lib_close c

unfoldable pub disconnect_state : Connection → Connection
unfolding set_state is_open
disconnect_state c = if is_open c then set_state open_await_closed c else set_state closed c

unfoldable pub disconnect : Connection → Connection
unfolding disconnect_close disconnect_state
disconnect c = disconnect_state (disconnect_close c)

unfoldable pub mute : Connection → Connection × Bool
unfolding is_open
mute c = if is_open c then (emit lib_stop_dt c, true) else (c, false)

unfoldable pub unmute : Connection → Connection × Bool
unfolding is_open
unmute c = if is_open c then (emit lib_start_dt c, true) else (c, false)

-- The `switch (init)`: the case `INIT_CLOCK_SYNC` has no `break` and goes on into `default`.
unfoldable pub start_transmission : ConnectionInit → Connection → Connection
unfolding set_state
start_transmission init_all c = set_state open_await_interrogation c
start_transmission init_interrogation c = set_state open_await_interrogation c
start_transmission init_clock_sync c = set_state opened (set_state open_await_clock_sync c)
start_transmission init_none c = set_state opened c

unfoldable pub set_muted : Bool → Connection → Connection × Bool
unfolding set_state is_open start_transmission
set_muted value c =
    let result = same_state c.state open_muted in
    if is_open c
    then (if value then set_state open_muted c else start_transmission c.init c, result)
    else (c, result)

abbrev already_open : ConnectionState → Bool
already_open opened = true
already_open open_muted = true
already_open open_await_closed = true
already_open _ = false

unfoldable pub set_open : ℕ → Connection → Connection × Bool
unfolding set_state unmute
set_open now c =
    let muted = set_state open_muted c in
    let counted = record muted {
      connection_count = (muted.connection_count + 1) % fast_word;
      connected_at = now;
    } in
    if already_open c.state then (c, false) else ((unmute counted).0, true)

unfoldable pub set_closed : ℕ → Connection → Connection × Bool
unfolding set_state
set_closed now c = if same_state c.state closed then (c, false) else (
  set_state (if same_state c.state open_await_closed then closed else closed_await_reconnect)
      (record c { disconnected_at = now }),
  true,
)

-- What `setCommandSuccess` reads of an `IncomingMessage`.
pub record Response : Type 0 where
  pub type : TypeId
  pub cot : Cot
  pub ca : ℕ
  pub ioa : ℕ
  pub negative : Bool

abbrev pub response_type : Response → TypeId
response_type r = if r.cot == cot_request then c_rd_na_1 else r.type

abbrev pub response_id : Response → CmdId
response_id r = record { ca = r.ca; type = response_type r; ioa = r.ioa }

abbrev pub after_interrogation : ConnectionInit → ConnectionState
after_interrogation init_interrogation = opened
after_interrogation _ = open_await_clock_sync

-- The two tests read the state as it was on entry.
unfoldable pub advance_init : ConnectionState → TypeId → Connection → Connection
unfolding set_state
advance_init open_await_clock_sync type c = if type == c_cs_na_1 then set_state opened c else c
advance_init open_await_interrogation type c =
    if type == c_ic_na_1 then set_state (after_interrogation c.init) c else c
advance_init _ type c = c

unfoldable pub record_response : CmdId → Bool → Connection → Connection
record_response id negative c = elim (find id c.expected) [
  | some _ ↦
      emit notify_all (record c { expected = insert id (if negative then 0 else 1) c.expected })
  | none ↦ c
]

unfoldable pub set_command_success : Response → Connection → Connection
unfolding advance_init record_response
set_command_success r c =
    record_response (response_id r) r.negative (advance_init c.state (response_type r) c)

-- `connectionHandler`: the events that the library reports.
pub data ConnectionEvent : Type 0 where
  failed connection_opened connection_closed startdt_con stopdt_con : ConnectionEvent

unfoldable pub connection_handler : ℕ → ConnectionEvent → Connection → Connection
unfolding set_open set_closed set_muted
connection_handler now failed c = (set_closed now c).0
connection_handler now connection_opened c = (set_open now c).0
connection_handler now connection_closed c = (set_closed now c).0
connection_handler now startdt_con c = (set_muted false c).0
connection_handler now stopdt_con c = (set_muted true c).0
