-- ===== src/Connection/State.antt =====
-- The state of src/remote/Connection.h and its elementary operations.
-- The calls into lib60870-C and the callback `on_state_change` are effects in a log, newest first.
-- Each operation is one step: what another thread does between two of them is a step of its own.
use iec104_python.Base.{ℕ, Bool, true, false, ◌==◌, if◌then◌else◌, List, ◌∷◌}
use iec104_python.Protocol.{TypeId, Cot}

pub data ConnectionState : Type 0 where
  closed closed_await_open closed_await_reconnect open_muted open_await_interrogation
        open_await_clock_sync opened open_await_closed :
      ConnectionState

pub data ConnectionInit : Type 0 where
  init_all init_interrogation init_clock_sync init_none : ConnectionInit

-- The string "CA-TYPE-IOA" that names an awaited answer, by its three parts.
pub record CmdId : Type 0 where
  pub ca : ℕ
  pub type : TypeId
  pub ioa : ℕ

pub data Effect : Type 0 where
  on_state_change : ConnectionState → Effect
  lib_close lib_connect_async lib_start_dt lib_stop_dt notify_all : Effect
  lib_originator : ℕ → Effect
  lib_interrogation lib_counter_interrogation : (ca : ℕ) → Cot → (qualifier : ℕ) → Effect
  lib_clock_sync lib_test : (ca : ℕ) → Effect
  lib_test_with_timestamp : (ca counter : ℕ) → Effect
  lib_process_command : Cot → CmdId → Effect
  lib_read : (ca ioa : ℕ) → Effect

-- `expected` is `expectedResponseMap`; `watched` says whether `py_onStateChange` is set.
pub record Connection : Type 0 where
  pub state : ConnectionState
  pub init : ConnectionInit
  pub watched : Bool
  pub originator_address : ℕ
  pub connection_count : ℕ
  pub connected_at : ℕ
  pub disconnected_at : ℕ
  pub test_sequence_counter : ℕ
  pub expected : List (CmdId × ℕ)
  pub log : List Effect

-- The fast integer types of the x86-64 targets have 64 bits, but for the 8-bit one.
abbrev pub fast_word : ℕ
fast_word = 18446744073709551616

abbrev pub emit : Effect → Connection → Connection
emit e c = record c { log = e ∷ c.log }

abbrev pub state_number : ConnectionState → ℕ
state_number closed = 0
state_number closed_await_open = 1
state_number closed_await_reconnect = 2
state_number open_muted = 3
state_number open_await_interrogation = 4
state_number open_await_clock_sync = 5
state_number opened = 6
state_number open_await_closed = 7

abbrev pub same_state : ConnectionState → ConnectionState → Bool
same_state s t = state_number s == state_number t

unfoldable pub set_state : ConnectionState → Connection → Connection
set_state t c =
    if same_state c.state t
    then c
    else if c.watched
    then record c { state = t; log = on_state_change t ∷ c.log }
    else record c { state = t }

unfoldable pub set_originator_address : ℕ → Connection → Connection
set_originator_address address c =
    if c.originator_address == address
    then c
    else record c { originator_address = address; log = lib_originator address ∷ c.log }

abbrev pub is_open_state : ConnectionState → Bool
is_open_state open_muted = true
is_open_state open_await_interrogation = true
is_open_state open_await_clock_sync = true
is_open_state opened = true
is_open_state _ = false

unfoldable pub is_open : Connection → Bool
is_open c = is_open_state c.state

unfoldable pub is_muted : Connection → Bool
is_muted c = same_state c.state open_muted

abbrev pub can_connect : ConnectionState → Bool
can_connect closed = true
can_connect closed_await_reconnect = true
can_connect _ = false
