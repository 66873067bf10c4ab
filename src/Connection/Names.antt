-- ===== src/Connection/Names.antt =====
-- The texts of states and events in src/enums.cpp.
use iec104_python.Base.{◌≡◌, refl, if◌then◌else◌, List, [], ◌∷◌, Option, none, some}
use iec104_python.Text.{Text, codes, same_text}
use iec104_python.Connection.State.{
  ConnectionState, closed, closed_await_open, closed_await_reconnect, open_muted,
  open_await_interrogation, open_await_clock_sync, opened, open_await_closed,
}
use iec104_python.Connection.Link.{
  ConnectionEvent, connection_opened, connection_closed, startdt_con, stopdt_con,
}

unfoldable pub state_text : ConnectionState → Text
state_text closed = codes "CLOSED"
state_text closed_await_open = codes "CLOSED_AWAIT_OPEN"
state_text closed_await_reconnect = codes "CLOSED_AWAIT_RECONNECT"
state_text open_muted = codes "OPEN_MUTED"
state_text open_await_interrogation = codes "OPEN_AWAIT_INTERROGATION"
state_text open_await_clock_sync = codes "OPEN_AWAIT_CLOCK_SYNC"
state_text opened = codes "OPEN"
state_text open_await_closed = codes "OPEN_AWAIT_CLOSED"

-- A failed connection has no text of its own.
unfoldable pub event_text : ConnectionEvent → Text
event_text connection_opened = codes "OPENED"
event_text connection_closed = codes "CLOSED"
event_text startdt_con = codes "ACTIVATED"
event_text stopdt_con = codes "DEACTIVATED"
event_text _ = codes "UNKNOWN"

abbrev states : List ConnectionState
states =
    closed ∷ closed_await_open ∷ closed_await_reconnect ∷ open_muted ∷ open_await_interrogation
    ∷ open_await_clock_sync ∷ opened ∷ open_await_closed ∷ []

abbrev find_state : Text → List ConnectionState → Option ConnectionState
find_state t [] = none
find_state t (s ∷ ss) =
    let rest = find_state t ss in if same_text (state_text s) t then some s else rest

-- The text of a state names it.
find_state-state_text : (s : ConnectionState) → find_state (state_text s) states ≡ some s
unfolding state_text same_text
find_state-state_text closed = refl
find_state-state_text closed_await_open = refl
find_state-state_text closed_await_reconnect = refl
find_state-state_text open_muted = refl
find_state-state_text open_await_interrogation = refl
find_state-state_text open_await_clock_sync = refl
find_state-state_text opened = refl
find_state-state_text open_await_closed = refl
