-- ===== src/Connection/Safety.antt =====
-- What holds of a connection after any sequence of operations, library events and answers.
use iec104_python.Base.{ℕ, ◌≡◌, refl, ◌⊎◌, ◌≢◌, ◌∙◌, Bool, true, false, List, [], ◌∷◌, arith, All}
use iec104_python.Connection.State.{
  ConnectionState, closed, closed_await_open, open_await_interrogation, open_await_clock_sync,
  open_await_closed, ConnectionInit, init_all, init_interrogation, init_clock_sync, Connection,
  is_open,
}
use iec104_python.Connection.Link.{
  connect, disconnect, disconnect_close, disconnect_state, mute, unmute, set_closed, Response,
  set_command_success, ConnectionEvent, connection_opened, connection_handler,
}

-- All that can happen to a connection.
pub data Input : Type 0 where
  connects disconnects mutes unmutes : Input
  event : (now : ℕ) → ConnectionEvent → Input
  response : Response → Input

unfoldable pub step : Input → Connection → Connection
step connects c = connect c
step disconnects c = disconnect c
step mutes c = (mute c).0
step unmutes c = (unmute c).0
step (event now e) c = connection_handler now e c
step (response r) c = set_command_success r c

unfoldable pub run : List Input → Connection → Connection
run [] c = c
run (i ∷ is) c = run is (step i c)

-- The initial commands that a state stands for belong to the chosen `init`.
abbrev pub Fits : ConnectionInit → ConnectionState → Type 0
Fits init open_await_interrogation = (init ≡ init_all) ⊎ (init ≡ init_interrogation)
Fits init open_await_clock_sync = init ≡ init_all
Fits init _ = Unit {0}

step-Fits :
    (i : Input) (c : Connection)
    → Fits c.init c.state
    → Fits (step i c).init (step i c).state × ((step i c).init ≡ c.init)
unfolding step connect disconnect mute unmute connection_handler set_command_success
step-Fits i c h = ground arith

-- Whatever happens, a connection waits for its initial interrogation only if its `init` is
-- INIT_ALL or INIT_INTERROGATION, and for its clock synchronisation only if it is INIT_ALL.
pub run-Fits :
    (is : List Input) (c : Connection)
    → Fits c.init c.state
    → Fits (run is c).init (run is c).state × ((run is c).init ≡ c.init)
unfolding run
run-Fits [] c h = (h, refl)
run-Fits (i ∷ is) c h =
    let now = step-Fits i c h in
    let later = run-Fits is (step i c) now.0 in (later.0, later.1 ∙ now.1)

Fits-resting :
    (init : ConnectionInit) (s : ConnectionState)
    → s ≢ open_await_clock_sync
    → s ≢ open_await_interrogation
    → Fits init s
Fits-resting init s h k = ground arith

-- A connection with INIT_CLOCK_SYNC that is not yet waiting for the clock synchronisation never
-- rests in OPEN_AWAIT_CLOCK_SYNC, so that the client's loop never sends its clock command.
init_clock_sync_never_waits :
    (is : List Input) (c : Connection)
    → c.init ≡ init_clock_sync
    → c.state ≢ open_await_clock_sync
    → c.state ≢ open_await_interrogation
    → (run is c).state ≢ open_await_clock_sync
init_clock_sync_never_waits is c e h k waits =
    ground (arith, run-Fits is c (Fits-resting c.init c.state h k))

-- Inputs that start no new link: no `connect`, and no report that one was opened.
abbrev pub starts : Input → Bool
starts connects = true
starts (event now connection_opened) = true
starts _ = false

abbrev pub IsDown : ConnectionState → Type 0
IsDown s = (s ≡ closed) ⊎ (s ≡ open_await_closed)

step-IsDown :
    (i : Input) (c : Connection) → starts i ≡ false → IsDown c.state → IsDown (step i c).state
unfolding step disconnect mute unmute connection_handler set_command_success
step-IsDown i c q h = ground arith

run-IsDown :
    (is : List Input) (c : Connection)
    → All (λ i. starts i ≡ false) is
    → IsDown c.state
    → IsDown (run is c).state
unfolding run
run-IsDown [] c q h = h
run-IsDown (i ∷ is) c q h = run-IsDown is (step i c) q.1 (step-IsDown i c q.0 h)

disconnect-IsDown : (c : Connection) → IsDown (disconnect c).state
unfolding disconnect
disconnect-IsDown c = ground arith

-- After `disconnect`, the connection stays closed or closing for as long as nobody calls `connect`
-- and no open is reported: it never asks to be reconnected.
pub disconnect-IsDown_forever :
    (is : List Input) (c : Connection)
    → All (λ i. starts i ≡ false) is
    → IsDown (run is (disconnect c)).state
disconnect-IsDown_forever is c q = run-IsDown is (disconnect c) q (disconnect-IsDown c)

-- The library may report the end of the link before `disconnect` looks at the state or after it.
-- From an open state both orders end in CLOSED.
pub disconnect_race :
    (now : ℕ) (c : Connection)
    → is_open c ≡ true
    → ((disconnect_state (set_closed now (disconnect_close c)).0).state ≡ closed)
      × ((set_closed now (disconnect_state (disconnect_close c))).0.state ≡ closed)
unfolding disconnect set_closed
disconnect_race now c h = ground arith

-- `reconnectAll` calls `disconnect` and then `connect`. On an open connection it dials again if the
-- end of the link is reported inside `disconnect`; if the report comes after `connect`, the
-- connection ends in CLOSED and is not dialled.
reconnect_order :
    (now : ℕ) (c : Connection)
    → is_open c ≡ true
    → ((connect (disconnect_state (set_closed now (disconnect_close c)).0)).state
        ≡ closed_await_open)
      × ((set_closed now (connect (disconnect c))).0.state ≡ closed)
unfolding disconnect set_closed connect
reconnect_order now c h = ground arith

-- Only the library's report of an opened link makes a connection open.
open_only_when_reported :
    (i : Input) (c : Connection)
    → ((now : ℕ) → i ≢ event now connection_opened)
    → is_open (step i c) ≡ true
    → is_open c ≡ true
unfolding step connect disconnect mute unmute connection_handler set_command_success is_open
open_only_when_reported (event now e) c h o = ground (arith, h now)
open_only_when_reported _ c h o = ground arith
