-- ===== src/Client/Recovery.antt =====
-- How the loop of src/Client.cpp brings a lost link up again.
use iec104_python.Base.{ℕ, ◌≡◌, ap, ◌∙◌, List, [], ◌∷◌, ◌++◌, arith}
use iec104_python.Protocol.{c_ic_na_1, c_cs_na_1}
use iec104_python.Connection.State.{
  ConnectionState, closed_await_open, open_muted, closed_await_reconnect, open_await_interrogation,
  open_await_clock_sync, opened, ConnectionInit, init_all, init_interrogation, init_clock_sync,
  init_none, Effect, Connection, on_state_change, lib_close, lib_connect_async, lib_start_dt,
  notify_all, lib_interrogation, lib_clock_sync,
}
use iec104_python.Connection.Link.{
  Response, response_type, connection_opened, startdt_con, connect, set_command_success,
  connection_handler,
}
use iec104_python.Connection.Command.{interrogation, clock_sync}
use iec104_python.Connection.Safety.{Input, event, response, step}
use iec104_python.Client.Loop.{tick_link}

-- A round of the loop, or what happens to the link between two rounds.
pub data Happening : Type 0 where
  round : Happening
  happens : Input → Happening

unfoldable pub proceed : List Happening → Connection → Connection
unfolding tick_link step
proceed [] c = c
proceed (round ∷ hs) c = proceed hs (tick_link c)
proceed (happens i ∷ hs) c = proceed hs (step i c)

-- What is sent to the other side or dialled, newest first.
abbrev pub sendings : List Effect → List Effect
sendings [] = []
sendings (on_state_change s ∷ es) = sendings es
sendings (notify_all ∷ es) = sendings es
sendings (e ∷ es) = e ∷ sendings es

-- The rounds and answers of a link that comes up, by its `init`.
abbrev pub course : ConnectionInit → (ic cs : Response) → List Happening
course init_all ic cs = round ∷ happens (response ic) ∷ round ∷ happens (response cs) ∷ round ∷ []
course init_interrogation ic cs = round ∷ happens (response ic) ∷ round ∷ []
course init_clock_sync ic cs = round ∷ []
course init_none ic cs = round ∷ []

abbrev pub initial_commands : ConnectionInit → List Effect
initial_commands init_all = lib_clock_sync 65535 ∷ lib_interrogation 65535 6 20 ∷ []
initial_commands init_interrogation = lib_interrogation 65535 6 20 ∷ []
initial_commands init_clock_sync = []
initial_commands init_none = []

abbrev awaited : ConnectionInit → ConnectionState
awaited init_all = open_await_interrogation
awaited init_interrogation = open_await_interrogation
awaited init_clock_sync = opened
awaited init_none = opened

abbrev pub dialling : ℕ → List Happening
dialling now = round ∷ happens (event now connection_opened) ∷ happens (event now startdt_con) ∷ []

-- A step leaves `init`, ends in the state, and sends the effects.
abbrev Becomes : (before after : Connection) → ConnectionState → List Effect → Type 0
Becomes c d state es =
    (d.state ≡ state) × (d.init ≡ c.init) × (sendings d.log ≡ es ++ sendings c.log)

tick_reconnects :
    (c : Connection)
    → c.state ≡ closed_await_reconnect
    → Becomes c (tick_link c) closed_await_open (lib_connect_async ∷ lib_close ∷ [])
unfolding tick_link connect
tick_reconnects c h = ground arith

tick_interrogates :
    (c : Connection)
    → c.state ≡ open_await_interrogation
    → Becomes c (tick_link c) open_await_interrogation (lib_interrogation 65535 6 20 ∷ [])
unfolding tick_link interrogation
tick_interrogates c h = ground arith

tick_synchronises :
    (c : Connection)
    → c.state ≡ open_await_clock_sync
    → Becomes c (tick_link c) open_await_clock_sync (lib_clock_sync 65535 ∷ [])
unfolding tick_link clock_sync
tick_synchronises c h = ground arith

tick_rests : (c : Connection) → c.state ≡ opened → Becomes c (tick_link c) opened []
unfolding tick_link
tick_rests c h = ground arith

step_opened :
    (now : ℕ) (c : Connection)
    → c.state ≡ closed_await_open
    → Becomes c (step (event now connection_opened) c) open_muted (lib_start_dt ∷ [])
unfolding step connection_handler
step_opened now c h = ground arith

step_started :
    (now : ℕ) (c : Connection)
    → c.state ≡ open_muted
    → Becomes c (step (event now startdt_con) c) (awaited c.init) []
unfolding step connection_handler
step_started now c h = ground arith

abbrev after_answer : ConnectionInit → ConnectionState
after_answer init_interrogation = opened
after_answer _ = open_await_clock_sync

step_interrogated :
    (r : Response) (c : Connection)
    → c.state ≡ open_await_interrogation
    → response_type r ≡ c_ic_na_1
    → Becomes c (step (response r) c) (after_answer c.init) []
unfolding step set_command_success
step_interrogated r c h p = ground arith

step_synchronised :
    (r : Response) (c : Connection)
    → c.state ≡ open_await_clock_sync
    → response_type r ≡ c_cs_na_1
    → Becomes c (step (response r) c) opened []
unfolding step set_command_success
step_synchronised r c h p = ground arith

dialled :
    (now : ℕ) (c : Connection)
    → c.state ≡ closed_await_reconnect
    → Becomes c
        (proceed (dialling now) c)
        (awaited c.init)
        (lib_start_dt ∷ lib_connect_async ∷ lib_close ∷ [])
unfolding proceed
dialled now c h =
    let c1 = tick_link c in
    let c2 = step (event now connection_opened) c1 in
    let (s1, i1, l1) = tick_reconnects c h in
    let (s2, i2, l2) = step_opened now c1 s1 in
    let (s3, i3, l3) = step_started now c2 s2 in
    (s3 ∙ ap awaited (i2 ∙ i1), i3 ∙ i2 ∙ i1, l3 ∙ l2 ∙ ap (◌∷◌ lib_start_dt) l1)

came_up :
    (init : ConnectionInit) (c : Connection) (ic cs : Response)
    → c.init ≡ init
    → c.state ≡ awaited init
    → response_type ic ≡ c_ic_na_1
    → response_type cs ≡ c_cs_na_1
    → Becomes c (proceed (course init ic cs) c) opened (initial_commands init)
unfolding proceed
came_up init_all c ic cs e s p q =
    let c1 = tick_link c in
    let c2 = step (response ic) c1 in
    let c3 = tick_link c2 in
    let c4 = step (response cs) c3 in
    let (s1, i1, l1) = tick_interrogates c s in
    let (s2, i2, l2) = step_interrogated ic c1 s1 p in
    let (s3, i3, l3) = tick_synchronises c2 (s2 ∙ ap after_answer (i1 ∙ e)) in
    let (s4, i4, l4) = step_synchronised cs c3 s3 q in
    let (s5, i5, l5) = tick_rests c4 s4 in
    (s5, i5 ∙ i4 ∙ i3 ∙ i2 ∙ i1, l5 ∙ l4 ∙ l3 ∙ ap (◌∷◌ (lib_clock_sync 65535)) (l2 ∙ l1))
came_up init_interrogation c ic cs e s p q =
    let c1 = tick_link c in
    let c2 = step (response ic) c1 in
    let (s1, i1, l1) = tick_interrogates c s in
    let (s2, i2, l2) = step_interrogated ic c1 s1 p in
    let (s3, i3, l3) = tick_rests c2 (s2 ∙ ap after_answer (i1 ∙ e)) in
    (s3, i3 ∙ i2 ∙ i1, l3 ∙ l2 ∙ l1)
came_up init_clock_sync c ic cs e s p q = tick_rests c s
came_up init_none c ic cs e s p q = tick_rests c s

-- A link that waits to be reconnected comes up by the rounds of the loop, if the library reports it
-- opened and STARTDT confirmed and the other side answers each initial command before the next
-- round. It ends in OPEN, and what was sent is: the dialling, STARTDT, then once each and in this
-- order the global interrogation and the global clock synchronisation under INIT_ALL, only the
-- interrogation under INIT_INTERROGATION, and neither under INIT_CLOCK_SYNC and INIT_NONE.
pub recovery-sendings :
    (now : ℕ) (c : Connection) (ic cs : Response)
    → c.state ≡ closed_await_reconnect
    → response_type ic ≡ c_ic_na_1
    → response_type cs ≡ c_cs_na_1
    → let d = proceed (course c.init ic cs) (proceed (dialling now) c) in
      (d.state ≡ opened)
      × (sendings d.log
          ≡ initial_commands c.init
            ++ (lib_start_dt ∷ lib_connect_async ∷ lib_close ∷ sendings c.log))
recovery-sendings now c ic cs h p q =
    let (state, init, log) = dialled now c h in
    let up = came_up c.init (proceed (dialling now) c) ic cs init state p q in
    (up.0, up.2 ∙ ap (◌++◌ (initial_commands c.init)) log)
