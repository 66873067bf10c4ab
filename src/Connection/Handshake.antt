-- ===== src/Connection/Handshake.antt =====
-- How a link comes up: connect, the library's reports, and the answers to the initial commands.
use iec104_python.Base.{ℕ, ◌≡◌, List, [], ◌∷◌, arith, true, ◌≢◌}
use iec104_python.Protocol.{c_ic_na_1, c_cs_na_1}
use iec104_python.Connection.State.{
  ConnectionState, open_await_interrogation, opened, ConnectionInit, init_all, init_interrogation,
  init_clock_sync, init_none, Connection, can_connect,
}
use iec104_python.Connection.Link.{
  Response, response_type, connection_opened, startdt_con, connection_handler, set_command_success,
  connect,
}
use iec104_python.Connection.Safety.{Input, connects, event, response, step, run}

-- What each `init` asks of the other side before the link counts as open.
abbrev pub answers : ConnectionInit → Response → Response → List Input
answers init_all ic cs = response ic ∷ response cs ∷ []
answers init_interrogation ic cs = response ic ∷ []
answers init_clock_sync ic cs = []
answers init_none ic cs = []

abbrev pub dial : ℕ → List Input
dial now = connects ∷ event now connection_opened ∷ event now startdt_con ∷ []

-- Where the confirmed start of transmission leaves the link.
abbrev pub awaiting : ConnectionInit → ConnectionState
awaiting init_all = open_await_interrogation
awaiting init_interrogation = open_await_interrogation
awaiting init_clock_sync = opened
awaiting init_none = opened

dial-awaiting :
    (now : ℕ) (c : Connection)
    → can_connect c.state ≡ true
    → ((run (dial now) c).state ≡ awaiting c.init) × ((run (dial now) c).init ≡ c.init)
unfolding run step connect connection_handler
dial-awaiting now c h = ground arith

answers-opened :
    (init : ConnectionInit) (c : Connection) (ic cs : Response)
    → c.init ≡ init
    → c.state ≡ awaiting init
    → response_type ic ≡ c_ic_na_1
    → response_type cs ≡ c_cs_na_1
    → (run (answers init ic cs) c).state ≡ opened
unfolding run step set_command_success
answers-opened init_all c ic cs e s p q = ground arith
answers-opened init_interrogation c ic cs e s p q = ground arith
answers-opened init_clock_sync c ic cs e s p q = s
answers-opened init_none c ic cs e s p q = s

-- A closed connection that dials, is reported open and has its STARTDT confirmed is where its
-- `init` says: waiting for the interrogation under INIT_ALL and INIT_INTERROGATION, OPEN under
-- INIT_NONE and also under INIT_CLOCK_SYNC. The answers that it then waits for, an interrogation's
-- before a clock synchronisation's, bring it to OPEN.
handshake-opened :
    (now : ℕ) (c : Connection) (ic cs : Response)
    → can_connect c.state ≡ true
    → response_type ic ≡ c_ic_na_1
    → response_type cs ≡ c_cs_na_1
    → ((run (dial now) c).state ≡ awaiting c.init)
      × ((run (answers c.init ic cs) (run (dial now) c)).state ≡ opened)
handshake-opened now c ic cs h p q =
    let (s, e) = dial-awaiting now c h in
    (s, answers-opened c.init (run (dial now) c) ic cs e s p q)

-- An answer of any other type, and of either kind of result, leaves the state as it is.
pub other_answer-state :
    (c : Connection) (r : Response)
    → response_type r ≢ c_ic_na_1
    → response_type r ≢ c_cs_na_1
    → (set_command_success r c).state ≡ c.state
unfolding set_command_success
other_answer-state c r p q = ground arith
