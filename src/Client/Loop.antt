-- ===== src/Client/Loop.antt =====
-- One round of `thread_run` of src/Client.cpp: what it does with each connection, and its counts.
-- Whether the library accepts a command makes no difference to the connection. No other thread
-- changes a state between the tests of the round.
use iec104_python.Base.{ℕ, ◌+◌, ◌%◌, true, false, if◌then◌else◌, List, [], ◌∷◌, map}
use iec104_python.Protocol.{cot_activation, qoi_station, global_common_address}
use iec104_python.Connection.State.{
  ConnectionState, closed_await_reconnect, open_muted, open_await_interrogation,
  open_await_clock_sync, opened, Connection,
}
use iec104_python.Connection.Link.{connect}
use iec104_python.Connection.Command.{interrogation, clock_sync}
use iec104_python.Client.Remotes.{Remote, Client, on_link}

unfoldable pub tick_link : Connection → Connection
tick_link c = elim c.state [
  | open_await_interrogation ↦
      (interrogation global_common_address cot_activation qoi_station false true c).0
  | open_await_clock_sync ↦ (clock_sync global_common_address false true c).0
  | closed_await_reconnect ↦ connect c
  | _ ↦ c
]

abbrev counts_open : ConnectionState → ℕ
counts_open open_muted = 1
counts_open opened = 1
counts_open open_await_interrogation = 1
counts_open open_await_clock_sync = 1
counts_open _ = 0

abbrev counts_active : ConnectionState → ℕ
counts_active opened = 1
counts_active _ = 0

-- The counters of the loop are `uint_fast8_t`.
unfoldable pub count_links : (ConnectionState → ℕ) → List Remote → ℕ
count_links f [] = 0
count_links f (r ∷ rs) = (f r.link.state + count_links f rs) % 256

unfoldable pub tick : Client → Client
unfolding tick_link count_links
tick client =
    let open_count = count_links counts_open client.remotes in
    let active_count = count_links counts_active client.remotes in
    if client.enabled
    then record client {
      open_connections = open_count;
      active_connections = active_count;
      remotes = map (on_link tick_link) client.remotes;
    }
    else client
