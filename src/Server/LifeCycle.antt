-- ===== src/Server/LifeCycle.antt =====
-- `start`, `stop` and `thread_run` of src/Server.cpp.
-- Whether the library runs after it was started, and how many links it has open, are arguments.
use iec104_python.Base.{ℕ, Bool, true, false, if◌then◌else◌, List, [], map, Result, ok, err}
use iec104_python.Protocol.{cot_periodic, global_common_address}
use iec104_python.Server.Registry.{
  PeerEvent, connection_event, has_active_connections, read_open_connections, clear,
}
use iec104_python.Server.Replies.{Output}
use iec104_python.Server.Handlers.{Server, Environment, send_interrogation_response}

pub data StartError : Type 0 where
  port_in_use : StartError

-- A server with its thread; `closed` are the peers that it has closed, in order.
pub record Process : Type 0 where
  pub server : Server
  pub has_thread : Bool
  pub closed : List ℕ

unfoldable pub start : (is_running : Bool) → Process → Process × Result StartError (Unit {0})
start is_running p =
    if p.server.enabled
    then (p, ok tt)
    else if is_running
    then (record p { server = record p.server { enabled = true }; has_thread = true }, ok tt)
    else (p, err port_in_use)

abbrev pub peer_numbers : List (ℕ × Bool) → List ℕ
peer_numbers = map λ entry. entry.0

unfoldable pub stop : Process → Process
unfolding clear
stop p =
    let cleared = record p.server { enabled = false; registry = clear p.server.registry } in
    if p.server.enabled
    then record {
      server = cleared;
      has_thread = false;
      closed = peer_numbers p.server.registry.peers;
    }
    else p

-- One round of the thread's loop: the open links are counted, and the points that are due are reported
-- to all peers.
unfoldable pub tick : Environment → (open_count : ℕ) → Server → Server × List Output
unfolding read_open_connections
tick env open_count server =
    let counted = record server { registry = read_open_connections open_count server.registry } in
    if server.enabled
    then if has_active_connections counted.registry
      then send_interrogation_response env cot_periodic global_common_address counted
      else (counted, [])
    else (server, [])

-- `thread_run` runs while there is a thread.
unfoldable pub run_round : Environment → (open_count : ℕ) → Process → Process × List Output
unfolding tick
run_round env open_count p =
    let (server, outputs) = tick env open_count p.server in
    if p.has_thread then (record p { server = server }, outputs) else (p, [])

unfoldable pub peer_event : PeerEvent → ℕ → Process → Process
peer_event e k p = record p {
  server = record p.server { registry = connection_event e k p.server.registry };
}
