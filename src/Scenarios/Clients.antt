-- ===== src/Scenarios/Clients.antt =====
-- Runs of a client with two connections.
use iec104_python.Base.{
  ◌↔◌, ◌⊎◌, ℕ, ◌≡◌, refl, ◌&&◌, ◌==◌, if◌then◌else◌, true, false, List, [], ◌∷◌, ◌++◌, none, arith,
  All,
}
use iec104_python.Connection.State.{
  ConnectionState, closed_await_reconnect, opened, init_all, Connection, lib_start_dt,
  lib_connect_async, lib_close,
}
use iec104_python.Connection.Link.{Response, connection_closed}
use iec104_python.Connection.Safety.{Input, event, mutes, run, IsDown}
use iec104_python.Text.{Text, codes, same_text, port_or_default}
use iec104_python.Address.Pattern.{matches, match_then}
use iec104_python.Address.Ip.{is_valid_ip}
use iec104_python.Address.Dotted.{IsDotted, is_valid_ip_iff}
use iec104_python.Address.Colons.{is_valid_ip-NoColon}
use iec104_python.Client.Addresses.{added, accepts, add_connection-get_connection}
use iec104_python.Client.Remotes.{
  Remote, Client, find_remote, has_remote, get_connection, add_connection, stop,
}
use iec104_python.Base.{pos}
use iec104_python.Connection.State.{is_open}
use iec104_python.Value.{int}
use iec104_python.Point.Data.{DataPoint}
use iec104_python.Point.Update.{OnReceive, unset, Received}
use iec104_python.Station.Stations.{find_station}
use iec104_python.Message.Incoming.{Asdu, IncomingMessage, extract_meta_data}
use iec104_python.Server.Execution.{point_in}
use iec104_python.Client.Reports.{client_asdu_handler}
use iec104_python.Client.Delivery.{history}
use iec104_python.Client.Messages.{client_asdu_handler-points}
use iec104_python.Client.Loop.{tick}
use iec104_python.Client.Recovery.{
  proceed, dialling, course, sendings, initial_commands, recovery-sendings,
}
use iec104_python.Client.Stopping.{stop-AllDown, DistinctRemotes}

abbrev link : ConnectionState → Connection
link state = record {
  state = state;
  init = init_all;
  watched = true;
  originator_address = 1;
  connection_count = 1;
  connected_at = 0;
  disconnected_at = 0;
  test_sequence_counter = 0;
  expected = [];
  log = [];
}

abbrev remote : ℕ → ConnectionState → Remote
remote n state = record { name = n ∷ []; link = link state; stations = [] }

abbrev client : Client
client = record {
  enabled = true;
  originator_address = 1;
  open_connections = 0;
  active_connections = 0;
  remotes = remote 49 opened ∷ remote 50 closed_await_reconnect ∷ [];
}

abbrev answer : ℕ → Response
answer type = record { type = type; cot = 7; ca = 47; ioa = 0; negative = false }

recovery-sendings_example :
    let d =
      proceed
        (course init_all (answer 100) (answer 103))
        (proceed (dialling 5) (link closed_await_reconnect)) in
    (d.state ≡ opened)
    × (sendings d.log
        ≡ initial_commands init_all ++ (lib_start_dt ∷ lib_connect_async ∷ lib_close ∷ []))
recovery-sendings_example =
    recovery-sendings 5 (link closed_await_reconnect) (answer 100) (answer 103) refl refl refl

abbrev late : List Input
late = mutes ∷ event 9 connection_closed ∷ []

stop-AllDown_example :
    (tick (stop client) ≡ stop client)
    × All (λ r. IsDown (run late r.link).state) (stop client).remotes
stop-AllDown_example = stop-AllDown late client (refl, (refl, tt))

client-DistinctRemotes : DistinctRemotes client.remotes
unfolding find_remote same_text
client-DistinctRemotes = (refl, (refl, tt))

abbrev report : ℕ → Asdu
report ca = record {
  type = 1;
  cot = 3;
  ca = ca;
  oa = 0;
  negative = false;
  sequence = false;
  test = false;
  elements = 2;
  ioa = 11;
}

abbrev report_message : ℕ → IncomingMessage
report_message ca = record {
  type = 1;
  cot = 3;
  ca = ca;
  oa = 0;
  negative = false;
  sequence = false;
  test = false;
  number_of_object = 2;
  ioa = 11;
  position = 0;
  position_reset = true;
  position_valid = true;
}

abbrev no_callback : DataPoint → OnReceive
no_callback p = unset

abbrev set : Received
set = record { value = int (pos 1); quality = 0; updated_at = 0 }

abbrev two_reports : List (ℕ × Received)
two_reports = (11, set) ∷ (12, set) ∷ []

client_asdu_handler-points_example :
    let ss = (client_asdu_handler 7 no_callback two_reports true (report 47) (link opened) []).1 in
    point_in 12 (find_station 47 ss) ≡ history 7 no_callback 1 12 two_reports none
unfolding extract_meta_data is_open find_station
client_asdu_handler-points_example =
    client_asdu_handler-points 7 no_callback two_reports 12 47 (report 47) (report_message 47)
      (link opened) [] refl refl (omega arith) (λ e. omega (arith, e)) refl

abbrev an_ip : Text
an_ip = codes "192.168.0.255"

is_valid_ip_iff_example :
    (is_valid_ip an_ip ≡ true)
    ↔ ((an_ip ≡ codes "localhost") ⊎ ((an_ip ≡ codes "lo") ⊎ IsDotted an_ip))
is_valid_ip_iff_example = is_valid_ip_iff an_ip

accepted_addresses :
    (is_valid_ip an_ip ≡ true)
    × (is_valid_ip (codes "localhost") ≡ true)
    × (is_valid_ip (codes "01.2.003.4") ≡ true)
    × (is_valid_ip (codes "1.2.3.256") ≡ false)
    × (is_valid_ip (codes "1.2.3") ≡ false)
unfolding is_valid_ip matches match_then same_text
accepted_addresses = (refl, refl, refl, refl, refl)

-- An address with the default port, then the same with 2404.
add_connection-get_connection_example :
    let (client', result) = add_connection an_ip 2404 init_all client in
    DistinctRemotes client'.remotes
    × (has_remote (added result) ≡ accepts an_ip 2404 client)
    × (get_connection an_ip 0 client' ≡ (
        if has_remote (added result)
          && same_text an_ip an_ip
          && (port_or_default 2404 == port_or_default 0)
        then added result
        else get_connection an_ip 0 client))
unfolding is_valid_ip
add_connection-get_connection_example =
    add_connection-get_connection an_ip an_ip 2404 0 init_all client client-DistinctRemotes
      (is_valid_ip-NoColon an_ip refl) (omega arith) (omega arith)
