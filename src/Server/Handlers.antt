-- ===== src/Server/Handlers.antt =====
-- The handlers of src/Server.cpp for the messages of a peer.
-- What lib60870-C, the clock and the Python callbacks give is the record `Environment`.
use iec104_python.Base.{
  ℕ, Bool, true, false, ◌==◌, ◌&&◌, ◌||◌, if◌then◌else◌, List, [], ◌∷◌, ◌++◌, map, none, some,
}
use iec104_python.Protocol.{Cot, qoi_station, qcc_rqt_general}
use iec104_python.Point.Data.{DataPoint}
use iec104_python.Point.Update.{OnReceive, Received, ResponseState}
use iec104_python.Station.Points.{Station}
use iec104_python.Station.Stations.{is_global_common_address}
use iec104_python.Message.Incoming.{Asdu}
use iec104_python.Message.Outgoing.{InformationObject}
use iec104_python.Server.Registry.{Registry, has_active_connections}
use iec104_python.Server.Report.{Group, reported_points, group_points}
use iec104_python.Server.Packing.{pack}
use iec104_python.Server.Replies.{
  unimplemented_group, Output, objects, send_activation_confirmation, send_activation_termination,
  on_unexpected_message, get_valid_message,
}

pub record Server : Type 0 where
  pub enabled : Bool
  pub registry : Registry
  pub stations : List Station

-- `fits` is `CS101_ASDU_addInformationObject` on an ASDU that holds some objects; `poll` what the
-- callback before a read makes of a point; `notified` whether `on_unexpected_message` is set.
pub record Environment : Type 0 where
  pub now : ℕ
  pub notified : Bool
  pub poll : DataPoint → DataPoint
  pub fits : List InformationObject → InformationObject → Bool
  pub receive : DataPoint → OnReceive
  pub received : Received
  pub clock_sync : ResponseState

abbrev pub values : Group → List InformationObject
values = map λ entry. entry.1

abbrev pub packets : Cot → ℕ → List (List InformationObject) → List Output
packets cot ca = map (objects cot ca)

unfoldable pub group_outputs :
    (List InformationObject → InformationObject → Bool)
    → Cot
    → (ca : ℕ) → List (ℕ × Group)
    → List Output
group_outputs fits cot ca [] = []
group_outputs fits cot ca ((type, group) ∷ groups) =
    packets cot ca (pack fits (values group)) ++ group_outputs fits cot ca groups

unfoldable pub report_stations :
    Environment → Cot → (ca : ℕ) → List Station → List Station × List Output
unfolding group_outputs is_global_common_address
report_stations env cot ca [] = ([], [])
report_stations env cot ca (s ∷ ss) =
    let (rest, later) = report_stations env cot ca ss in
    let groups = group_points env.poll cot env.now s.points [] in
    let left = record s { points = reported_points env.poll cot env.now s.points } in
    if is_global_common_address ca || s.common_address == ca
    then (left ∷ rest, group_outputs env.fits cot s.common_address groups ++ later)
    else (s ∷ rest, later)

unfoldable pub send_interrogation_response :
    Environment → Cot → (ca : ℕ) → Server → Server × List Output
unfolding report_stations
send_interrogation_response env cot ca server =
    let (stations, outputs) = report_stations env cot ca server.stations in
    if server.enabled && has_active_connections server.registry
    then (record server { stations = stations }, outputs)
    else (server, [])

-- A group that is not supported: a negative confirmation, and the callback.
unfoldable pub refuse_group : Environment → Asdu → Server → Server × List Output
refuse_group env a server =
    let (a', confirmed) = send_activation_confirmation server.stations true a in
    (server, confirmed ++ (on_unexpected_message env.notified unimplemented_group a').1)

unfoldable pub interrogate_station : Environment → (ca : ℕ) → Asdu → Server → Server × List Output
unfolding send_activation_confirmation send_activation_termination
interrogate_station env ca a server =
    let (a', confirmed) = send_activation_confirmation server.stations false a in
    let (server', report) = send_interrogation_response env qoi_station ca server in
    (server', confirmed ++ report ++ (send_activation_termination server.stations a').1)

unfoldable pub interrogation_handler :
    Environment → (qoi : ℕ) → Asdu → Server → Server × List Output
unfolding refuse_group interrogate_station
interrogation_handler env qoi a server =
    let (a', replies, valid) = get_valid_message env.notified server.stations a in
    elim valid [
      | none ↦ (server, replies)
      | some message ↦
          if qoi == qoi_station
          then interrogate_station env message.ca a' server
          else refuse_group env a' server
    ]

-- The counters themselves are not reported.
unfoldable pub interrogate_counters : Asdu → Server → Server × List Output
interrogate_counters a server =
    let (a', confirmed) = send_activation_confirmation server.stations false a in
    (server, confirmed ++ (send_activation_termination server.stations a').1)

unfoldable pub counter_interrogation_handler :
    Environment → (qcc : ℕ) → Asdu → Server → Server × List Output
unfolding refuse_group interrogate_counters
counter_interrogation_handler env qcc a server =
    let (a', replies, valid) = get_valid_message env.notified server.stations a in
    elim valid [
      | none ↦ (server, replies)
      | some message ↦
          if qcc == qcc_rqt_general
          then interrogate_counters a' server
          else refuse_group env a' server
    ]
