-- ===== src/Scenarios/Peers.antt =====
-- Runs of a server with one station and its peers.
use iec104_python.Base.{
  ℕ, ◌≡◌, ◌↔◌, refl, Bool, true, false, ◌==◌, ltb, if◌then◌else◌, List, [], ◌∷◌, ◌++◌, some, arith,
  All, length, pos,
}
use iec104_python.Value.{int, double_eq}
use iec104_python.Point.Data.{DataPoint}
use iec104_python.Point.Update.{returns, success, failure, Received, on_receive, kind_of}
use iec104_python.Station.Points.{Station, get_point}
use iec104_python.Station.Stations.{find_station, server_has_station}
use iec104_python.Message.Incoming.{Asdu, IncomingMessage, extract_meta_data, require_confirmation}
use iec104_python.Message.Outgoing.{InformationObject}
use iec104_python.Server.Registry.{
  Registry, PeerEvent, peer_opened, peer_closed, activated, deactivated, connection_event,
  has_active_connections, find, insert, erase,
}
use iec104_python.Server.Peers.{Inv, events, status, events-status_lem}
use iec104_python.Server.Packing.{pack, concat, IsPacket, pack_lem}
use iec104_python.Server.Replies.{unimplemented_group, unknown_ioa, Output, sent, unexpected}
use iec104_python.Server.Handlers.{
  Server, Environment, send_interrogation_response, interrogation_handler,
  counter_interrogation_handler,
}
use iec104_python.Server.Commands.{read_handler, asdu_handler}
use iec104_python.Server.Interrogation.{interrogation_answers}
use iec104_python.Server.Answers.{
  unknown_address_replies, unknown_address_answers, refusal_replies, command_refused,
}
use iec104_python.Message.Elements.{Element, extract_object, reading_of, read_element}
use iec104_python.Message.Decoded.{received_of, CommandDomain}
use iec104_python.Server.Execution.{point_at, confirmation, command_executed}

abbrev point : ℕ → ℕ → DataPoint
point address type = record {
  address = address;
  type = type;
  is_server = true;
  related_address = 0;
  related_auto_return = false;
  value = int (pos 0);
  quality = 0;
  updated_at = 0;
  reported_at = 0;
  report_interval = 100;
  received_at = 0;
  sent_at = 0;
}

abbrev station : Station
station = record {
  common_address = 47;
  local = true;
  points = point 12 1 ∷ point 11 1 ∷ point 20 45 ∷ [];
}

abbrev registry : Registry
registry = record { peers = (3, true) ∷ (4, false) ∷ []; active = 1; open_count = 2 }

abbrev server : Server
server = record { enabled = true; registry = registry; stations = station ∷ [] }

abbrev two_at_most : List InformationObject → InformationObject → Bool
two_at_most ios io = ltb (length ios) 2

abbrev on_message : Received
on_message = record { value = int (pos 1); quality = 0; updated_at = 0 }

abbrev environment : Environment
environment = record {
  now = 1000;
  notified = true;
  poll = λ p. p;
  fits = two_at_most;
  receive = λ p. returns success;
  received = on_message;
  clock_sync = failure;
}

abbrev asdu : (ca type ioa : ℕ) → Asdu
asdu ca type ioa = record {
  type = type;
  cot = 6;
  ca = ca;
  oa = 1;
  negative = false;
  sequence = false;
  test = false;
  elements = 1;
  ioa = ioa;
}

abbrev message : (ca type ioa : ℕ) → IncomingMessage
message ca type ioa = record {
  type = type;
  cot = 6;
  ca = ca;
  oa = 1;
  negative = false;
  sequence = false;
  test = false;
  number_of_object = 1;
  ioa = ioa;
  position = 0;
  position_reset = true;
  position_valid = true;
}

registry-Inv : Inv registry
unfolding find
registry-Inv = record { distinct = (refl, (refl, tt)); counted = refl }

abbrev peer_events : List (PeerEvent × ℕ)
peer_events = (peer_opened, 5) ∷ (activated, 5) ∷ (deactivated, 3) ∷ (peer_closed, 4) ∷ []

two_peers_left : (events peer_events registry).peers ≡ (3, false) ∷ (5, true) ∷ []
unfolding events connection_event find insert erase
two_peers_left = refl

events-status_lem_example :
    let r' = events peer_events registry in
    (find 3 r'.peers ≡ status 3 peer_events (find 3 registry.peers))
    × ((has_active_connections r' ≡ true)
        ↔ ((j : ℕ) × (status j peer_events (find j registry.peers) ≡ some true)))
unfolding events connection_event find insert erase
events-status_lem_example = events-status_lem 3 peer_events registry registry-Inv (omega arith)

abbrev room : List ℕ → ℕ → Bool
room xs x = ltb (length xs) 2

pack_lem_example :
    (concat room (pack room (1 ∷ 2 ∷ 3 ∷ [])) ≡ 1 ∷ 2 ∷ 3 ∷ [])
    × All (IsPacket room) (pack room (1 ∷ 2 ∷ 3 ∷ []))
pack_lem_example = pack_lem room (1 ∷ 2 ∷ 3 ∷ []) (refl, (refl, (refl, tt)))

abbrev same : DataPoint → DataPoint
same p = p

interrogation_answers_example :
    let a = asdu 47 100 0 in
    let (server', report) = send_interrogation_response environment 20 47 server in
    let start = sent (record a { cot = 7; negative = false }) in
    let stop = sent (record a { cot = 10; negative = false }) in
    let refusal = sent (record a { cot = 7; negative = true }) in
    let callback = unexpected unimplemented_group ∷ [] in
    (interrogation_handler environment 20 a server
      ≡ (if 20 == 20 then (server', start ∷ report ++ stop ∷ []) else (server, refusal ∷ callback)))
    × (counter_interrogation_handler environment 20 a server
        ≡ (if 20 == 5 then (server, start ∷ stop ∷ []) else (server, refusal ∷ callback)))
unfolding extract_meta_data server_has_station find_station
interrogation_answers_example =
    interrogation_answers environment 20 (asdu 47 100 0) (message 47 100 0) server refl refl
      (λ e. omega (arith, e))

unknown_address_answers_example :
    let a = asdu 48 45 20 in
    let answer : Server × List Output = (server, unknown_address_replies true a) in
    (interrogation_handler environment 20 a server ≡ answer)
    × (counter_interrogation_handler environment 20 a server ≡ answer)
    × (read_handler environment a server ≡ answer)
    × (asdu_handler environment a server ≡ answer)
unfolding extract_meta_data server_has_station find_station
unknown_address_answers_example =
    unknown_address_answers environment 20 (asdu 48 45 20) (message 48 45 20) server refl refl

command_refused_example :
    asdu_handler environment (asdu 47 45 21) server
    ≡ (server, refusal_replies true unknown_ioa (asdu 47 45 21))
unfolding extract_meta_data server_has_station find_station get_point
command_refused_example =
    command_refused environment (asdu 47 45 21) (message 47 45 21) server refl refl
      (λ e. omega (arith, e)) (λ e. cc)

-- The object of the command: on.
abbrev element : Element
element = record {
  address = 20;
  value = int (pos 1);
  quality = 0;
  timestamp = 0;
  octet0 = 0;
  octet1 = 0;
  octet2 = 0;
  octet3 = 0;
  octet4 = 0;
}

command_executed_example :
    let (server', outputs) = asdu_handler environment (asdu 47 45 20) server in
    let object = received_of (extract_object 45 true 0 (some element)) in
    let received = (on_receive 1000 (returns success) object (point 20 45)).0 in
    (point_at 47 20 server' ≡ some received)
    × (received.value ≡ (
        if double_eq (point 20 45).value (int (pos 1)) then (point 20 45).value else int (pos 1)))
    × ((received.quality ≡ 0) ↔ CommandDomain (kind_of 45) (int (pos 1)))
    × (received.received_at ≡ 1000)
    × (outputs ≡ confirmation success (asdu 47 45 20))
unfolding extract_meta_data find_station get_point require_confirmation extract_object reading_of
    read_element
command_executed_example =
    command_executed environment (asdu 47 45 20) (message 47 45 20) station (point 20 45) 47 20
      server 0 element refl (λ e. omega (arith, e)) (refl, refl) refl refl refl refl refl
