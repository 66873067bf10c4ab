-- ===== src/Client/Reports.antt =====
-- `asduHandler` of src/remote/Connection.cpp, with the default callbacks for new stations and points
-- of src/Client.cpp. The objects of the message, as the library decodes them, are an argument: the
-- address of each, and what `onReceive` reads of it.
use iec104_python.Base.{
  ℕ, Bool, true, false, ◌==◌, ltb, ◌&&◌, if◌then◌else◌, List, [], ◌∷◌, Option, none, some, Result,
  ok, err,
}
use iec104_python.Protocol.{TypeId, c_sc_na_1, m_ei_na_1, p_me_na_1, cot_request}
use iec104_python.Point.Data.{DataPoint, PointError}
use iec104_python.Point.Update.{OnReceive, Received, on_receive}
use iec104_python.Station.Points.{Station, get_point, add_point}
use iec104_python.Station.Stations.{client_get_station, client_add_station}
use iec104_python.Message.Incoming.{Asdu, IncomingMessage, extract_meta_data}
use iec104_python.Connection.State.{Connection, is_open}
use iec104_python.Connection.Link.{Response, set_command_success}
use iec104_python.Server.Commands.{change_point, change_station}

-- `onNewPoint`: an exception of the constructor is caught, and the station stays as it was.
abbrev pub added_station : Station → Result PointError (Station × Option DataPoint) → Station
added_station s (ok (s', made)) = s'
added_station s (err e) = s

unfoldable pub on_new_point : (ioa : ℕ) → TypeId → Station → Station
on_new_point ioa type s = added_station s (add_point ioa type 0 0 false s)

abbrev pub is_known : Option DataPoint → Bool
is_known none = false
is_known (some p) = true

unfoldable pub receive_point :
    (now : ℕ)
    → (DataPoint → OnReceive)
    → (ioa : ℕ) → Received
    → Option DataPoint
    → Station
    → Station
unfolding change_point
receive_point now callback ioa r none s = s
receive_point now callback ioa r (some p) s =
    let q = (on_receive now (callback p) r p).0 in
    record s { points = change_point ioa (λ _. q) s.points }

-- The body of the loop, once the station is found.
unfoldable pub deliver_to_station :
    (now : ℕ) → (DataPoint → OnReceive) → TypeId → (ioa : ℕ) → Received → Station → Station
unfolding on_new_point receive_point
deliver_to_station now callback type ioa r s =
    let s' = on_new_point ioa type s in
    if is_known (get_point ioa s)
    then receive_point now callback ioa r (get_point ioa s) s
    else receive_point now callback ioa r (get_point ioa s') s'

abbrev pub is_station : Option Station → Bool
is_station none = false
is_station (some s) = true

-- `onNewStation` by default.
unfoldable pub with_station : (ca : ℕ) → List Station → List Station
with_station ca ss =
    let added = (client_add_station ca ss).0 in
    if is_station (client_get_station ca ss) then ss else added

unfoldable pub deliver :
    (now : ℕ)
    → (DataPoint → OnReceive)
    → TypeId
    → (ca ioa : ℕ) → Received
    → List Station
    → List Station
unfolding with_station deliver_to_station
deliver now callback type ca ioa r ss =
    let known = with_station ca ss in
    let changed = change_station ca (deliver_to_station now callback type ioa r) known in
    if is_station (client_get_station ca known) then changed else known

unfoldable pub deliver_all :
    (now : ℕ)
    → (DataPoint → OnReceive)
    → TypeId
    → (ca : ℕ) → List (ℕ × Received)
    → List Station
    → List Station
unfolding deliver
deliver_all now callback type ca [] ss = ss
deliver_all now callback type ca ((ioa, r) ∷ objects) ss =
    deliver_all now callback type ca objects (deliver now callback type ca ioa r ss)

abbrev pub response_of : IncomingMessage → Response
response_of m = record { type = m.type; cot = m.cot; ca = m.ca; ioa = m.ioa; negative = m.negative }

-- A message of an accepted format on an open connection of a running client.
unfoldable pub handle_message :
    (now : ℕ)
    → (DataPoint → OnReceive)
    → List (ℕ × Received)
    → IncomingMessage
    → Connection
    → List Station
    → Connection × List Station
unfolding deliver_all
handle_message now callback objects m c ss =
    let answered = set_command_success (response_of m) c in
    if ltb m.type c_sc_na_1
    then (
      (if m.cot == cot_request then answered else c),
      deliver_all now callback m.type m.ca objects ss,
    )
    else if m.type == m_ei_na_1
    then (c, ss)
    else if ltb m.type p_me_na_1
    then (answered, ss)
    else (c, ss)

unfoldable pub client_asdu_handler :
    (now : ℕ)
    → (DataPoint → OnReceive)
    → List (ℕ × Received)
    → (running : Bool) → Asdu
    → Connection
    → List Station
    → Connection × List Station
unfolding handle_message
client_asdu_handler now callback objects running a c ss = elim (extract_meta_data a) [
  | err e ↦ (c, ss)
  | ok m ↦
      let handled = handle_message now callback objects m c ss in
      if running && is_open c then handled else (c, ss)
]
