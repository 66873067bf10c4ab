-- ===== src/Client/Messages.antt =====
-- What a monitoring message does to the stations and points of a connection.
use iec104_python.Base.{
  ℕ, ◌+◌, ◌<◌, ◌≡◌, ◌≢◌, refl, true, false, ◌==◌, if◌then◌else◌, List, [], ◌∷◌, none, ok, arith,
  length,
}
use iec104_python.Point.Data.{DataPoint}
use iec104_python.Point.Update.{OnReceive, Received}
use iec104_python.Station.Points.{Station}
use iec104_python.Station.Stations.{
  find_station, client_get_station, client_add_station, is_global_common_address,
}
use iec104_python.Station.Lookup.{add_again, client_add_global_grows}
use iec104_python.Message.Incoming.{Asdu, IncomingMessage, extract_meta_data}
use iec104_python.Connection.State.{Connection, is_open}
use iec104_python.Server.Answers.{extract-fields}
use iec104_python.Server.Execution.{point_in}
use iec104_python.Client.Reports.{
  with_station, deliver, deliver_all, handle_message, client_asdu_handler,
}
use iec104_python.Client.Delivery.{is_local, history, point_in-deliver_all}

handled :
    (now : ℕ) (callback : DataPoint → OnReceive) (objects : List (ℕ × Received)) (a : Asdu)
    (m : IncomingMessage) (c : Connection) (ss : List Station)
    → extract_meta_data a ≡ ok m
    → is_open c ≡ true
    → m.type < 45
    → (client_asdu_handler now callback objects true a c ss).1
      ≡ deliver_all now callback m.type a.ca objects ss
unfolding client_asdu_handler handle_message
handled now callback objects a m c ss h o t = ground (arith, extract-fields a m h)

-- A monitoring message of an accepted format reaches the points of its station, on an open connection
-- of a running client with the default callbacks. Each object in turn is received by the point at
-- its address in the station of the message, which is made first if it is missing and can be made;
-- the station, too, is made if it is missing. No other point changes. The common address is not the
-- global one, and a station that is there belongs to the connection.
pub client_asdu_handler-points :
    (now : ℕ) (callback : DataPoint → OnReceive) (objects : List (ℕ × Received)) (i j : ℕ)
    (a : Asdu) (m : IncomingMessage) (c : Connection) (ss : List Station)
    → extract_meta_data a ≡ ok m
    → is_open c ≡ true
    → m.type < 45
    → a.ca ≢ 65535
    → is_local (find_station a.ca ss) ≡ false
    → point_in i (find_station j (client_asdu_handler now callback objects true a c ss).1) ≡ (
        if a.ca == j
        then history now callback m.type i objects (point_in i (find_station a.ca ss))
        else point_in i (find_station j ss))
client_asdu_handler-points now callback objects i j a m c ss h o t g remote =
    rw (handled now callback objects a m c ss h o t)
      (point_in-deliver_all now callback m.type i j a.ca objects ss g remote)

deliver_all-global :
    (now : ℕ) (callback : DataPoint → OnReceive) (type : ℕ) (objects : List (ℕ × Received))
    (ss : List Station)
    → deliver_all now callback type 65535 objects ss ≡ add_again (length objects) 65535 ss
unfolding deliver_all deliver with_station client_get_station is_global_common_address add_again
deliver_all-global now callback type [] ss = refl
deliver_all-global now callback type ((a, r) ∷ objects) ss =
    deliver_all-global now callback type objects (client_add_station 65535 ss).0

-- A monitoring message for the global address 65535 is not delivered to any point. Each of its objects
-- adds a station 65535 to the list, since the lookup never finds one: the list grows by the number
-- of objects, and the lookup still finds none.
client_asdu_handler-global :
    (now : ℕ) (callback : DataPoint → OnReceive) (objects : List (ℕ × Received)) (a : Asdu)
    (m : IncomingMessage) (c : Connection) (ss : List Station)
    → extract_meta_data a ≡ ok m
    → is_open c ≡ true
    → m.type < 45
    → a.ca ≡ 65535
    → let ss' = (client_asdu_handler now callback objects true a c ss).1 in
      (ss' ≡ add_again (length objects) 65535 ss)
      × (length ss' ≡ length ss + length objects)
      × (client_get_station 65535 ss' ≡ none)
client_asdu_handler-global now callback objects a m c ss h o t g =
    let reached = handled now callback objects a m c ss h o t in
    let grown = client_add_global_grows (length objects) ss in
    ground (arith, reached, deliver_all-global now callback m.type objects ss, grown)
