-- ===== src/Client/Hooks.antt =====
-- `asduHandler` of src/remote/Connection.cpp with any callbacks: those for new stations and points of
-- src/Client.cpp, and an `on_receive` whose value is of a wrong type, so that an exception leaves the
-- handler's loop.
-- A callback for new stations may change the list of stations, and one for new points the station.
use iec104_python.Base.{
  ℕ, Bool, true, false, ◌==◌, ltb, ◌&&◌, if◌then◌else◌, List, [], ◌∷◌, Option, none, some, ok, err,
}
use iec104_python.Protocol.{TypeId, c_sc_na_1, m_ei_na_1, p_me_na_1, cot_request}
use iec104_python.Point.Data.{DataPoint}
use iec104_python.Point.Update.{OnReceive, Received}
use iec104_python.Station.Points.{Station, get_point}
use iec104_python.Station.Stations.{client_get_station, client_add_station}
use iec104_python.Message.Incoming.{Asdu, IncomingMessage, extract_meta_data}
use iec104_python.Connection.State.{Connection, is_open}
use iec104_python.Connection.Link.{set_command_success}
use iec104_python.Server.Commands.{change_station}
use iec104_python.Client.Reports.{on_new_point, receive_point, is_known, is_station, response_of}

pub record Hooks : Type 0 where
  pub station_callback : Option ((ca : ℕ) → List Station → List Station)
  pub point_callback : Option ((ioa : ℕ) → TypeId → Station → Station)
  pub receive_callback : DataPoint → OnReceive
  pub throws : DataPoint → Bool

abbrev pub call_new_station :
    Option ((ca : ℕ) → List Station → List Station) → (ca : ℕ) → List Station → List Station
call_new_station none ca ss = (client_add_station ca ss).0
call_new_station (some hook) ca ss = hook ca ss

abbrev pub call_new_point :
    Option ((ioa : ℕ) → TypeId → Station → Station) → (ioa : ℕ) → TypeId → Station → Station
call_new_point none ioa type s = on_new_point ioa type s
call_new_point (some hook) ioa type s = hook ioa type s

module _ (now : ℕ) (hooks : Hooks) (type : TypeId) (ca : ℕ) where
  unfoldable pub stations_for : List Station → List Station
  stations_for ss =
      let called = call_new_station hooks.station_callback ca ss in
      if is_station (client_get_station ca ss) then ss else called

  unfoldable pub points_for : (ioa : ℕ) → Station → Station
  points_for ioa s =
      let called = call_new_point hooks.point_callback ioa type s in
      if is_known (get_point ioa s) then s else called

  unfoldable pub received_in : (ioa : ℕ) → Received → Station → Station
  unfolding points_for receive_point
  received_in ioa r s =
      let prepared = points_for ioa s in
      receive_point now hooks.receive_callback ioa r (get_point ioa prepared) prepared

  abbrev thrown_by : Option DataPoint → Bool
  thrown_by none = false
  thrown_by (some p) = hooks.throws p

  abbrev thrown_in : (ioa : ℕ) → Option Station → Bool
  thrown_in ioa none = false
  thrown_in ioa (some s) = thrown_by (get_point ioa (points_for ioa s))

  -- The stations after an object, and whether an exception leaves the loop.
  unfoldable pub deliver_hooked : (ioa : ℕ) → Received → List Station → List Station × Bool
  unfolding stations_for received_in
  deliver_hooked ioa r ss =
      let known = stations_for ss in
      let changed = change_station ca (received_in ioa r) known in
      (
        (if is_station (client_get_station ca known) then changed else known),
        thrown_in ioa (client_get_station ca known),
      )

  unfoldable pub deliver_all_hooked : List (ℕ × Received) → List Station → List Station × Bool
  unfolding deliver_hooked
  deliver_all_hooked [] ss = (ss, false)
  deliver_all_hooked ((ioa, r) ∷ objects) ss =
      let (ss', thrown) = deliver_hooked ioa r ss in
      let rest = deliver_all_hooked objects ss' in if thrown then (ss', true) else rest

-- An exception ends the handler, which returns true all the same.
unfoldable pub handle_hooked :
    (now : ℕ)
    → Hooks
    → List (ℕ × Received)
    → IncomingMessage
    → Connection
    → List Station
    → Connection × List Station
unfolding deliver_all_hooked
handle_hooked now hooks objects m c ss =
    let answered = set_command_success (response_of m) c in
    if ltb m.type c_sc_na_1
    then (
      (if m.cot == cot_request then answered else c),
      (deliver_all_hooked now hooks m.type m.ca objects ss).0,
    )
    else if m.type == m_ei_na_1
    then (c, ss)
    else if ltb m.type p_me_na_1
    then (answered, ss)
    else (c, ss)

unfoldable pub hooked_asdu_handler :
    (now : ℕ)
    → Hooks
    → List (ℕ × Received)
    → (running : Bool) → Asdu
    → Connection
    → List Station
    → Connection × List Station
unfolding handle_hooked
hooked_asdu_handler now hooks objects running a c ss = elim (extract_meta_data a) [
  | err e ↦ (c, ss)
  | ok m ↦
      let handled = handle_hooked now hooks objects m c ss in
      if running && is_open c then handled else (c, ss)
]
