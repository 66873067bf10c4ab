-- ===== src/Scenarios/Hooked.antt =====
-- A client with callbacks, and the set up of a connection.
use iec104_python.Base.{ℕ, ◌≡◌, ◌==◌, refl, Bool, true, false, List, [], ◌∷◌, some, pos}
use iec104_python.Text.{codes}
use iec104_python.Value.{int}
use iec104_python.Point.Data.{DataPoint}
use iec104_python.Point.Update.{OnReceive, unset, Received, on_receive}
use iec104_python.Station.Points.{Station, get_point, find_point}
use iec104_python.Station.Stations.{find_station, client_get_station, is_global_common_address}
use iec104_python.Message.Incoming.{Asdu, IncomingMessage}
use iec104_python.Connection.State.{Connection, opened, init_all}
use iec104_python.Server.Execution.{point_in}
use iec104_python.Client.Reports.{receive_point}
use iec104_python.Server.Commands.{change_station}
use iec104_python.Client.Hooks.{Hooks, stations_for, points_for, received_in, deliver_hooked}
use iec104_python.Client.Known.{deliver_hooked-known_point}
use iec104_python.Client.Setup.{apci_parameters, new_connection}
use iec104_python.Client.Timeouts.{IsSetUp, new_connection-IsSetUp}

abbrev no_callback : DataPoint → OnReceive
no_callback p = unset

abbrev at_eleven : DataPoint → Bool
at_eleven p = p.address == 11

abbrev set : Received
set = record { value = int (pos 1); quality = 0; updated_at = 5 }

abbrev two_reports : List (ℕ × Received)
two_reports = (11, set) ∷ (12, set) ∷ []

abbrev report : Asdu
report = record {
  type = 1;
  cot = 3;
  ca = 47;
  oa = 0;
  negative = false;
  sequence = false;
  test = false;
  elements = 2;
  ioa = 11;
}

abbrev message : IncomingMessage
message = record {
  type = 1;
  cot = 3;
  ca = 47;
  oa = 0;
  negative = false;
  sequence = false;
  test = false;
  number_of_object = 2;
  ioa = 11;
  position = 0;
  position_reset = true;
  position_valid = true;
}

abbrev link : Connection
link = record {
  state = opened;
  init = init_all;
  watched = false;
  originator_address = 0;
  connection_count = 1;
  connected_at = 0;
  disconnected_at = 0;
  test_sequence_counter = 0;
  expected = [];
  log = [];
}

abbrev known_point : DataPoint
known_point = record {
  address = 11;
  type = 1;
  is_server = false;
  related_address = 0;
  related_auto_return = false;
  value = int (pos 0);
  quality = 0;
  updated_at = 0;
  reported_at = 0;
  report_interval = 0;
  received_at = 0;
  sent_at = 0;
}

abbrev station : Station
station = record { common_address = 47; local = false; points = known_point ∷ [] }

-- Callbacks that add nothing.
abbrev idle : Hooks
idle = record {
  station_callback = some λ ca ss. ss;
  point_callback = some λ ioa type s. s;
  receive_callback = no_callback;
  throws = at_eleven;
}

deliver_hooked-known_point_example :
    point_in 11 (find_station 47 (deliver_hooked 7 idle 1 47 11 set (station ∷ [])).0)
    ≡ some (on_receive 7 unset set known_point).0
unfolding client_get_station find_station is_global_common_address get_point find_point
deliver_hooked-known_point_example =
    deliver_hooked-known_point 7 idle 1 11 47 47 11 set known_point station (station ∷ []) refl refl
      refl

-- An unknown point is ignored.
unknown_point : deliver_hooked 7 idle 1 47 12 set (station ∷ []) ≡ (station ∷ [], false)
unfolding deliver_hooked stations_for received_in points_for receive_point client_get_station
    find_station is_global_common_address get_point find_point change_station
unknown_point = refl

default_timeouts : apci_parameters 1000 ≡ some (record { t0 = 2; t1 = 1; t2 = 2; t3 = 20 })
unfolding apci_parameters
default_timeouts = refl

new_connection-IsSetUp_example :
    IsSetUp
      (codes "10.0.0.1")
      2404
      1000
      (new_connection (codes "10.0.0.1") 2404 1000 init_all false 3)
new_connection-IsSetUp_example =
    new_connection-IsSetUp (codes "10.0.0.1") 2404 1000 init_all false 3
