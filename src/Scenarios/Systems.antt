-- ===== src/Scenarios/Systems.antt =====
-- A client and a server together.
use iec104_python.Base.{ℕ, none, List, ◌≡◌, refl, true, false, [], ◌∷◌, some, arith, pos}
use iec104_python.Value.{int}
use iec104_python.Point.Data.{DataPoint}
use iec104_python.Point.Update.{OnReceive, returns, success, failure, Received}
use iec104_python.Station.Points.{Station, get_point, find_point}
use iec104_python.Station.Stations.{find_station}
use iec104_python.Message.Incoming.{Asdu}
use iec104_python.Connection.State.{Connection, opened, init_all, is_open}
use iec104_python.Server.Handlers.{Server, Environment}
use iec104_python.System.Link.{Codec, take_outputs}
use iec104_python.Message.Incoming.{IncomingMessage, extract_meta_data}
use iec104_python.Message.Outgoing.{InformationObject, point_message, to_bool, message_shape, build}
use iec104_python.Server.Handlers.{interrogation_handler}
use iec104_python.Server.Registry.{has_active_connections}
use iec104_python.Client.Delivery.{point_after}
use iec104_python.System.Link.{End}
use iec104_python.System.Packets.{readings, IsFaithful, IsReady}
use iec104_python.System.Reports.{holding}
use iec104_python.System.Interrogation.{IsAsked, interrogation_delivers}
use iec104_python.Message.Elements.{Element}

abbrev point : DataPoint
point = record {
  address = 20;
  type = 45;
  is_server = true;
  related_address = 0;
  related_auto_return = false;
  value = int (pos 0);
  quality = 0;
  updated_at = 0;
  reported_at = 0;
  report_interval = 0;
  received_at = 0;
  sent_at = 0;
}

abbrev own_point : DataPoint
own_point = record point { is_server = false; value = int (pos 1) }

abbrev station : Station
station = record { common_address = 47; local = true; points = point ∷ [] }

abbrev server : Server
server = record {
  enabled = true;
  registry = record { peers = (3, true) ∷ []; active = 1; open_count = 1 };
  stations = station ∷ [];
}

abbrev on_message : Received
on_message = record { value = int (pos 1); quality = 0; updated_at = 0 }

abbrev environment : Environment
environment = record {
  now = 1000;
  notified = false;
  poll = λ p. p;
  fits = λ ios io. true;
  receive = λ p. returns failure;
  received = on_message;
  clock_sync = success;
}

abbrev connection : Connection
connection = record {
  state = opened;
  init = init_all;
  watched = false;
  originator_address = 0;
  connection_count = 1;
  connected_at = 0;
  disconnected_at = 0;
  test_sequence_counter = 0;
  expected = [];
  log = [];
}

abbrev asdu : Asdu
asdu = record {
  type = 45;
  cot = 6;
  ca = 47;
  oa = 0;
  negative = false;
  sequence = false;
  test = false;
  elements = 1;
  ioa = 20;
}

abbrev codec : Codec
codec = record {
  packet = λ cot ca ios. record asdu { cot = cot; ca = ca };
  read = λ cot ios. [];
  reread = λ a. [];
}

abbrev no_callback : DataPoint → OnReceive
no_callback p = OnReceive.unset

-- The object of the command: on.
abbrev element : Element
element = record {
  address = 20;
  value = int (pos 1);
  quality = 0;
  timestamp = 0;
  octet0 = 0;
  octet1 = 0;
  octet2 = 0;
  octet3 = 0;
  octet4 = 0;
}

abbrev measured_point : DataPoint
measured_point = record point { address = 11; type = 1; value = int (pos 1) }

abbrev measuring : Station
measuring = record { common_address = 47; local = true; points = measured_point ∷ point ∷ [] }

abbrev measuring_server : Server
measuring_server = record server { stations = measuring ∷ [] }

abbrev object : InformationObject
object = record {
  type = 1;
  address = some 11;
  value = int (pos 1);
  conversion = to_bool;
  quality = some 0;
  time = none;
  counter_flags = none;
}

abbrev reading : InformationObject → Received
reading io = record { value = io.value; quality = 0; updated_at = 0 }

abbrev first_type : List InformationObject → ℕ
first_type [] = 0
first_type (io ∷ ios) = io.type

abbrev plain_codec : Codec
plain_codec = record {
  packet = λ cot ca ios. record asdu { type = first_type ios; cot = cot; ca = ca };
  read = λ cot ios. readings reading ios;
  reread = λ a. [];
}

plain_codec-IsFaithful : IsFaithful plain_codec reading
plain_codec-IsFaithful = record {
  typed = λ cot ca io ios. refl;
  addressed = λ cot ca ios. refl;
  caused = λ cot ca ios. refl;
  read = λ cot ios h. refl;
}

abbrev interrogation_asdu : Asdu
interrogation_asdu = record asdu { type = 100; ioa = 0 }

abbrev interrogation_message : IncomingMessage
interrogation_message = record {
  type = 100;
  cot = 6;
  ca = 47;
  oa = 0;
  negative = false;
  sequence = false;
  test = false;
  number_of_object = 1;
  ioa = 0;
  position = 0;
  position_reset = true;
  position_valid = true;
}

interrogation_asdu-IsAsked : IsAsked interrogation_asdu measuring measuring_server
unfolding find_station find_point has_active_connections
interrogation_asdu-IsAsked = record {
  interrogates = refl;
  single_station = λ e. omega (arith, e);
  known = refl;
  enabled = refl;
  active = refl;
  stations_distinct = (refl, tt);
  points_distinct = (refl, (refl, tt));
  no_plain_totals = ((λ e. omega (arith, e)), ((λ e. omega (arith, e)), tt));
}

abbrev client_end : End
client_end = record { link = connection; stations = [] }

client_end-IsReady : IsReady 47 client_end
unfolding is_open find_station
client_end-IsReady = record { link_open = refl; remote = refl }

interrogation_delivers_example :
    holding 47
      (take_outputs 7 no_callback plain_codec
        (interrogation_handler environment 20 interrogation_asdu measuring_server).1
        client_end)
      11
    ≡ point_after 7 no_callback 1 false 11 (reading object) (holding 47 client_end 11)
unfolding extract_meta_data get_point point_message message_shape build
interrogation_delivers_example =
    interrogation_delivers 7 no_callback plain_codec reading environment interrogation_asdu
      interrogation_message measuring measuring_server client_end measured_point object 11
      plain_codec-IsFaithful (record { room = λ io. refl; keeps = λ p. (refl, refl) })
      interrogation_asdu-IsAsked refl client_end-IsReady refl (omega arith) refl
