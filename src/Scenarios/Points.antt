-- ===== src/Scenarios/Points.antt =====
-- Points, stations and messages of a small telecontrol station.
use iec104_python.Base.{
  ℕ, ◌≡◌, ◌↔◌, ◌⊎◌, refl, true, false, not, ◌||◌, elem, List, [], ◌∷◌, some, ok, arith, pos, none,
}
use iec104_python.Value.{int}
use iec104_python.Point.Data.{DataPoint, create}
use iec104_python.Point.Update.{kind_of, is_rejected, set_value}
use iec104_python.Point.Valid.{
  Valid, Change, related_address, report_interval, value, changes, changes-Valid,
}
use iec104_python.Point.Domain.{IsAccepted, set_value-quality}
use iec104_python.Station.Points.{Station, add_point, get_point}
use iec104_python.Station.Stations.{find_station}
use iec104_python.Station.Lookup.{DistinctPoints, DistinctStations}
use iec104_python.Message.Incoming.{IncomingMessage}
use iec104_python.Frame.Encode.{raw_size, written_octets, raw_bytes}
use iec104_python.Frame.Decode.{information, read_frame}
use iec104_python.Base.{zero, suc}
use iec104_python.Text.{codes, to_string}
use iec104_python.Frame.Format.{
  Names, hex_text, objects_text, elements_text, information_text, message_text,
}
use iec104_python.Frame.Explain.{
  python_bytes, explain_bytes, raw_message_string, description, explain_bytes-python_bytes,
}
use iec104_python.Frame.RoundTrip.{IsNarrow, read_frame-raw_bytes}
use iec104_python.Message.Cursor.{first, visit, visit-first}
use iec104_python.Message.Causes.{is_valid_cause}
use iec104_python.Message.Acceptance.{checked_types, allowed_causes, is_valid_cause_iff}

abbrev point : ℕ → ℕ → DataPoint
point address type = record {
  address = address;
  type = type;
  is_server = true;
  related_address = 0;
  related_auto_return = false;
  value = int (pos 0);
  quality = 0;
  updated_at = 0;
  reported_at = 0;
  report_interval = 0;
  received_at = 0;
  sent_at = 0;
}

abbrev returning : DataPoint
returning = record (point 20 45) { related_address = 11; related_auto_return = true }

create_single_point : create 20 45 true 0 11 true ≡ ok returning
unfolding create
create_single_point = refl

abbrev some_changes : List Change
some_changes = related_address 0 ∷ report_interval 500 ∷ value 3 (int (pos 1)) 0 0 ∷ []

changes-Valid_example :
    Valid (changes some_changes returning)
    × ((changes some_changes returning).address ≡ 20)
    × ((changes some_changes returning).type ≡ 45)
    × ((changes some_changes returning).is_server ≡ true)
changes-Valid_example = changes-Valid 20 45 true 0 11 true some_changes create_single_point

invalid_single_point : (set_value 5 (int (pos 2)) (point 11 1)).quality ≡ 128
unfolding set_value is_rejected kind_of
invalid_single_point = refl

set_value-quality_example :
    let q = (set_value 5 (int (pos 2)) (point 11 1)).quality in
    ((q ≡ 0) ↔ IsAccepted (kind_of 1) (int (pos 2))) × ((q ≡ 0) ⊎ (q ≡ 128))
set_value-quality_example = set_value-quality 5 (int (pos 2)) (point 11 1)

abbrev station : Station
station = record { common_address = 47; local = true; points = point 11 1 ∷ [] }

abbrev grown : Station
grown = record station { points = point 11 1 ∷ returning ∷ [] }

add_point_adds : add_point 20 45 0 11 true station ≡ ok (grown, some returning)
unfolding add_point create
add_point_adds = refl

station-DistinctPoints : DistinctPoints station.points
unfolding iec104_python.Station.Points.find_point
station-DistinctPoints = (refl, tt)

stations-Distinct : DistinctStations (station ∷ [])
unfolding find_station
stations-Distinct = (refl, tt)

abbrev two_objects : IncomingMessage
two_objects = record {
  type = 1;
  cot = 3;
  ca = 47;
  oa = 0;
  negative = false;
  sequence = false;
  test = false;
  number_of_object = 2;
  ioa = 11;
  position = 5;
  position_reset = false;
  position_valid = false;
}

visit-first_example : visit 3 (first two_objects) ≡ (0 ∷ 1 ∷ [], true)
visit-first_example = visit-first 3 2 two_objects refl (omega arith) (omega arith)

is_valid_cause_iff_example :
    is_valid_cause 30 6 ≡ ok (not (elem 30 checked_types) || elem 6 (allowed_causes 30))
is_valid_cause_iff_example = is_valid_cause_iff 30 6 (omega arith) refl

abbrev payload : List ℕ
payload = 11 ∷ 0 ∷ 0 ∷ 1 ∷ 12 ∷ 0 ∷ 0 ∷ 0 ∷ []

two_objects-IsNarrow : IsNarrow two_objects
two_objects-IsNarrow = record {
  type_octet = omega arith;
  number_7_bits = omega arith;
  cot_6_bits = omega arith;
  ca_two_octets = omega arith;
}

raw_octets :
    raw_bytes two_objects payload
    ≡ some
        (104 ∷ 18 ∷ 0 ∷ 0 ∷ 0 ∷ 0 ∷ 1 ∷ 2 ∷ 3 ∷ 0 ∷ 47 ∷ 0 ∷ 11 ∷ 0 ∷ 0 ∷ 1 ∷ 12 ∷ 0 ∷ 0 ∷ 0 ∷ [])
unfolding raw_bytes raw_size written_octets
raw_octets = refl

read_frame-raw_bytes_example :
    (octets : List ℕ) × (raw_bytes two_objects payload ≡ some octets)
    × (read_frame octets
        ≡ information (record {
          tx = 0;
          rx = 0;
          type = 1;
          number_of_objects = 2;
          sequence = false;
          cot = 3;
          negative = false;
          test = false;
          common_address = 47;
          originator_address = 0;
          first_address = some 11;
          elements = payload;
        }))
read_frame-raw_bytes_example =
    read_frame-raw_bytes two_objects payload two_objects-IsNarrow (omega arith)

abbrev names : Names
names = record { type_name = λ t. codes "M_SP_NA_1"; cause_name = λ c. codes "SPONTANEOUS" }

explained :
    explain_bytes names (python_bytes two_objects payload)
    ≡ codes
        "I-Format | M_SP_NA_1 | SPONTANEOUS | POSITIVE | CA 47 | 1st IOA 11 | LIST[2] (0b 00 00 01 0c 00 00 00 )"
unfolding explain_bytes python_bytes written_octets message_text information_text elements_text
    objects_text hex_text to_string
explained = refl

explain_bytes-python_bytes_example :
    (explain_bytes names (python_bytes two_objects payload) ≡ description names two_objects payload)
    × (raw_message_string names two_objects payload ≡ description names two_objects payload)
explain_bytes-python_bytes_example =
    explain_bytes-python_bytes names two_objects payload two_objects-IsNarrow (omega arith)

-- A payload of 244 octets leaves nothing for Python.
abbrev zeros : ℕ → List ℕ
zeros zero = []
zeros (suc n) = 0 ∷ zeros n

cut_to_nothing : python_bytes two_objects (zeros 244) ≡ []
unfolding python_bytes written_octets
cut_to_nothing = refl

-- Its copy overruns the array.
overrun : raw_bytes two_objects (zeros 244) ≡ none
unfolding raw_bytes raw_size
overrun = refl
