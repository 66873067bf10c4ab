-- ===== src/System/Packets.antt =====
-- How a client reads the packets of a server's report, one by one.
use iec104_python.Base.{
  ℕ, ◌%◌, ◌<◌, ◌≡◌, ◌≢◌, refl, ap, true, false, ltb, if◌then◌else◌, List, [], ◌∷◌, ◌++◌, map,
  Option, none, some, ok, arith, All, elem,
}
use iec104_python.Protocol.{TypeId, Cot}
use iec104_python.Point.Data.{DataPoint}
use iec104_python.Point.Update.{OnReceive, Received}
use iec104_python.Station.Stations.{find_station}
use iec104_python.Message.Incoming.{Asdu, IncomingMessage, extract_meta_data, cp24_types}
use iec104_python.Message.Outgoing.{InformationObject}
use iec104_python.Message.Objects.{sendable_types}
use iec104_python.Connection.State.{is_open}
use iec104_python.Client.Reports.{client_asdu_handler, handle_message, deliver_all}
use iec104_python.Client.Delivery.{is_local}
use iec104_python.System.Link.{End, Codec}

-- An object with an address, and what a client reads of it.
abbrev pub HasAddress : InformationObject → Type 0
HasAddress io = io.address ≢ none

abbrev pub or_zero : Option ℕ → ℕ
or_zero none = 0
or_zero (some a) = a

abbrev pub readings : (InformationObject → Received) → List InformationObject → List (ℕ × Received)
readings value = map λ io. (or_zero io.address, value io)

-- The library makes an ASDU of the type of its first object, under the cause and the address that it
-- is given, and the other side reads the objects that went in.
pub record IsFaithful (codec : Codec) (value : InformationObject → Received) : Type 0 where
  pub typed :
      (cot : Cot) (ca : ℕ) (io : InformationObject) (ios : List InformationObject)
      → (codec.packet cot ca (io ∷ ios)).type ≡ io.type
  pub addressed :
      (cot : Cot) (ca : ℕ) (ios : List InformationObject) → (codec.packet cot ca ios).ca ≡ ca
  pub caused :
      (cot : Cot) (ca : ℕ) (ios : List InformationObject) → (codec.packet cot ca ios).cot ≡ cot
  pub read :
      (cot : Cot) (ios : List InformationObject)
      → All HasAddress ios
      → codec.read cot ios ≡ readings value ios

-- A connection that is open, whose station of an address, if there is one, is its own.
pub record IsReady (ca : ℕ) (e : End) : Type 0 where
  pub link_open : is_open e.link ≡ true
  pub remote : is_local (find_station ca e.stations) ≡ false

-- The message of an ASDU, at the start.
abbrev message_in : Asdu → IncomingMessage
message_in a =
    let number = a.elements % 256 in
    record {
      type = a.type;
      cot = a.cot;
      ca = a.ca;
      oa = a.oa;
      negative = a.negative;
      sequence = a.sequence;
      test = a.test;
      number_of_object = number;
      ioa = if ltb 0 number then a.ioa else 0;
      position = 0;
      position_reset = true;
      position_valid = ltb 0 number;
    }

extract-sendable :
    (a : Asdu)
    → elem a.type cp24_types ≡ false
    → a.type < 42
    → extract_meta_data a ≡ ok (message_in a)
unfolding extract_meta_data
extract-sendable a h t = ground (arith, h, t)

sendable-plain : (t : TypeId) → elem t sendable_types ≡ true → elem t cp24_types ≡ false
sendable-plain t h = ground (arith, h)

module _ (now : ℕ) (callback : DataPoint → OnReceive) where
  pub take-monitoring :
      (a : Asdu) (os : List (ℕ × Received)) (e : End)
      → elem a.type sendable_types ≡ true
      → a.type < 42
      → a.cot ≢ 5
      → is_open e.link ≡ true
      → client_asdu_handler now callback os true a e.link e.stations
        ≡ (e.link, deliver_all now callback a.type a.ca os e.stations)
  unfolding client_asdu_handler handle_message
  take-monitoring a os e h t c o = ground (arith, extract-sendable a (sendable-plain a.type h) t)

-- An object of a type, with an address.
abbrev pub IsTyped : TypeId → InformationObject → Type 0
IsTyped t io = (io.type ≡ t) × HasAddress io

pub addresses :
    (t : TypeId) (ios : List InformationObject) → All (IsTyped t) ios → All HasAddress ios
addresses t [] h = tt
addresses t (io ∷ ios) h = (h.0.1, addresses t ios h.1)

pub All-split :
    {A : Type 0} (P : A → Type 0) (xs ys : List A) → All P (xs ++ ys) → All P xs × All P ys
All-split P [] ys h = (tt, h)
All-split P (x ∷ xs) ys h = let (a, b) = All-split P xs ys h.1 in ((h.0, a), b)

pub readings-append :
    (value : InformationObject → Received) (xs ys : List InformationObject)
    → readings value (xs ++ ys) ≡ readings value xs ++ readings value ys
readings-append value [] ys = refl
readings-append value (x ∷ xs) ys =
    ap (◌∷◌ (or_zero x.address, value x)) (readings-append value xs ys)
