-- ===== src/Message/Objects.antt =====
-- Which points can be sent, and with what.
use iec104_python.Base.{
  ℕ, ◌<◌, ◌≡◌, refl, Bool, true, false, not, ◌==◌, ◌&&◌, elem, if◌then◌else◌, List, [], ◌∷◌, Option,
  none, some, Result, ok, err, arith, table, table-entry, ap, ◌∙◌,
}
use iec104_python.Protocol.{TypeId}
use iec104_python.Point.Data.{DataPoint}
use iec104_python.Point.Valid.{is_ok}
use iec104_python.Message.Outgoing.{
  InformationObject, Shape, valued, without_quality, counter_reading, timed_counter, throws,
  message_shape, command_shape, build, point_message, point_command,
}

-- The monitoring types that can be sent.
abbrev pub sendable_types : List TypeId
sendable_types = 1 ∷ 3 ∷ 5 ∷ 7 ∷ 9 ∷ 11 ∷ 13 ∷ 15 ∷ 21 ∷ 30 ∷ 31 ∷ 32 ∷ 33 ∷ 34 ∷ 35 ∷ 36 ∷ 37 ∷ []

-- The commands, C_SC_NA_1 to C_BO_NA_1 and C_SC_TA_1 to C_BO_TA_1.
abbrev pub command_types : List TypeId
command_types = 45 ∷ 46 ∷ 47 ∷ 48 ∷ 49 ∷ 50 ∷ 51 ∷ 58 ∷ 59 ∷ 60 ∷ 61 ∷ 62 ∷ 63 ∷ 64 ∷ []

abbrev is_sent : Shape → Bool
is_sent (throws e) = false
is_sent _ = true

abbrev has_time : Shape → Bool
has_time (valued c timed) = timed
has_time (without_quality c timed) = timed
has_time timed_counter = true
has_time _ = false

abbrev has_address : Shape → Bool
has_address (throws e) = false
has_address counter_reading = false
has_address _ = true

abbrev agree : Bool → Bool → Bool
agree true b = b
agree false b = not b

abbrev facts : TypeId → Bool
facts t =
    agree (is_sent (message_shape t)) (elem t sendable_types)
    && agree (is_sent (command_shape t)) (elem t command_types)
    && agree (has_address (message_shape t)) (elem t sendable_types && not (t == 15))
    && agree (has_address (command_shape t)) (elem t command_types)

facts_hold : table facts 256 ≡ true
unfolding table message_shape command_shape
facts_hold = refl

abbrev pub io_address : {E : Type 0} → Result E InformationObject → Option ℕ
io_address (ok io) = io.address
io_address (err e) = none

build_facts :
    (s : Shape) (p : DataPoint)
    → (is_ok (build s p) ≡ is_sent s)
      × (io_address (build s p) ≡ (if has_address s then some p.address else none))
unfolding build
build_facts (valued c timed) p = (refl, refl)
build_facts (without_quality c timed) p = (refl, refl)
build_facts counter_reading p = (refl, refl)
build_facts timed_counter p = (refl, refl)
build_facts (throws e) p = (refl, refl)

combine :
    (m c : Shape) (sendable commands plain : Bool)
    → (agree (is_sent m) sendable
        && agree (is_sent c) commands
        && agree (has_address m) (sendable && not plain)
        && agree (has_address c) commands)
      ≡ true
    → (is_sent m ≡ sendable)
      × (is_sent c ≡ commands)
      × (has_address m ≡ (sendable && not plain))
      × (has_address c ≡ commands)
combine m c sendable commands plain h = ground arith

type_facts :
    (t : TypeId)
    → t < 256
    → (is_sent (message_shape t) ≡ elem t sendable_types)
      × (is_sent (command_shape t) ≡ elem t command_types)
      × (has_address (message_shape t) ≡ (elem t sendable_types && not (t == 15)))
      × (has_address (command_shape t) ≡ elem t command_types)
type_facts t lt =
    combine (message_shape t) (command_shape t) (elem t sendable_types) (elem t command_types)
      (t == 15) (table-entry facts 256 lt facts_hold)

-- A `PointMessage` can be made exactly of the points with a sendable monitoring type, and a
-- `PointCommand` exactly of those with a command type; all others throw. The information object
-- carries the point's address, but for the plain integrated totals M_IT_NA_1 (15): their message
-- holds a counter reading without any address.
pub point_message_objects :
    (p : DataPoint)
    → p.type < 256
    → (is_ok (point_message p) ≡ elem p.type sendable_types)
      × (is_ok (point_command p) ≡ elem p.type command_types)
      × (io_address (point_message p)
          ≡ (if elem p.type sendable_types && not (p.type == 15) then some p.address else none))
      × (io_address (point_command p)
          ≡ (if elem p.type command_types then some p.address else none))
unfolding point_message point_command
point_message_objects p lt =
    let (a, b, c, d) = type_facts p.type lt in
    let (m, ma) = build_facts (message_shape p.type) p in
    let (k, ka) = build_facts (command_shape p.type) p in
    (
      m ∙ a,
      k ∙ b,
      ma ∙ ap (λ x. if x then some p.address else none) c,
      ka ∙ ap (λ x. if x then some p.address else none) d,
    )
