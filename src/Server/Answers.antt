-- ===== src/Server/Answers.antt =====
-- How the handlers of src/Server.cpp answer a message.
use iec104_python.Base.{
  ℕ, ◌≡◌, ◌≢◌, Bool, true, false, ◌==◌, ltb, if◌then◌else◌, List, [], ◌∷◌, none, some, ok, err,
  arith,
}
use iec104_python.Protocol.{c_cs_na_1, c_sc_na_1}
use iec104_python.Point.Update.{failure}
use iec104_python.Station.Points.{Station, get_point}
use iec104_python.Station.Stations.{find_station, server_has_station, is_global_common_address}
use iec104_python.Message.Incoming.{
  Asdu, IncomingMessage, MessageError, extract_meta_data, require_confirmation,
}
use iec104_python.Server.Replies.{
  UnexpectedMessageCause, no_error_cause, unknown_ca, unknown_ioa, invalid_type_id,
  mismatched_type_id, Output, sent, unexpected, send_addressed, send_activation_confirmation,
  on_unexpected_message, get_valid_message,
}
use iec104_python.Server.Handlers.{
  Server, Environment, interrogation_handler, counter_interrogation_handler,
}
use iec104_python.Server.Commands.{
  Executed, find_target, execute, receive_command, read_handler, reply_command, reply_related,
  asdu_handler,
}

-- The replies to a message for a station that the server has not: the negative confirmation where
-- the cause asks for one, the error, and the callback.
abbrev pub unknown_address_replies : (notified : Bool) → Asdu → List Output
unknown_address_replies notified a =
    let con = record a { cot = 7; negative = true } in
    let callback = if notified then unexpected unknown_ca ∷ [] else [] in
    if require_confirmation a.cot
    then sent con ∷ sent (record con { cot = 46 }) ∷ callback
    else sent (record a { cot = 46 }) ∷ callback

pub extract-fields :
    (a : Asdu) (m : IncomingMessage)
    → extract_meta_data a ≡ ok m
    → (m.ca ≡ a.ca) × (m.cot ≡ a.cot) × (m.type ≡ a.type)
unfolding extract_meta_data
extract-fields a m h = ground arith

unknown_address_message :
    (notified : Bool) (stations : List Station) (a : Asdu) (m : IncomingMessage)
    → extract_meta_data a ≡ ok m
    → server_has_station a.ca stations ≡ false
    → ((get_valid_message notified stations a).1 ≡ unknown_address_replies notified a)
      × ((get_valid_message notified stations a).2 ≡ none)
unfolding get_valid_message send_activation_confirmation send_addressed on_unexpected_message
    server_has_station is_global_common_address
unknown_address_message notified stations a m h k = ground (arith, extract-fields a m h)

-- A message of an accepted format for a common address that the server has no station for changes
-- nothing and is answered alike by all four handlers: a negative confirmation, if the cause is an
-- activation or a deactivation, then the error UNKNOWN_CA, then the callback if one is set.
pub unknown_address_answers :
    (env : Environment) (qualifier : ℕ) (a : Asdu) (m : IncomingMessage) (server : Server)
    → extract_meta_data a ≡ ok m
    → server_has_station a.ca server.stations ≡ false
    → let answer : Server × List Output = (server, unknown_address_replies env.notified a) in
      (interrogation_handler env qualifier a server ≡ answer)
      × (counter_interrogation_handler env qualifier a server ≡ answer)
      × (read_handler env a server ≡ answer)
      × (asdu_handler env a server ≡ answer)
unfolding interrogation_handler counter_interrogation_handler read_handler asdu_handler
unknown_address_answers env qualifier a m server h k =
    ground (arith, unknown_address_message env.notified server.stations a m h k)

-- A message that is refused as malformed is dropped without any answer.
pub malformed_unanswered :
    (env : Environment) (qualifier : ℕ) (a : Asdu) (e : MessageError) (server : Server)
    → extract_meta_data a ≡ err e
    → (interrogation_handler env qualifier a server ≡ (server, []))
      × (counter_interrogation_handler env qualifier a server ≡ (server, []))
      × (read_handler env a server ≡ (server, []))
      × (asdu_handler env a server ≡ (server, []))
unfolding interrogation_handler counter_interrogation_handler read_handler asdu_handler
    get_valid_message
malformed_unanswered env qualifier a e server h = ground arith

-- Why a command is not carried out: the type of message first, then the address of the object, then
-- the type of the point.
abbrev pub refusal : IncomingMessage → Server → UnexpectedMessageCause
refusal m server =
    if m.type == c_cs_na_1
    then no_error_cause
    else if ltb m.type c_sc_na_1
    then invalid_type_id
    else elim (find_station m.ca server.stations) [
      | none ↦ unknown_ca
      | some s ↦ elim (get_point m.ioa s) [
        | none ↦ unknown_ioa
        | some p ↦ if p.type == m.type then no_error_cause else mismatched_type_id
      ]
    ]

execute-refusal :
    (env : Environment) (m : IncomingMessage) (server : Server)
    → (execute env m server).cause ≡ refusal m server
unfolding execute find_target receive_command
execute-refusal env m server = ground arith

execute-refused :
    (env : Environment) (m : IncomingMessage) (server : Server)
    → (execute env m server).cause ≢ no_error_cause
    → ((execute env m server).server ≡ server)
      × ((execute env m server).response ≡ failure)
      × ((execute env m server).related ≡ none)
unfolding execute find_target receive_command
execute-refused env m server h = ground arith

-- The number of the cause that reports an error.
abbrev pub reported_as : UnexpectedMessageCause → ℕ
reported_as unknown_ca = 46
reported_as unknown_ioa = 47
reported_as _ = 44

-- The replies to a refused command for a single address.
abbrev pub refusal_replies : (notified : Bool) → UnexpectedMessageCause → Asdu → List Output
refusal_replies notified cause a =
    let con = record a { cot = 7; negative = true } in
    let callback = if notified then unexpected cause ∷ [] else [] in
    if require_confirmation a.cot
    then sent con ∷ sent (record con { cot = reported_as cause }) ∷ callback
    else sent (record a { cot = reported_as cause }) ∷ callback

abbrev pub is_refusal : UnexpectedMessageCause → Bool
is_refusal unknown_ca = true
is_refusal unknown_ioa = true
is_refusal invalid_type_id = true
is_refusal mismatched_type_id = true
is_refusal _ = false

refusal-is_refusal :
    (m : IncomingMessage) (server : Server)
    → refusal m server ≢ no_error_cause
    → is_refusal (refusal m server) ≡ true
refusal-is_refusal m server h = ground arith

pub valid_message :
    (notified : Bool) (stations : List Station) (a : Asdu) (m : IncomingMessage)
    → extract_meta_data a ≡ ok m
    → server_has_station a.ca stations ≡ true
    → get_valid_message notified stations a ≡ (a, [], some m)
unfolding get_valid_message
valid_message notified stations a m h k = ground (arith, extract-fields a m h)

reply_refused :
    (env : Environment) (a : Asdu) (m : IncomingMessage) (x : Executed)
    → a.ca ≢ 65535
    → m.cot ≡ a.cot
    → x.response ≡ failure
    → x.related ≡ none
    → is_refusal x.cause ≡ true
    → reply_command env m a x ≡ (x.server, refusal_replies env.notified x.cause a)
unfolding reply_command reply_related send_activation_confirmation send_addressed
    on_unexpected_message is_global_common_address
reply_refused env a m x g c r n k = ground arith

-- A message to the general handler that is no clock synchronisation is refused, in this order,
-- below the command types, without a station, without a point at its address, and for a point of
-- another type. Then nothing in the server changes, and the peer gets the negative confirmation if
-- the cause asks for one, one error with the number of the reason, and no data. The format is
-- accepted, and the address known and not global.
pub command_refused :
    (env : Environment) (a : Asdu) (m : IncomingMessage) (server : Server)
    → extract_meta_data a ≡ ok m
    → server_has_station a.ca server.stations ≡ true
    → a.ca ≢ 65535
    → refusal m server ≢ no_error_cause
    → asdu_handler env a server ≡ (server, refusal_replies env.notified (refusal m server) a)
unfolding asdu_handler
command_refused env a m server h k g r =
    let x = execute env m server in
    let why = execute-refusal env m server in
    ground (
      arith,
      why,
      valid_message env.notified server.stations a m h k,
      extract-fields a m h,
      execute-refused env m server,
      refusal-is_refusal m server,
      reply_refused env a m x g,
    )
