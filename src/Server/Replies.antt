-- ===== src/Server/Replies.antt =====
-- The replies of src/Server.cpp to one peer. An ASDU of the library is changed in place and sent
-- again, so that each operation returns the ASDU as it leaves it and what it sent, in order.
use iec104_python.Base.{
  ℕ, Bool, true, if◌then◌else◌, List, [], ◌∷◌, ◌++◌, Option, none, some, ok, err,
}
use iec104_python.Protocol.{
  Cot, cot_activation_con, cot_activation_termination, cot_unknown_type_id, cot_unknown_cot,
  cot_unknown_ca, cot_unknown_ioa,
}
use iec104_python.Station.Points.{Station}
use iec104_python.Station.Stations.{is_global_common_address, server_has_station}
use iec104_python.Message.Incoming.{Asdu, IncomingMessage, extract_meta_data, require_confirmation}
use iec104_python.Message.Outgoing.{InformationObject}

pub data UnexpectedMessageCause : Type 0 where
  no_error_cause unknown_type_id unknown_cot unknown_ca unknown_ioa invalid_cot invalid_type_id
        mismatched_type_id unimplemented_group :
      UnexpectedMessageCause

-- What the server does for a peer: send it an ASDU, call `on_unexpected_message`, or send it objects
-- of one station under a cause.
pub data Output : Type 0 where
  sent : Asdu → Output
  unexpected : UnexpectedMessageCause → Output
  objects : Cot → (ca : ℕ) → List InformationObject → Output

unfoldable pub to_each_station : List Station → Asdu → Asdu × List Output
to_each_station [] a = (a, [])
to_each_station (s ∷ ss) a =
    let addressed = record a { ca = s.common_address } in
    let (last, outputs) = to_each_station ss addressed in (last, sent addressed ∷ outputs)

-- An ASDU for the global address goes out once for each station, under that station's address.
unfoldable pub send_addressed : List Station → Asdu → Asdu × List Output
unfolding to_each_station is_global_common_address
send_addressed stations a =
    if is_global_common_address a.ca then to_each_station stations a else (a, sent a ∷ [])

unfoldable pub send_activation_confirmation :
    List Station → (negative : Bool) → Asdu → Asdu × List Output
unfolding send_addressed
send_activation_confirmation stations negative a =
    send_addressed stations (record a { cot = cot_activation_con; negative = negative })

unfoldable pub send_activation_termination : List Station → Asdu → Asdu × List Output
unfolding send_addressed
send_activation_termination stations a =
    send_addressed stations (record a { cot = cot_activation_termination })

-- The cause of transmission that reports an error, where one is sent.
abbrev pub error_cot : UnexpectedMessageCause → Option Cot
error_cot invalid_type_id = some cot_unknown_type_id
error_cot mismatched_type_id = some cot_unknown_type_id
error_cot unknown_type_id = some cot_unknown_type_id
error_cot invalid_cot = some cot_unknown_cot
error_cot unknown_cot = some cot_unknown_cot
error_cot unknown_ca = some cot_unknown_ca
error_cot unknown_ioa = some cot_unknown_ioa
error_cot unimplemented_group = none
error_cot no_error_cause = none

-- `notified` says whether `py_onUnexpectedMessage` is set.
unfoldable pub on_unexpected_message :
    (notified : Bool) → UnexpectedMessageCause → Asdu → Asdu × List Output
on_unexpected_message notified cause a =
    let callback = if notified then unexpected cause ∷ [] else [] in
    elim (error_cot cause) [
      | some cot ↦ (record a { cot = cot }, sent (record a { cot = cot }) ∷ callback)
      | none ↦ (a, callback)
    ]

-- The message, if its format is accepted and its address known, beside the ASDU and the replies.
unfoldable pub get_valid_message :
    (notified : Bool) → List Station → Asdu → Asdu × List Output × Option IncomingMessage
unfolding server_has_station send_activation_confirmation on_unexpected_message
get_valid_message notified stations a = elim (extract_meta_data a) [
  | err e ↦ (a, [], none)
  | ok message ↦
      let (a', confirmed) =
        if require_confirmation message.cot
        then send_activation_confirmation stations true a
        else (a, []) in
      let (a'', reported) = on_unexpected_message notified unknown_ca a' in
      if server_has_station message.ca stations
      then (a, [], some message)
      else (a'', confirmed ++ reported, none)
]
