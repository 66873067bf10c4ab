-- ===== src/Server/Commands.antt =====
-- `readHandler` and `asduHandler` of src/Server.cpp.
use iec104_python.Base.{
  ℕ, Bool, true, false, not, ◌==◌, ltb, ◌&&◌, elem, if◌then◌else◌, List, [], ◌∷◌, ◌++◌, Option,
  none, some, ok, err,
}
use iec104_python.Protocol.{
  TypeId, Cot, c_cs_na_1, c_sc_na_1, m_it_na_1, m_it_ta_1, m_it_tb_1, m_ep_ta_1, m_ep_tb_1,
  m_ep_td_1, m_ep_te_1, m_ep_tf_1, cot_request, cot_return_info_remote,
}
use iec104_python.Point.Data.{DataPoint}
use iec104_python.Point.Update.{ResponseState, failure, success, no_response, on_receive}
use iec104_python.Station.Points.{Station, get_point}
use iec104_python.Station.Stations.{find_station}
use iec104_python.Message.Incoming.{Asdu, IncomingMessage, require_confirmation}
use iec104_python.Message.Outgoing.{point_message}
use iec104_python.Server.Registry.{has_active_connections}
use iec104_python.Server.Replies.{
  UnexpectedMessageCause, no_error_cause, unknown_ca, unknown_ioa, invalid_type_id,
  mismatched_type_id, Output, objects, send_activation_confirmation, on_unexpected_message,
  get_valid_message,
}
use iec104_python.Server.Handlers.{Server, Environment}

-- The points of a list, or of a station, with the first of an address changed.
unfoldable pub change_point : ℕ → (DataPoint → DataPoint) → List DataPoint → List DataPoint
change_point address f [] = []
change_point address f (p ∷ ps) =
    let rest = change_point address f ps in if p.address == address then f p ∷ ps else p ∷ rest

unfoldable pub change_station : ℕ → (Station → Station) → List Station → List Station
change_station ca f [] = []
change_station ca f (s ∷ ss) =
    let rest = change_station ca f ss in if s.common_address == ca then f s ∷ ss else s ∷ rest

unfoldable pub store_point : (ca : ℕ) → DataPoint → Server → Server
unfolding change_point change_station
store_point ca p server = record server {
  stations =
      change_station ca (λ s. record s { points = change_point p.address (λ _. p) s.points })
        server.stations;
}

-- `transmitEx` of a server's point to the requesting peer, as a message: nothing is sent where the
-- message cannot be made, or where the server is stopped or has no active connection.
unfoldable pub transmit : Cot → (ca : ℕ) → DataPoint → Server → List Output
transmit cot ca p server = elim (point_message p) [
  | err e ↦ []
  | ok io ↦
      if server.enabled && has_active_connections server.registry
      then objects cot ca (io ∷ []) ∷ []
      else []
]

unfoldable pub is_readable : TypeId → Bool
is_readable t =
    ltb t c_sc_na_1
    && not (
        elem t (
          m_it_na_1 ∷ m_it_ta_1 ∷ m_it_tb_1 ∷ m_ep_ta_1 ∷ m_ep_tb_1 ∷ m_ep_td_1 ∷ m_ep_te_1
          ∷ m_ep_tf_1 ∷ []))

-- The point that a message is for, or why there is none.
unfoldable pub find_target :
    (ca ioa : ℕ) → Server → UnexpectedMessageCause × Option (Station × DataPoint)
find_target ca ioa server = elim (find_station ca server.stations) [
  | none ↦ (unknown_ca, none)
  | some s ↦ elim (get_point ioa s) [
    | none ↦ (unknown_ioa, none)
    | some p ↦ (no_error_cause, some (s, p))
  ]
]

unfoldable pub read_point : Environment → (ca : ℕ) → DataPoint → Server → Server × List Output
unfolding store_point transmit
read_point env ca p server =
    let polled = record (env.poll p) { sent_at = env.now } in
    (store_point ca polled server, transmit cot_request ca polled server)

unfoldable pub read_handler : Environment → Asdu → Server → Server × List Output
unfolding find_target read_point is_readable
read_handler env a server =
    let (a', replies, valid) = get_valid_message env.notified server.stations a in
    elim valid [
      | none ↦ (server, replies)
      | some message ↦
          let (cause, target) = find_target message.ca message.ioa server in
          elim target [
            | none ↦ (server, (on_unexpected_message env.notified cause a').1)
            | some (s, p) ↦
                if is_readable p.type
                then read_point env message.ca p server
                else (server, (on_unexpected_message env.notified invalid_type_id a').1)
          ]
    ]

-- What a command comes to, before the replies.
pub record Executed : Type 0 where
  pub server : Server
  pub response : ResponseState
  pub cause : UnexpectedMessageCause
  pub related : Option DataPoint

abbrev refused : UnexpectedMessageCause → Server → Executed
refused cause server = record { server = server; response = failure; cause = cause; related = none }

abbrev is_success : ResponseState → Bool
is_success success = true
is_success _ = false

unfoldable pub receive_command : Environment → (ca : ℕ) → Station → DataPoint → Server → Executed
unfolding store_point
receive_command env ca s p server =
    let (p', callback, response) = on_receive env.now (env.receive p) env.received p in
    record {
      server = store_point ca p' server;
      response = response;
      cause = no_error_cause;
      related =
          if is_success response && p.related_auto_return
          then get_point p.related_address
              (record s { points = change_point p.address (λ _. p') s.points })
          else none;
    }

unfoldable pub execute : Environment → IncomingMessage → Server → Executed
unfolding find_target receive_command
execute env message server =
    let (cause, target) = find_target message.ca message.ioa server in
    if message.type == c_cs_na_1
    then record {
      server = server;
      response = env.clock_sync;
      cause = no_error_cause;
      related = none;
    }
    else if ltb message.type c_sc_na_1
    then refused invalid_type_id server
    else elim target [
      | none ↦ refused cause server
      | some (s, p) ↦
          if p.type == message.type
          then receive_command env message.ca s p server
          else refused mismatched_type_id server
    ]

abbrev is_failure : ResponseState → Bool
is_failure failure = true
is_failure _ = false

abbrev answers : ResponseState → Bool
answers no_response = false
answers _ = true

abbrev is_error : UnexpectedMessageCause → Bool
is_error no_error_cause = false
is_error _ = true

unfoldable pub reply_related :
    Environment → (ca : ℕ) → Option DataPoint → Server → Server × List Output
unfolding store_point transmit
reply_related env ca none server = (server, [])
reply_related env ca (some p) server =
    let p' = record p { sent_at = env.now } in
    (store_point ca p' server, transmit cot_return_info_remote ca p' server)

-- The confirmation, the error and the related point, in this order.
unfoldable pub reply_command :
    Environment → IncomingMessage → Asdu → Executed → Server × List Output
unfolding reply_related
reply_command env message a x =
    let (a', confirmed) =
      if answers x.response && require_confirmation message.cot
      then send_activation_confirmation x.server.stations (is_failure x.response) a
      else (a, []) in
    let reported =
      if is_error x.cause then (on_unexpected_message env.notified x.cause a').1 else [] in
    let (server', info) = reply_related env message.ca x.related x.server in
    (server', confirmed ++ reported ++ info)

unfoldable pub asdu_handler : Environment → Asdu → Server → Server × List Output
unfolding execute reply_command
asdu_handler env a server =
    let (a', replies, valid) = get_valid_message env.notified server.stations a in
    elim valid [
      | none ↦ (server, replies)
      | some message ↦ reply_command env message a' (execute env message server)
    ]
