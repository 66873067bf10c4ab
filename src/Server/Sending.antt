-- ===== src/Server/Sending.antt =====
-- What a server sends by itself: `transmitEx` of src/object/DataPoint.cpp for a point of a server,
-- `send` of src/remote/message/OutgoingMessage.cpp, and `send` of src/Server.cpp.
use iec104_python.Base.{
  ℕ, Bool, true, false, ◌==◌, ◌||◌, ◌&&◌, if◌then◌else◌, List, [], ◌∷◌, Option, none, some, Result,
  ok, err,
}
use iec104_python.Protocol.{
  Cot, cot_periodic, cot_spontaneous, cot_activation_con, cot_deactivation_con,
  cot_activation_termination,
}
use iec104_python.Point.Data.{DataPoint}
use iec104_python.Message.Outgoing.{InformationObject, OutgoingError, point_message, point_command}
use iec104_python.Server.Registry.{has_active_connections}
use iec104_python.Server.Handlers.{Server}

-- The library's queue for all peers, or its call that sends to one peer at once.
pub data Channel : Type 0 where
  all_peers : Channel
  one_peer : ℕ → Channel

pub record Packet : Type 0 where
  pub channel : Channel
  pub cot : Cot
  pub ca : ℕ
  pub oa : ℕ
  pub object : InformationObject

abbrev pub channel_of : Cot → Option ℕ → Channel
channel_of cot none = all_peers
channel_of cot (some k) =
    if cot == cot_periodic || cot == cot_spontaneous then all_peers else one_peer k

-- A peer's originator address is that of the library's parameters for it.
abbrev pub originator_of : (ℕ → ℕ) → Option ℕ → ℕ
originator_of originator none = 0
originator_of originator (some k) = originator k

-- The packet, and the result.
unfoldable pub send :
    (originator : ℕ → ℕ)
    → Cot
    → (ca : ℕ) → InformationObject
    → (peer : Option ℕ) → Server
    → List Packet × Bool
send originator cot ca io peer server =
    let packet : Packet = record {
      channel = channel_of cot peer;
      cot = cot;
      ca = ca;
      oa = originator_of originator peer;
      object = io;
    } in
    if server.enabled && has_active_connections server.registry
    then (packet ∷ [], true)
    else ([], false)

abbrev pub confirms : Cot → Bool
confirms cot =
    cot == cot_activation_con || cot == cot_deactivation_con || cot == cot_activation_termination

-- The object that a point is sent as, by the cause.
unfoldable pub object_for : Cot → DataPoint → Result OutgoingError InformationObject
object_for cot p = if confirms cot then point_command p else point_message p

abbrev pub sent_object :
    (originator : ℕ → ℕ)
    → Cot
    → (ca : ℕ) → (peer : Option ℕ) → Server
    → Result OutgoingError InformationObject
    → List Packet × Result OutgoingError Bool
sent_object originator cot ca peer server (err e) = ([], err e)
sent_object originator cot ca peer server (ok io) =
    let (packets, success) = send originator cot ca io peer server in (packets, ok success)

-- A confirmation or a termination goes to all peers, also where a peer is given.
abbrev pub receiver : Cot → Option ℕ → Option ℕ
receiver cot peer = if confirms cot then none else peer

-- The point is marked as sent first, also where its message cannot be made.
unfoldable pub transmit_ex :
    (originator : ℕ → ℕ)
    → (now : ℕ) → Cot
    → (ca : ℕ) → (peer : Option ℕ) → Server
    → DataPoint
    → DataPoint × List Packet × Result OutgoingError Bool
unfolding object_for send
transmit_ex originator now cot ca peer server p =
    let p' = record p { sent_at = now } in
    let (packets, result) =
      sent_object originator cot ca (receiver cot peer) server (object_for cot p') in
    (p', packets, result)
