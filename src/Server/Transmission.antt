-- ===== src/Server/Transmission.antt =====
-- What a server sends of a point by itself, with `transmitEx` of src/object/DataPoint.cpp.
use iec104_python.Base.{
  ℕ, ◌<◌, ◌≡◌, ◌⊎◌, refl, Bool, false, ◌&&◌, elem, if◌then◌else◌, [], ◌∷◌, Option, Result, ok, err,
  arith, All, length, subst, Bool-cases, inl, inr, none, some,
}
use iec104_python.Protocol.{Cot}
use iec104_python.Point.Data.{DataPoint}
use iec104_python.Point.Valid.{is_ok}
use iec104_python.Message.Outgoing.{InformationObject, OutgoingError}
use iec104_python.Message.Objects.{sendable_types, command_types, point_message_objects}
use iec104_python.Server.Registry.{has_active_connections}
use iec104_python.Server.Handlers.{Server}
use iec104_python.Server.Sending.{
  Channel, all_peers, one_peer, Packet, channel_of, originator_of, confirms, receiver, object_for,
  sent_object, send, transmit_ex,
}

abbrev pub running : Server → Bool
running server = server.enabled && has_active_connections server.registry

abbrev pub makeable : Cot → ℕ → Bool
makeable cot type = if confirms cot then elem type command_types else elem type sendable_types

object_for-ok :
    (cot : Cot) (p : DataPoint) → p.type < 256 → is_ok (object_for cot p) ≡ makeable cot p.type
unfolding object_for
object_for-ok cot p lt =
    let facts = point_message_objects p lt in
    elim (Bool-cases (confirms cot)) [
      | inl yes_confirms ↦ rw yes_confirms facts.1
      | inr other ↦ rw other facts.0
    ]

sent_object-outcome :
    (originator : ℕ → ℕ) (cot : Cot) (ca : ℕ) (to : Option ℕ) (server : Server)
    (r : Result OutgoingError InformationObject)
    → let (packets, result) = sent_object originator cot ca to server r in
      (is_ok result ≡ is_ok r)
      × (length packets ≡ (if is_ok r && running server then 1 else 0))
      × ((is_ok r ≡ false) ⊎ (result ≡ ok (running server)))
unfolding send
sent_object-outcome originator cot ca to server (ok io) = ground arith
sent_object-outcome originator cot ca to server (err e) = (refl, refl, inl refl)

abbrev pub channel_to : Option ℕ → Channel
channel_to none = all_peers
channel_to (some k) = one_peer k

-- Where a packet of a cause goes, and the originator that it names.
abbrev pub IsAddressed : (originator : ℕ → ℕ) → Cot → (ca : ℕ) → (to : Option ℕ) → Packet → Type 0
IsAddressed originator cot ca to packet =
    (packet.cot ≡ cot)
    × (packet.ca ≡ ca)
    × (packet.channel ≡ (if elem cot (1 ∷ 3 ∷ 7 ∷ 9 ∷ 10 ∷ []) then all_peers else channel_to to))
    × (packet.oa ≡ (if elem cot (7 ∷ 9 ∷ 10 ∷ []) then 0 else originator_of originator to))

receiver-IsAddressed :
    (originator : ℕ → ℕ) (cot : Cot) (ca : ℕ) (to : Option ℕ) (io : InformationObject)
    → IsAddressed originator cot ca to (record {
      channel = channel_of cot (receiver cot to);
      cot = cot;
      ca = ca;
      oa = originator_of originator (receiver cot to);
      object = io;
    })
receiver-IsAddressed originator cot ca none io = (refl, refl, ground arith, ground arith)
receiver-IsAddressed originator cot ca (some k) io = (refl, refl, ground arith, ground arith)

sent_object-IsAddressed :
    (originator : ℕ → ℕ) (cot : Cot) (ca : ℕ) (to : Option ℕ) (server : Server)
    (r : Result OutgoingError InformationObject)
    → All
        (IsAddressed originator cot ca to)
        (sent_object originator cot ca (receiver cot to) server r).0
unfolding send
sent_object-IsAddressed originator cot ca to server (err e) = tt
sent_object-IsAddressed originator cot ca to server (ok io) =
    let addressed = receiver-IsAddressed originator cot ca to io in
    elim (Bool-cases (server.enabled && has_active_connections server.registry)) [
      | inl on ↦ rw on (addressed, tt)
      | inr off ↦ rw off tt
    ]

-- Transmitting a point of a server marks it as sent, fails exactly if no object can be made of the
-- point, a command for the three causes that confirm or terminate one and a monitoring object for
-- any other, and otherwise sends one packet if the server is enabled and has an active peer, and
-- none if not, and the result says which of the two. The packet has the cause and the common address;
-- it goes to the given peer, with its originator address, but to all peers for the causes 7, 9 and 10,
-- with no originator, and for the causes 1 and 3.
pub transmit_ex-outcome :
    (originator : ℕ → ℕ) (now : ℕ) (cot : Cot) (ca : ℕ) (to : Option ℕ) (server : Server)
    (p : DataPoint)
    → p.type < 256
    → let (p', packets, result) = transmit_ex originator now cot ca to server p in
      (p' ≡ record p { sent_at = now })
      × (is_ok result ≡ makeable cot p.type)
      × (length packets ≡ (if makeable cot p.type && running server then 1 else 0))
      × ((makeable cot p.type ≡ false) ⊎ (result ≡ ok (running server)))
      × All (IsAddressed originator cot ca to) packets
unfolding transmit_ex
transmit_ex-outcome originator now cot ca to server p lt =
    let p' : DataPoint = record p { sent_at = now } in
    let made = object_for-ok cot p' lt in
    let (a, b, c) =
      subst
        (λ b.
          let (packets, result) =
            sent_object originator cot ca (receiver cot to) server (object_for cot p') in
          (is_ok result ≡ b)
          × (length packets ≡ (if b && running server then 1 else 0))
          × ((b ≡ false) ⊎ (result ≡ ok (running server))))
        made (sent_object-outcome originator cot ca (receiver cot to) server (object_for cot p')) in
    (refl, a, b, c, sent_object-IsAddressed originator cot ca to server (object_for cot p'))
