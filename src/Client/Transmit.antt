-- ===== src/Client/Transmit.antt =====
-- `read` and `transmit` of src/object/DataPoint.cpp for a point of a client, with `send` of
-- src/remote/message/OutgoingMessage.cpp. `station` is the common address of the point's station and
-- `connected` says whether its connection is there, while those still exist.
use iec104_python.Base.{
  ℕ, ◌≡◌, Bool, true, false, Option, none, some, Result, ok, err, ◌∷◌, arith, elem,
}
use iec104_python.Protocol.{Cot}
use iec104_python.Point.Data.{DataPoint}
use iec104_python.Message.Outgoing.{
  InformationObject, OutgoingError, point_command, command_shape, build,
}
use iec104_python.Message.Objects.{command_types}
use iec104_python.Connection.State.{Connection, lib_process_command, is_open}
use iec104_python.Connection.Pending.{find, find-insert}
use iec104_python.Connection.Command.{Sent, awaits, cmd_id, read, command}

pub data CallError : Type 0 where
  no_station no_connection : CallError
  message_error : OutgoingError → CallError

abbrev pub sent_read : Connection × Sent → Connection × Result CallError Sent
sent_read (c, s) = (c, ok s)

unfoldable pub read_remote_point :
    (station : Option ℕ)
    → (connected accepted : Bool) → Connection
    → DataPoint
    → Connection × Result CallError Sent
unfolding read
read_remote_point none connected accepted c p = (c, err no_station)
read_remote_point (some ca) false accepted c p = (c, err no_connection)
read_remote_point (some ca) true accepted c p = sent_read (read (some ca) p.address true accepted c)

abbrev pub sent_command :
    Cot
    → (ca ioa : ℕ) → (accepted : Bool) → Connection
    → Result OutgoingError InformationObject
    → Connection × Result CallError Sent
sent_command cot ca ioa accepted c (err e) = (c, err (message_error e))
sent_command cot ca ioa accepted c (ok io) =
    sent_read (command (cmd_id ca io.type ioa) cot true accepted c)

unfoldable pub transmit_point :
    (now : ℕ)
    → Cot
    → (station : Option ℕ) → (connected accepted : Bool) → Connection
    → DataPoint
    → DataPoint × Connection × Result CallError Sent
unfolding point_command command
transmit_point now cot none connected accepted c p = (p, c, err no_station)
transmit_point now cot (some ca) false accepted c p =
    (record p { sent_at = now }, c, err no_connection)
transmit_point now cot (some ca) true accepted c p =
    let (c', result) = sent_command cot ca p.address accepted c (point_command p) in
    (record p { sent_at = now }, c', result)

-- A point of a command type sends one command on an open connection, and waits for its answer.
pub transmit_point-awaits :
    (now : ℕ) (cot : Cot) (ca : ℕ) (c : Connection) (p : DataPoint)
    → is_open c ≡ true
    → elem p.type command_types ≡ true
    → let id = cmd_id ca p.type p.address in
      let (p', c', result) = transmit_point now cot (some ca) true true c p in
      (result ≡ ok (awaits id))
      × (c'.log ≡ lib_process_command cot id ∷ c.log)
      × (c'.state ≡ c.state)
      × (find id c'.expected ≡ some 3)
unfolding transmit_point command is_open point_command command_shape build
transmit_point-awaits now cot ca c p o h =
    ground
      (arith, find-insert (cmd_id ca p.type p.address) (cmd_id ca p.type p.address) 3 c.expected)
