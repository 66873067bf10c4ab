-- ===== src/System/Link.antt =====
-- The answers of a server (src/Server.cpp) as they reach `asduHandler` of a running client's connection
-- (src/remote/Connection.cpp), in order and without loss. How the library encodes and decodes the
-- objects of a packet is an argument: `objects_of` gives the ASDU of a packet with what the client
-- then reads of each object.
use iec104_python.Base.{ℕ, true, List, [], ◌∷◌}
use iec104_python.Protocol.{Cot}
use iec104_python.Point.Data.{DataPoint}
use iec104_python.Point.Update.{OnReceive, Received}
use iec104_python.Station.Points.{Station}
use iec104_python.Message.Incoming.{Asdu}
use iec104_python.Message.Outgoing.{InformationObject}
use iec104_python.Connection.State.{Connection}
use iec104_python.Server.Replies.{Output, sent, unexpected, objects}
use iec104_python.Client.Reports.{client_asdu_handler}

-- The other end: the connection and its stations.
pub record End : Type 0 where
  pub link : Connection
  pub stations : List Station

pub record Codec : Type 0 where
  pub packet : Cot → (ca : ℕ) → List InformationObject → Asdu
  pub read : Cot → List InformationObject → List (ℕ × Received)
  pub reread : Asdu → List (ℕ × Received)

module _ (now : ℕ) (callback : DataPoint → OnReceive) (codec : Codec) where
  unfoldable pub take : Asdu → List (ℕ × Received) → End → End
  take a values e =
      let (link, stations) = client_asdu_handler now callback values true a e.link e.stations in
      record { link = link; stations = stations }

  -- The callback of the server reaches no peer.
  unfoldable pub take_output : Output → End → End
  unfolding take
  take_output (sent a) e = take a (codec.reread a) e
  take_output (unexpected cause) e = e
  take_output (objects cot ca ios) e = take (codec.packet cot ca ios) (codec.read cot ios) e

  unfoldable pub take_outputs : List Output → End → End
  unfolding take_output
  take_outputs [] e = e
  take_outputs (o ∷ os) e = take_outputs os (take_output o e)
