-- ===== src/System/Commands.antt =====
-- A command from the client's call to its result.
use iec104_python.Base.{ℕ, true, List, some}
use iec104_python.Protocol.{cot_activation}
use iec104_python.Point.Data.{DataPoint}
use iec104_python.Station.Points.{Station}
use iec104_python.Connection.State.{Connection}
use iec104_python.Client.Transmit.{transmit_point}
use iec104_python.Server.Handlers.{Server}
use iec104_python.System.Link.{End}

-- The client's end after a transmission of its point.
abbrev pub caller : (sent_at : ℕ) → (ca : ℕ) → Connection → DataPoint → List Station → End
caller sent_at ca c q ss =
    let (q', link, result) = transmit_point sent_at cot_activation (some ca) true true c q in
    record { link = link; stations = ss }
