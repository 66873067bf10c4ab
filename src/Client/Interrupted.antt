-- ===== src/Client/Interrupted.antt =====
-- What the callbacks of a client change in the delivery of a monitoring message.
use iec104_python.Base.{ℕ, ◌≡◌, ◌⊎◌, Bool, true, false, List, [], ◌∷◌, ◌++◌, none}
use iec104_python.Protocol.{TypeId}
use iec104_python.Point.Data.{DataPoint}
use iec104_python.Point.Update.{OnReceive, Received}
use iec104_python.Station.Points.{Station}
use iec104_python.Connection.State.{Connection}
use iec104_python.Client.Reports.{deliver, deliver_all}
use iec104_python.Client.Hooks.{Hooks, deliver_hooked}

-- The callbacks for new stations and points are not set.
abbrev pub plain : (DataPoint → OnReceive) → (DataPoint → Bool) → Hooks
plain callback throws = record {
  station_callback = none;
  point_callback = none;
  receive_callback = callback;
  throws = throws;
}

module _ (now : ℕ) (callback : DataPoint → OnReceive) (throws : DataPoint → Bool) (type : TypeId)
    (ca : ℕ) where
  abbrev hooks : Hooks
  hooks = plain callback throws

  abbrev pub throws_for : ℕ × Received → List Station → Bool
  throws_for o ss = (deliver_hooked now hooks type ca o.0 o.1 ss).1

  -- Each object meets the stations as those before it leave them.
  abbrev pub NoneThrows : List (ℕ × Received) → List Station → Type 0
  NoneThrows [] ss = Unit
  NoneThrows (o ∷ objects) ss =
      (throws_for o ss ≡ false) × NoneThrows objects (deliver now callback type ca o.0 o.1 ss)

  -- The handling ends with the last object if no point throws, or else with the first whose point does.
  abbrev pub IsEnd : (done rest : List (ℕ × Received)) → List Station → Type 0
  IsEnd done rest ss =
      ((rest ≡ []) × NoneThrows done ss)
      ⊎ ((before : List (ℕ × Received)) × (o : ℕ × Received) × (done ≡ before ++ o ∷ [])
          × NoneThrows before ss
          × (throws_for o (deliver_all now callback type ca before ss) ≡ true))

  abbrev IsCut : List (ℕ × Received) → List Station → List Station → Type 0
  IsCut objects ss after =
      (done : List (ℕ × Received)) × (rest : List (ℕ × Received)) × (objects ≡ done ++ rest)
      × (after ≡ deliver_all now callback type ca done ss)
      × IsEnd done rest ss
