-- ===== src/Scenarios/Servers.antt =====
-- A server that is started, runs, sends and stops, and the values that its points take from messages.
use iec104_python.Base.{
  ℕ, ◌≡◌, ◌↔◌, ◌⊎◌, ◌<◌, refl, true, false, ◌&&◌, if◌then◌else◌, List, [], ◌∷◌, none, some, ok,
  arith, All, pos, length,
}
use iec104_python.Value.{int}
use iec104_python.Point.Data.{DataPoint}
use iec104_python.Point.Valid.{is_ok}
use iec104_python.Point.Update.{OnReceive, returns, success, kind_of, on_receive}
use iec104_python.Point.Domain.{IsAccepted}
use iec104_python.Message.Elements.{Element, extract_object}
use iec104_python.Message.Decoded.{received_of, CommandDomain, measured-quality, command-quality}
use iec104_python.Server.Registry
use iec104_python.Server.Registry.{Registry, peer_opened, activated, has_active_connections}
use iec104_python.Server.Report.{is_due}
use iec104_python.Server.Handlers.{Server, Environment}
use iec104_python.Server.LifeCycle.{Process, tick}
use iec104_python.Server.Sending.{transmit_ex}
use iec104_python.Server.Running.{
  Life, starts, stops, round, peer, live, IsSound, live-IsSound, tick-none_due,
}
use iec104_python.Server.Transmission.{running, makeable, IsAddressed, transmit_ex-outcome}

abbrev point : ℕ → ℕ → DataPoint
point address type = record {
  address = address;
  type = type;
  is_server = true;
  related_address = 0;
  related_auto_return = false;
  value = int (pos 0);
  quality = 0;
  updated_at = 0;
  reported_at = 0;
  report_interval = 100;
  received_at = 0;
  sent_at = 0;
}

abbrev server : Server
server = record {
  enabled = true;
  registry = record { peers = (3, true) ∷ (4, false) ∷ []; active = 1; open_count = 2 };
  stations =
      record { common_address = 47; local = true; points = point 11 1 ∷ point 20 45 ∷ [] } ∷ [];
}

abbrev environment : Environment
environment = record {
  now = 1000;
  notified = true;
  poll = λ p. p;
  fits = λ ios io. true;
  receive = λ p. returns success;
  received = record { value = int (pos 1); quality = 0; updated_at = 0 };
  clock_sync = success;
}

abbrev process : Process
process = record { server = server; has_thread = true; closed = [] }

process-IsSound : IsSound process
unfolding iec104_python.Server.Registry.find
process-IsSound = record {
  peers = record { distinct = (refl, (refl, tt)); counted = refl };
  threaded = refl;
}

abbrev a_life : List Life
a_life = peer peer_opened 5 ∷ round environment 3 ∷ peer activated 5 ∷ stops ∷ starts true ∷ []

live-IsSound_example : IsSound (live a_life process)
live-IsSound_example = live-IsSound a_life process process-IsSound

tick-none_due_example :
    All
      (λ s. All (λ p. (41 < p.type) ⊎ (is_due 1000 p ≡ false)) s.points)
      (tick environment 2 server).0.stations
unfolding has_active_connections
tick-none_due_example =
    tick-none_due environment 2 server (λ p. (refl, refl)) ((omega arith, (omega arith, tt)), tt)
      refl refl

transmit_ex-outcome_example :
    let (p', packets, result) = transmit_ex (λ k. k) 1000 3 47 none server (point 11 1) in
    (p' ≡ record (point 11 1) { sent_at = 1000 })
    × (is_ok result ≡ makeable 3 1)
    × (length packets ≡ (if makeable 3 1 && running server then 1 else 0))
    × ((makeable 3 1 ≡ false) ⊎ (result ≡ ok (running server)))
    × All (IsAddressed (λ k. k) 3 47 none) packets
transmit_ex-outcome_example =
    transmit_ex-outcome (λ k. k) 1000 3 47 none server (point 11 1) (omega arith)

-- One octet of a counter is set, with a value and a quality of another use.
abbrev element : Element
element = record {
  address = 11;
  value = int (pos 1);
  quality = 0;
  timestamp = 0;
  octet0 = 0;
  octet1 = 1;
  octet2 = 0;
  octet3 = 0;
  octet4 = 0;
}

measured-quality_example :
    let x = extract_object 1 true 0 (some element) in
    let q = (on_receive 5 OnReceive.unset (received_of x) (point 11 1)).0.quality in
    ((q ≡ 0) ↔ ((element.quality ≡ 0) × IsAccepted (kind_of 1) (int (pos 1))))
    × ((q ≡ 0) ⊎ ((q ≡ 128) × (element.quality ≡ 0)))
measured-quality_example =
    measured-quality 1 5 0 OnReceive.unset element (point 11 1) refl (λ e. omega (arith, e))

command-quality_example :
    let x = extract_object 45 true 0 (some element) in
    ((on_receive 5 OnReceive.unset (received_of x) (point 11 45)).0.quality ≡ 0)
    ↔ CommandDomain (kind_of 45) (int (pos 1))
command-quality_example =
    command-quality 45 5 0 OnReceive.unset element (point 11 45) refl refl (λ e. omega (arith, e))
