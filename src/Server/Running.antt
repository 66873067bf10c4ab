-- ===== src/Server/Running.antt =====
-- What holds of a server through its life.
use iec104_python.Base.{
  ℕ, ◌+◌, ◌^◌, ◌<◌, ◌≡◌, ◌⊎◌, refl, Bool, true, false, List, [], ◌∷◌, arith, All, subst, sym,
}
use iec104_python.Point.Data.{DataPoint}
use iec104_python.Station.Points.{Station}
use iec104_python.Station.Stations.{is_global_common_address}
use iec104_python.Server.Registry.{
  Registry, PeerEvent, has_active_connections, read_open_connections, clear,
}
use iec104_python.Server.Peers.{Inv, connection_event-Inv}
use iec104_python.Server.Report.{is_due}
use iec104_python.Server.Groups.{periodic_none_due}
use iec104_python.Server.Handlers.{
  Server, Environment, report_stations, send_interrogation_response,
}
use iec104_python.Server.LifeCycle.{Process, start, stop, tick, run_round, peer_event}

-- What happens to a server: calls of `start` and `stop`, rounds of its thread, events of the library.
pub data Life : Type 0 where
  starts : (is_running : Bool) → Life
  stops : Life
  round : Environment → (open_count : ℕ) → Life
  peer : PeerEvent → ℕ → Life

unfoldable pub live_once : Life → Process → Process
live_once (starts b) p = (start b p).0
live_once stops p = stop p
live_once (round env n) p = (run_round env n p).0
live_once (peer e k) p = peer_event e k p

unfoldable pub live : List Life → Process → Process
live [] p = p
live (l ∷ ls) p = live ls (live_once l p)

-- The peers are well formed, and there is a thread exactly while the server is enabled.
pub record IsSound (p : Process) : Type 0 where
  pub peers : Inv p.server.registry
  pub threaded : p.has_thread ≡ p.server.enabled

clear-Inv : (r : Registry) → Inv (clear r)
unfolding clear
clear-Inv r = record { distinct = tt; counted = refl }

read_open_connections-Inv : (n : ℕ) (r : Registry) → Inv r → Inv (read_open_connections n r)
unfolding read_open_connections
read_open_connections-Inv n r v = ground arith

tick-kept :
    (env : Environment) (n : ℕ) (s : Server)
    → Inv s.registry
    → Inv (tick env n s).0.registry × ((tick env n s).0.enabled ≡ s.enabled)
unfolding tick send_interrogation_response
tick-kept env n s v = ground (arith, read_open_connections-Inv n s.registry v)

live_once-IsSound : (l : Life) (p : Process) → IsSound p → IsSound (live_once l p)
unfolding live_once start stop run_round peer_event
live_once-IsSound (starts b) p s = ground arith
live_once-IsSound stops p s = ground (arith, clear-Inv p.server.registry)
live_once-IsSound (round env n) p s = ground (arith, tick-kept env n p.server s.peers)
live_once-IsSound (peer e k) p s = record {
  peers = connection_event-Inv e k p.server.registry s.peers;
  threaded = s.threaded;
}

-- Through any calls of `start`, that succeed or not, and of `stop`, any rounds of the thread and any
-- events of the library, each peer keeps one entry in the map, the 8-bit counter is the number of the
-- active ones modulo 256, and there is a thread exactly while the server is enabled.
pub live-IsSound : (ls : List Life) (p : Process) → IsSound p → IsSound (live ls p)
unfolding live
live-IsSound [] p s = s
live-IsSound (l ∷ ls) p s = live-IsSound ls (live_once l p) (live_once-IsSound l p s)

abbrev NoneDue : (now : ℕ) → List DataPoint → Type 0
NoneDue now = All (λ p. (41 < p.type) ⊎ (is_due now p ≡ false))

report-NoneDue :
    (env : Environment) (ss : List Station)
    → ((p : DataPoint)
        → ((env.poll p).type ≡ p.type) × ((env.poll p).report_interval ≡ p.report_interval))
    → All (λ s. All (λ p. env.now + p.report_interval < 2 ^ 64) s.points) ss
    → All (λ s. NoneDue env.now s.points) (report_stations env 1 65535 ss).0
unfolding report_stations is_global_common_address
report-NoneDue env [] keeps in_time = tt
report-NoneDue env (s ∷ ss) keeps (early, in_time) =
    (periodic_none_due env.poll env.now s.points keeps early, report-NoneDue env ss keeps in_time)

active-read_open_connections :
    (n : ℕ) (r : Registry)
    → has_active_connections (read_open_connections n r) ≡ has_active_connections r
unfolding read_open_connections has_active_connections
active-read_open_connections n r = ground arith

tick-reports :
    (env : Environment) (n : ℕ) (server : Server)
    → server.enabled ≡ true
    → has_active_connections server.registry ≡ true
    → (tick env n server).0.stations ≡ (report_stations env 1 65535 server.stations).0
unfolding tick send_interrogation_response
tick-reports env n server on active = ground (arith, active-read_open_connections n server.registry)

-- After a round of an enabled server that has active peers, no monitoring point of any station is due
-- for a periodic report. The callback before a report changes neither the type nor the report
-- interval of a point, and the times of the next reports are below 2 ^ 64.
pub tick-none_due :
    (env : Environment) (n : ℕ) (server : Server)
    → ((p : DataPoint)
        → ((env.poll p).type ≡ p.type) × ((env.poll p).report_interval ≡ p.report_interval))
    → All (λ s. All (λ p. env.now + p.report_interval < 2 ^ 64) s.points) server.stations
    → server.enabled ≡ true
    → has_active_connections server.registry ≡ true
    → All
        (λ s. All (λ p. (41 < p.type) ⊎ (is_due env.now p ≡ false)) s.points)
        (tick env n server).0.stations
tick-none_due env n server keeps in_time on active =
    subst (All (λ s. NoneDue env.now s.points)) (sym (tick-reports env n server on active))
      (report-NoneDue env server.stations keeps in_time)
