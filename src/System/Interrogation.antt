-- ===== src/System/Interrogation.antt =====
-- An interrogation from the server's answer to the client's points.
use iec104_python.Base.{
  ℕ, ◌<◌, ◌≡◌, ◌≢◌, refl, ap, subst, ◌∙◌, Bool, true, false, ◌==◌, ==_iff, if◌then◌else◌, List, [],
  ◌∷◌, ◌++◌, none, some, ok, arith, All, Bool-cases, inl, inr,
}
use mathlib.Core.List.{append-nil}
use iec104_python.Protocol.{Cot}
use iec104_python.Point.Data.{DataPoint}
use iec104_python.Point.Update.{OnReceive, Received}
use iec104_python.Station.Points.{Station, get_point}
use iec104_python.Station.Stations.{find_station, server_has_station, is_global_common_address}
use iec104_python.Station.Lookup.{DistinctPoints, DistinctStations}
use iec104_python.Message.Incoming.{Asdu, IncomingMessage, extract_meta_data}
use iec104_python.Message.Outgoing.{InformationObject, point_message}
use iec104_python.Connection.State.{is_open}
use iec104_python.Server.Registry.{has_active_connections}
use iec104_python.Server.Report.{group_points}
use iec104_python.Server.Groups.{find_object, group_points_lookup, group_points-Increasing}
use iec104_python.Server.Collected.{Keeps, group_points-IsGroup, last_object-only}
use iec104_python.Server.Handlers.{
  Server, Environment, group_outputs, report_stations, send_interrogation_response,
  interrogation_handler,
}
use iec104_python.Server.Answers.{extract-fields}
use iec104_python.Server.Interrogation.{interrogation_answers}
use iec104_python.Server.Replies.{sent}
use iec104_python.Server.Execution.{get_point-inversion}
use iec104_python.Client.Reports.{client_asdu_handler, handle_message, response_of}
use iec104_python.Client.Delivery.{point_after}
use iec104_python.Connection.Link.{set_command_success}
use iec104_python.System.Link.{End, Codec, take, take_output, take_outputs}
use iec104_python.System.Packets.{IsFaithful, IsReady}
use iec104_python.System.Reports.{Holds, holding, take_outputs-append}
use iec104_python.Connection.Staying.{confirmed-open}
use iec104_python.System.Groups.{delivered-one, take_groups}

report_stations-none :
    (env : Environment) (ca : ℕ) (ss : List Station)
    → ca ≢ 65535
    → find_station ca ss ≡ none
    → (report_stations env 20 ca ss).1 ≡ []
unfolding report_stations is_global_common_address find_station
report_stations-none env ca [] g h = refl
report_stations-none env ca (s ∷ ss) g h = ground (arith, report_stations-none env ca ss g)

report_stations-one :
    (env : Environment) (ca : ℕ) (ss : List Station) (s : Station)
    → ca ≢ 65535
    → DistinctStations ss
    → find_station ca ss ≡ some s
    → (report_stations env 20 ca ss).1
      ≡ group_outputs env.fits 20 ca (group_points env.poll 20 env.now s.points [])
unfolding report_stations is_global_common_address find_station
report_stations-one env ca [] s g d h = absurd (cc h)
report_stations-one env ca (r ∷ ss) s g d h = elim (Bool-cases (r.common_address == ca)) [
  | inl here ↦
      let same : r ≡ s = ground (arith, here, h) in
      let at : r.common_address ≡ ca = (==_iff r.common_address ca).0 here in
      let none_left : (report_stations env 20 ca ss).1 ≡ [] =
        report_stations-none env ca ss g (subst (λ n. find_station n ss ≡ none) at d.0) in
      let not_global : is_global_common_address ca ≡ false = ground (arith, g) in
      rw (not_global, here, none_left, append-nil, at, same) refl
  | inr other ↦ ground (arith, other, g, report_stations-one env ca ss s g d.1)
]

-- An ASDU of an interrogation leaves the stations of the client as they are.
module _ (now : ℕ) (callback : DataPoint → OnReceive) (codec : Codec) where
  c_ic_handled :
      (a : Asdu) (m : IncomingMessage) (os : List (ℕ × Received)) (e : End)
      → extract_meta_data a ≡ ok m
      → a.type ≡ 100
      → is_open e.link ≡ true
      → client_asdu_handler now callback os true a e.link e.stations
        ≡ (set_command_success (response_of m) e.link, e.stations)
  unfolding client_asdu_handler handle_message
  c_ic_handled a m os e h t o = ground (arith, h, extract-fields a m h, t, o)

  take-c_ic :
      (ca : ℕ) (a : Asdu) (m : IncomingMessage) (e : End)
      → extract_meta_data a ≡ ok m
      → a.type ≡ 100
      → IsReady ca e
      → Holds ca (holding ca e) (take_output now callback codec (sent a) e)
  unfolding take_output take
  take-c_ic ca a m e h t r = rw (c_ic_handled a m (codec.reread a) e h t r.link_open) (
    record { link_open = confirmed-open (response_of m) e.link r.link_open; remote = r.remote },
    λ i. refl,
  )

-- An interrogation of one station of a server that is enabled and has an active peer.
pub record IsAsked (a : Asdu) (s : Station) (server : Server) : Type 0 where
  pub interrogates : a.type ≡ 100
  pub single_station : a.ca ≢ 65535
  pub known : find_station a.ca server.stations ≡ some s
  pub enabled : server.enabled ≡ true
  pub active : has_active_connections server.registry ≡ true
  pub stations_distinct : DistinctStations server.stations
  pub points_distinct : DistinctPoints s.points
  pub no_plain_totals : All (λ p. p.type ≢ 15) s.points

-- What the library and the callback before a report are assumed to do: each object fits into an empty
-- ASDU, and the callback keeps the type and the address of a point.
pub record IsPlain (env : Environment) : Type 0 where
  pub room : (io : InformationObject) → env.fits [] io ≡ true
  pub keeps : (p : DataPoint) → Keeps env.poll p

server_report :
    (env : Environment) (a : Asdu) (s : Station) (server : Server)
    → IsAsked a s server
    → (send_interrogation_response env 20 a.ca server).1
      ≡ group_outputs env.fits 20 a.ca (group_points env.poll 20 env.now s.points [])
unfolding send_interrogation_response
server_report env a s server q = ground (
  arith,
  q.enabled,
  q.active,
  report_stations-one env a.ca server.stations s q.single_station q.stations_distinct q.known,
)

handler_outputs :
    (env : Environment) (a : Asdu) (m : IncomingMessage) (s : Station) (server : Server)
    → IsAsked a s server
    → extract_meta_data a ≡ ok m
    → (interrogation_handler env 20 a server).1
      ≡ sent (record a { cot = 7; negative = false })
          ∷ group_outputs env.fits 20 a.ca (group_points env.poll 20 env.now s.points [])
        ++ sent (record a { cot = 10; negative = false }) ∷ []
unfolding server_has_station
handler_outputs env a m s server q h =
    let there : server_has_station a.ca server.stations ≡ true = ground (arith, q.known) in
    let answers = (interrogation_answers env 20 a m server h there q.single_station).0 in
    ground (arith, answers, server_report env a s server q)

extract-again :
    (a : Asdu) (m : IncomingMessage) (cot : Cot) (negative : Bool)
    → extract_meta_data a ≡ ok m
    → extract_meta_data (record a { cot = cot; negative = negative })
      ≡ ok (record m { cot = cot; negative = negative })
unfolding extract_meta_data
extract-again a m cot negative h = ground (arith, h)

-- The server's group of a type has the object of the point.
object_found :
    (env : Environment) (s : Station) (p : DataPoint) (io : InformationObject) (i t : ℕ)
    → IsPlain env
    → DistinctPoints s.points
    → get_point i s ≡ some p
    → p.type < 42
    → point_message (env.poll p) ≡ ok io
    → find_object t i (group_points env.poll 20 env.now s.points [])
      ≡ (if p.type == t then some io else none)
object_found env s p io i t plain d h n made =
    group_points_lookup env.poll 20 env.now t i s.points
    ∙ last_object-only env.poll env.now t i s.points p io plain.keeps d
        (get_point-inversion i s p h).1 n made

-- The client's point after an interrogation of a station by its own address, once the connection, which
-- is open, has taken the server's replies: where the server has a monitoring point at an address,
-- of which a message can be made, the client has received that message at the same address, in a point
-- that is made first if there is none. The server is enabled, has an active peer, distinct stations
-- and distinct points, and no point of type M_IT_NA_1; its callback before a report keeps the type
-- and the address of a point. The library hands on the objects unchanged, and each object fits into
-- an empty packet. A station that the client has is one of the connection.
pub interrogation_delivers :
    (now : ℕ) (callback : DataPoint → OnReceive) (codec : Codec)
    (value : InformationObject → Received) (env : Environment) (a : Asdu) (m : IncomingMessage)
    (s : Station) (server : Server) (e : End) (p : DataPoint) (io : InformationObject) (i : ℕ)
    → IsFaithful codec value
    → IsPlain env
    → IsAsked a s server
    → extract_meta_data a ≡ ok m
    → IsReady a.ca e
    → get_point i s ≡ some p
    → p.type < 42
    → point_message (env.poll p) ≡ ok io
    → holding a.ca (take_outputs now callback codec (interrogation_handler env 20 a server).1 e) i
      ≡ point_after now callback p.type false i (value io) (holding a.ca e i)
unfolding take_outputs
interrogation_delivers now callback codec value env a m s server e p io i f plain q h r k n made =
    let groups = group_points env.poll 20 env.now s.points [] in
    let start : Asdu = record a { cot = 7; negative = false } in
    let stop : Asdu = record a { cot = 10; negative = false } in
    let report = group_outputs env.fits 20 a.ca groups in
    let (ready, kept) =
      take-c_ic now callback codec a.ca start (record m { cot = 7; negative = false }) e
        (extract-again a m 7 false h) q.interrogates r in
    let e' = take_output now callback codec (sent start) e in
    let (reported, held) =
      take_groups now callback codec value a.ca env.fits groups e' f q.single_station plain.room
        (group_points-IsGroup env.poll env.now s.points [] plain.keeps q.no_plain_totals tt)
        ready in
    let e'' = take_outputs now callback codec report e' in
    let (ended, still) =
      take-c_ic now callback codec a.ca stop (record m { cot = 10; negative = false }) e''
        (extract-again a m 10 false h) q.interrogates reported in
    let increasing = (group_points-Increasing env.poll 20 env.now 0 s.points).0 in
    ap (λ os. holding a.ca (take_outputs now callback codec os e) i)
      (handler_outputs env a m s server q h)
    ∙ ap (λ x. holding a.ca x i)
        (take_outputs-append now callback codec value a.ca report (sent stop ∷ []) e')
    ∙ still i
    ∙ held i
    ∙ delivered-one now callback codec value a.ca p.type i io groups (holding a.ca e' i) increasing
        (λ t. object_found env s p io i t plain q.points_distinct k n made)
    ∙ ap (point_after now callback p.type false i (value io)) (kept i)
