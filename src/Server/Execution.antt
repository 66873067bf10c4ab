-- ===== src/Server/Execution.antt =====
-- What a command that is carried out does to the points of the server of src/Server.cpp.
use iec104_python.Base.{
  ℕ, ◌≤◌, ◌≡◌, ◌≢◌, ◌↔◌, elem, refl, Bool, true, false, ◌==◌, ◌&&◌, if◌then◌else◌, List, [], ◌∷◌,
  Option, none, some, ok, arith, subst, sym, ap, ◌∙◌,
}
use iec104_python.Value.{double_eq}
use iec104_python.Point.Data.{DataPoint}
use iec104_python.Point.Update.{
  ResponseState, failure, success, no_response, callback_answer, kind_of, on_receive,
}
use iec104_python.Station.Points.{Station, find_point, get_point}
use iec104_python.Station.Stations.{find_station, server_has_station, is_global_common_address}
use iec104_python.Message.Incoming.{Asdu, IncomingMessage, extract_meta_data, require_confirmation}
use iec104_python.Message.Objects.{command_types}
use iec104_python.Message.Elements.{Element, extract_object}
use iec104_python.Message.Decoded.{received_of, CommandDomain, command-value, command-quality}
use iec104_python.Server.Replies.{
  no_error_cause, Output, sent, send_addressed, send_activation_confirmation,
}
use iec104_python.Server.Handlers.{Server, Environment}
use iec104_python.Server.Commands.{
  change_point, change_station, store_point, Executed, execute, find_target, receive_command,
  reply_related, reply_command, asdu_handler,
}
use iec104_python.Server.Answers.{extract-fields, valid_message}

-- The point that a server has at two addresses.
abbrev pub point_in : (ioa : ℕ) → Option Station → Option DataPoint
point_in ioa none = none
point_in ioa (some s) = get_point ioa s

abbrev pub point_at : (ca ioa : ℕ) → Server → Option DataPoint
point_at ca ioa server = point_in ioa (find_station ca server.stations)

pub find_point-change_point :
    (j a : ℕ) (q p : DataPoint) (ps : List DataPoint)
    → find_point a ps ≡ some p
    → q.address ≡ a
    → find_point j (change_point a (λ _. q) ps) ≡ (if a == j then some q else find_point j ps)
unfolding find_point change_point
find_point-change_point j a q p [] h e = ground arith
find_point-change_point j a q p (r ∷ ps) h e = ground (arith, find_point-change_point j a q p ps)

pub find_station-change_station :
    (j ca : ℕ) (s : Station) (f : Station → Station) (ss : List Station)
    → find_station ca ss ≡ some s
    → ((r : Station) → (f r).common_address ≡ r.common_address)
    → find_station j (change_station ca f ss) ≡ (if ca == j then some (f s) else find_station j ss)
unfolding find_station change_station
find_station-change_station j ca s f [] h e = ground arith
find_station-change_station j ca s f (r ∷ ss) h e =
    ground (arith, e r, find_station-change_station j ca s f ss)

pub find_point-address :
    (a : ℕ) (p : DataPoint) (ps : List DataPoint) → find_point a ps ≡ some p → p.address ≡ a
unfolding find_point
find_point-address a p [] h = cc
find_point-address a p (r ∷ ps) h = ground (arith, find_point-address a p ps)

pub find_station-address :
    (a : ℕ) (s : Station) (ss : List Station) → find_station a ss ≡ some s → s.common_address ≡ a
unfolding find_station
find_station-address a s [] h = cc
find_station-address a s (r ∷ ss) h = ground (arith, find_station-address a s ss)

-- A point of the server, in its station.
abbrev pub IsPointOf : (ca ioa : ℕ) → Station → DataPoint → Server → Type 0
IsPointOf ca ioa s p server =
    (find_station ca server.stations ≡ some s) × (get_point ioa s ≡ some p)

pub get_point-inversion :
    (a : ℕ) (s : Station) (p : DataPoint)
    → get_point a s ≡ some p
    → (a ≢ 0) × (find_point a s.points ≡ some p)
unfolding get_point
get_point-inversion a s p h = ground arith

pub get_point-change_point :
    (j a : ℕ) (q p : DataPoint) (s : Station)
    → get_point a s ≡ some p
    → q.address ≡ a
    → get_point j (record s { points = change_point a (λ _. q) s.points })
      ≡ (if a == j then some q else get_point j s)
unfolding get_point
get_point-change_point j a q p s h e =
    ground (arith, get_point-inversion a s p h, find_point-change_point j a q p s.points)

abbrev stored : DataPoint → Station → Station
stored q s = record s { points = change_point q.address (λ _. q) s.points }

point_in-stored :
    (same : Bool) (i : ℕ) (s : Station) (p q : DataPoint) (other : Option Station)
    → get_point q.address s ≡ some p
    → (same ≡ true → other ≡ some s)
    → point_in i (if same then some (stored q s) else other)
      ≡ (if same && (q.address == i) then some q else point_in i other)
point_in-stored true i s p q other h k =
    rw (k refl) (get_point-change_point i q.address q p s h refl)
point_in-stored false i s p q other h k = refl

point_at-store_point :
    (ca j i : ℕ) (s : Station) (p q : DataPoint) (server : Server)
    → IsPointOf ca q.address s p server
    → point_at j i (store_point ca q server)
      ≡ (if (ca == j) && (q.address == i) then some q else point_at j i server)
unfolding store_point
point_at-store_point ca j i s p q server (h, k) =
    rw (find_station-change_station j ca s (stored q) server.stations h (λ r. refl))
      (point_in-stored (ca == j) i s p q (find_station j server.stations) k (λ same. ground arith))

execute-received :
    (env : Environment) (m : IncomingMessage) (s : Station) (p : DataPoint) (server : Server)
    → IsPointOf m.ca m.ioa s p server
    → p.type ≡ m.type
    → 45 ≤ m.type
    → m.type ≢ 103
    → execute env m server ≡ receive_command env m.ca s p server
unfolding execute find_target
execute-received env m s p server h t c k = ground arith

-- The confirmation of a command that a point has received.
abbrev pub confirmation : ResponseState → Asdu → List Output
confirmation no_response a = []
confirmation failure a = sent (record a { cot = 7; negative = true }) ∷ []
confirmation success a = sent (record a { cot = 7; negative = false }) ∷ []

reply_received :
    (env : Environment) (a : Asdu) (m : IncomingMessage) (x : Executed)
    → a.ca ≢ 65535
    → m.cot ≡ a.cot
    → x.related ≡ none
    → x.cause ≡ no_error_cause
    → reply_command env m a x
      ≡ (x.server, (if require_confirmation a.cot then confirmation x.response a else []))
unfolding reply_command reply_related send_activation_confirmation send_addressed
    is_global_common_address
reply_received env a m x g c n k = ground arith

asdu_handler-valid :
    (env : Environment) (a : Asdu) (m : IncomingMessage) (server : Server)
    → extract_meta_data a ≡ ok m
    → server_has_station a.ca server.stations ≡ true
    → asdu_handler env a server ≡ reply_command env m a (execute env m server)
unfolding asdu_handler
asdu_handler-valid env a m server h known =
    ground (arith, valid_message env.notified server.stations a m h known)

-- A command for a point of its type, which does not return a related point by itself, is received
-- by that point, which takes what is read of the message, and no other point changes. The one reply is
-- the confirmation, if the cause asks for one and the callback did not answer that there shall be none.
pub command_received :
    (env : Environment) (a : Asdu) (m : IncomingMessage) (s : Station) (p : DataPoint) (j i : ℕ)
    (server : Server)
    → extract_meta_data a ≡ ok m
    → a.ca ≢ 65535
    → IsPointOf m.ca m.ioa s p server
    → p.type ≡ m.type
    → 45 ≤ m.type
    → m.type ≢ 103
    → p.related_auto_return ≡ false
    → let (server', outputs) = asdu_handler env a server in
      let received = (on_receive env.now (env.receive p) env.received p).0 in
      (point_at j i server'
        ≡ (if (m.ca == j) && (m.ioa == i) then some received else point_at j i server))
      × (outputs ≡ (
          if require_confirmation a.cot
          then confirmation (callback_answer (env.receive p)) a
          else []))
unfolding receive_command on_receive server_has_station
command_received env a m s p j i server h g k t c d r =
    let q = (on_receive env.now (env.receive p) env.received p).0 in
    let x = receive_command env m.ca s p server in
    let (ca, cot, type) = extract-fields a m h in
    let (n, found) = get_point-inversion m.ioa s p k.1 in
    let e = find_point-address m.ioa p s.points found in
    let known : server_has_station a.ca server.stations ≡ true = ground arith in
    let handled : asdu_handler env a server ≡ reply_command env m a x =
      asdu_handler-valid env a m server h known
      ∙ ap (reply_command env m a) (execute-received env m s p server k t c d) in
    let replied = reply_received env a m x g cot (ground arith) refl in
    let looked : point_at j i (store_point m.ca q server)
        ≡ (if (m.ca == j) && (m.ioa == i) then some q else point_at j i server) =
      subst
        (λ n.
          point_at j i (store_point m.ca q server)
          ≡ (if (m.ca == j) && (n == i) then some q else point_at j i server))
        e
        (point_at-store_point m.ca j i s p q server
          (k.0, subst (λ n. get_point n s ≡ some p) (sym e) k.1)) in
    rw (handled, replied) (looked, refl)

command-Executable : (t : ℕ) → elem t command_types ≡ true → (45 ≤ t) × (t ≢ 103)
command-Executable t h = ground arith

-- A command of one of the command types for a point of its type, which does not return a related point
-- by itself, is received by that point, and no other point changes, where the callback is not set,
-- raises an exception or returns a response state. The point then has the value of the message's object
-- and was received now; its quality is good exactly if that value is in the command's domain. The one
-- reply is the confirmation, if the cause asks for one and the callback did not answer that there shall
-- be none; it is negative if the callback answered with a failure. `e` is the object in the message,
-- and the environment holds what `extractInformationObject` reads of it.
pub command_executed :
    (env : Environment) (a : Asdu) (m : IncomingMessage) (s : Station) (p : DataPoint) (j i : ℕ)
    (server : Server) (previous : ℕ) (e : Element)
    → extract_meta_data a ≡ ok m
    → a.ca ≢ 65535
    → IsPointOf m.ca m.ioa s p server
    → p.type ≡ m.type
    → elem m.type command_types ≡ true
    → e.address ≡ m.ioa
    → env.received ≡ received_of (extract_object m.type true previous (some e))
    → p.related_auto_return ≡ false
    → let (server', outputs) = asdu_handler env a server in
      let object = received_of (extract_object m.type true previous (some e)) in
      let received = (on_receive env.now (env.receive p) object p).0 in
      (point_at j i server'
        ≡ (if (m.ca == j) && (m.ioa == i) then some received else point_at j i server))
      × (received.value ≡ (if double_eq p.value e.value then p.value else e.value))
      × ((received.quality ≡ 0) ↔ CommandDomain (kind_of m.type) e.value)
      × (received.received_at ≡ env.now)
      × (outputs ≡ (
          if require_confirmation a.cot
          then confirmation (callback_answer (env.receive p)) a
          else []))
unfolding on_receive
command_executed env a m s p j i server previous e h g k t c l read r =
    let (above, other) = command-Executable m.type c in
    let (moved, replied) = command_received env a m s p j i server h g k t above other r in
    let addressed : e.address ≢ 0 =
      subst (λ n. n ≢ 0) (sym l) (get_point-inversion m.ioa s p k.1).0 in
    let object = received_of (extract_object m.type true previous (some e)) in
    (
      subst
          (λ x. point_at j i (asdu_handler env a server).0 ≡ (
            if (m.ca == j) && (m.ioa == i)
            then some (on_receive env.now (env.receive p) x p).0
            else point_at j i server))
          read moved,
      command-value m.type env.now previous (env.receive p) e p c addressed,
      command-quality m.type env.now previous (env.receive p) e p c t addressed,
      refl,
      replied,
    )
