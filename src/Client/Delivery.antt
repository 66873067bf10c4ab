-- ===== src/Client/Delivery.antt =====
-- What a client's points hold after a monitoring message.
use iec104_python.Base.{
  ℕ, ◌≡◌, ◌≢◌, refl, Bool, false, ◌==◌, ◌&&◌, if◌then◌else◌, List, [], ◌∷◌, Option, none, some,
  ◌++◌, Result, ok, err, arith,
}
use iec104_python.Protocol.{TypeId}
use iec104_python.Point.Data.{DataPoint, PointError, create}
use iec104_python.Point.Update.{OnReceive, Received, on_receive}
use iec104_python.Station.Points.{Station, find_point, get_point, add_point}
use iec104_python.Station.Stations.{
  find_station, client_get_station, client_add_station, is_global_common_address,
}
use iec104_python.Station.Lookup.{
  find_point-append, find_point-append_free, find_station-append, find_station-append_free,
  create-address,
}
use iec104_python.Server.Execution.{
  point_in, find_point-address, get_point-change_point, find_station-change_station,
  get_point-inversion,
}
use iec104_python.Client.Reports.{
  on_new_point, receive_point, deliver_to_station, with_station, deliver, deliver_all,
}

abbrev pub made_point : Result PointError DataPoint → Option DataPoint
made_point (ok p) = some p
made_point (err e) = none

-- The point that an object goes to: the one there is, or else a new one if it can be made.
abbrev pub or_new : Option DataPoint → Option DataPoint → Option DataPoint
or_new (some p) fresh = some p
or_new none fresh = fresh

get_point-on_new_point :
    (i a : ℕ) (type : TypeId) (s : Station)
    → get_point a s ≡ none
    → get_point i (on_new_point a type s)
      ≡ (if a == i then made_point (create a type s.local 0 0 false) else get_point i s)
unfolding on_new_point add_point get_point
get_point-on_new_point i a type s h = on_made (create a type s.local 0 0 false) refl
  where
    on_made :
        (made : Result PointError DataPoint)
        → create a type s.local 0 0 false ≡ made
        → get_point i (on_new_point a type s)
          ≡ (if a == i then made_point (create a type s.local 0 0 false) else get_point i s)
    on_made (ok p) e = ground (
      arith,
      e,
      create-address a type s.local 0 0 false e,
      find_point-append i s.points p,
      find_point-append_free i s.points p,
    )
    on_made (err x) e = ground (arith, e)

on_new_point-kept :
    (a : ℕ) (type : TypeId) (s : Station)
    → ((on_new_point a type s).common_address ≡ s.common_address)
      × ((on_new_point a type s).local ≡ s.local)
unfolding on_new_point add_point
on_new_point-kept a type s = ground arith

module _ (now : ℕ) (callback : DataPoint → OnReceive) where
  abbrev pub taken : Received → Option DataPoint → Option DataPoint
  taken r none = none
  taken r (some p) = some (on_receive now (callback p) r p).0

  get_point-receive_point :
      (i a : ℕ) (r : Received) (o : Option DataPoint) (s : Station)
      → get_point a s ≡ o
      → get_point i (receive_point now callback a r o s)
        ≡ (if a == i then taken r o else get_point i s)
  unfolding receive_point on_receive
  get_point-receive_point i a r none s h = ground arith
  get_point-receive_point i a r (some p) s h =
      let q = (on_receive now (callback p) r p).0 in
      let found = (get_point-inversion a s p h).1 in
      get_point-change_point i a q p s h (find_point-address a p s.points found)

  receive_point-kept :
      (a : ℕ) (r : Received) (o : Option DataPoint) (s : Station)
      → ((receive_point now callback a r o s).common_address ≡ s.common_address)
        × ((receive_point now callback a r o s).local ≡ s.local)
  unfolding receive_point
  receive_point-kept a r none s = (refl, refl)
  receive_point-kept a r (some p) s = (refl, refl)

  -- The point that an object makes of what is at its address.
  abbrev pub point_after : TypeId → Bool → ℕ → Received → Option DataPoint → Option DataPoint
  point_after type local a r o = taken r (or_new o (made_point (create a type local 0 0 false)))

  get_point-deliver_to_station :
      (i a : ℕ) (type : TypeId) (r : Received) (o : Option DataPoint) (s : Station)
      → get_point a s ≡ o
      → get_point i (deliver_to_station now callback type a r s)
        ≡ (if a == i then point_after type s.local a r o else get_point i s)
  unfolding deliver_to_station
  get_point-deliver_to_station i a type r none s h =
      let s' = on_new_point a type s in
      ground (
        arith,
        h,
        get_point-receive_point i a r (get_point a s') s' refl,
        get_point-on_new_point a a type s h,
        get_point-on_new_point i a type s h,
      )
  get_point-deliver_to_station i a type r (some p) s h =
      ground (arith, h, get_point-receive_point i a r (some p) s h)

  deliver_to_station-kept :
      (type : TypeId) (a : ℕ) (r : Received) (s : Station)
      → ((deliver_to_station now callback type a r s).common_address ≡ s.common_address)
        × ((deliver_to_station now callback type a r s).local ≡ s.local)
  unfolding deliver_to_station
  deliver_to_station-kept type a r s =
      let s' = on_new_point a type s in
      ground (
        arith,
        receive_point-kept a r (get_point a s) s,
        receive_point-kept a r (get_point a s') s',
        on_new_point-kept a type s,
      )

abbrev or_station : ℕ → Option Station → Station
or_station ca (some s) = s
or_station ca none = record { common_address = ca; local = false; points = [] }

abbrev pub is_local : Option Station → Bool
is_local none = false
is_local (some s) = s.local

find_station-with_station :
    (j ca : ℕ) (ss : List Station)
    → ca ≢ 65535
    → find_station j (with_station ca ss)
      ≡ (if ca == j then some (or_station ca (find_station ca ss)) else find_station j ss)
unfolding with_station client_get_station client_add_station is_global_common_address
find_station-with_station j ca ss g =
    let made = or_station ca none in
    ground (arith, find_station-append j ss made, find_station-append_free j ss made)

point_in-or_station :
    (i ca : ℕ) (o : Option Station) → point_in i (some (or_station ca o)) ≡ point_in i o
unfolding get_point find_point
point_in-or_station i ca none = ground arith
point_in-or_station i ca (some s) = refl

or_station-local :
    (ca : ℕ) (o : Option Station) → is_local o ≡ false → (or_station ca o).local ≡ false
or_station-local ca none h = refl
or_station-local ca (some s) h = h

module _ (now : ℕ) (callback : DataPoint → OnReceive) (type : TypeId) where
  find_station-deliver :
      (j ca a : ℕ) (r : Received) (ss : List Station)
      → ca ≢ 65535
      → find_station j (deliver now callback type ca a r ss) ≡ (
          if ca == j
          then some (deliver_to_station now callback type a r (or_station ca (find_station ca ss)))
          else find_station j ss)
  unfolding deliver client_get_station is_global_common_address
  find_station-deliver j ca a r ss g =
      let known = with_station ca ss in
      let s = or_station ca (find_station ca ss) in
      let f = deliver_to_station now callback type a r in
      let there : find_station ca known ≡ some s =
        ground (arith, find_station-with_station ca ca ss g) in
      let changed =
        find_station-change_station j ca s f known there
          (λ q. (deliver_to_station-kept now callback type a r q).0) in
      ground (arith, there, changed, find_station-with_station j ca ss g)

  pub point_in-deliver :
      (i j ca a : ℕ) (r : Received) (ss : List Station)
      → ca ≢ 65535
      → is_local (find_station ca ss) ≡ false
      → (point_in i (find_station j (deliver now callback type ca a r ss)) ≡ (
          if (ca == j) && (a == i)
          then point_after now callback type false a r (point_in i (find_station ca ss))
          else point_in i (find_station j ss)))
        × (is_local (find_station ca (deliver now callback type ca a r ss)) ≡ false)
  point_in-deliver i j ca a r ss g remote =
      let o = find_station ca ss in
      let s = or_station ca o in
      let facts : s.local ≡ false = or_station-local ca o remote in
      let kept = deliver_to_station-kept now callback type a r s in
      (
        ground (
          arith,
          facts,
          find_station-deliver j ca a r ss g,
          get_point-deliver_to_station now callback i a type r (get_point a s) s refl,
          point_in-or_station i ca o,
          point_in-or_station a ca o,
        ),
        ground (arith, facts, kept, find_station-deliver ca ca a r ss g),
      )

  -- What the objects of a message make of the point at an address, one after the other.
  abbrev pub history : (i : ℕ) → List (ℕ × Received) → Option DataPoint → Option DataPoint
  history i [] o = o
  history i ((a, r) ∷ objects) o =
      history i objects (if a == i then point_after now callback type false a r o else o)

  pub point_in-deliver_all :
      (i j ca : ℕ) (objects : List (ℕ × Received)) (ss : List Station)
      → ca ≢ 65535
      → is_local (find_station ca ss) ≡ false
      → point_in i (find_station j (deliver_all now callback type ca objects ss)) ≡ (
          if ca == j
          then history i objects (point_in i (find_station ca ss))
          else point_in i (find_station j ss))
  unfolding deliver_all
  point_in-deliver_all i j ca [] ss g remote = ground arith
  point_in-deliver_all i j ca ((a, r) ∷ objects) ss g remote =
      let after = deliver now callback type ca a r ss in
      let (here, still) = point_in-deliver i ca ca a r ss g remote in
      let elsewhere = (point_in-deliver i j ca a r ss g remote).0 in
      let later = point_in-deliver_all i j ca objects after g still in
      ground (arith, later, elsewhere, here)

  -- The station of the message still belongs to the connection.
  pub deliver_all-remote :
      (ca : ℕ) (objects : List (ℕ × Received)) (ss : List Station)
      → ca ≢ 65535
      → is_local (find_station ca ss) ≡ false
      → is_local (find_station ca (deliver_all now callback type ca objects ss)) ≡ false
  unfolding deliver_all
  deliver_all-remote ca [] ss g remote = remote
  deliver_all-remote ca ((a, r) ∷ objects) ss g remote =
      deliver_all-remote ca objects (deliver now callback type ca a r ss) g
        (point_in-deliver a ca ca a r ss g remote).1

  pub history-append :
      (i : ℕ) (xs ys : List (ℕ × Received)) (o : Option DataPoint)
      → history i (xs ++ ys) o ≡ history i ys (history i xs o)
  history-append i [] ys o = refl
  history-append i ((a, r) ∷ xs) ys o =
      history-append i xs ys (if a == i then point_after now callback type false a r o else o)
