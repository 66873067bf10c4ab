-- ===== src/Station/Lookup.antt =====
-- What the lookups find after an addition, and that addresses stay distinct.
use iec104_python.Base.{
  ℕ, ◌+◌, ◌≡◌, ◌≢◌, refl, zero, suc, not, ◌&&◌, Bool, true, false, ◌==◌, if◌then◌else◌, List, [],
  ◌∷◌, ◌++◌, none, some, ok, arith, length, length-append,
}
use iec104_python.Point.Data.{DataPoint, create}
use iec104_python.Point.Valid.{Valid, create-Valid}
use iec104_python.Station.Points.{Station, find_point, get_point, add_point}
use iec104_python.Station.Stations.{
  find_station, is_some, server_add_station, client_get_station, client_add_station,
}

abbrev pub DistinctPoints : List DataPoint → Type 0
DistinctPoints [] = Unit {0}
DistinctPoints (p ∷ ps) = (find_point p.address ps ≡ none) × DistinctPoints ps

pub find_point-append :
    (a : ℕ) (ps : List DataPoint) (p : DataPoint)
    → find_point a ps ≡ none
    → find_point a (ps ++ p ∷ []) ≡ (if p.address == a then some p else none)
unfolding find_point
find_point-append a [] p h = refl
find_point-append a (q ∷ ps) p h = ground (arith, find_point-append a ps p)

pub find_point-append_free :
    (a : ℕ) (ps : List DataPoint) (p : DataPoint)
    → p.address ≢ a
    → find_point a (ps ++ p ∷ []) ≡ find_point a ps
unfolding find_point
find_point-append_free a [] p h = ground arith
find_point-append_free a (r ∷ ps) p h = ground (arith, find_point-append_free a ps p)

append-DistinctPoints :
    (ps : List DataPoint) (p : DataPoint)
    → find_point p.address ps ≡ none
    → DistinctPoints ps
    → DistinctPoints (ps ++ p ∷ [])
unfolding find_point
append-DistinctPoints [] p h d = (refl, tt)
append-DistinctPoints (q ∷ ps) p h d =
    ground (arith, append-DistinctPoints ps p, find_point-append q.address ps p)

pub create-address :
    (a t : ℕ) (l : Bool) (r n : ℕ) (b : Bool) {p : DataPoint}
    → create a t l r n b ≡ ok p
    → (p.address ≡ a) × (a ≢ 0)
unfolding create
create-address a t l r n b h = ground arith

add_point_inversion :
    (a t r n : ℕ) (b : Bool) (s s' : Station) (p : DataPoint)
    → add_point a t r n b s ≡ ok (s', some p)
    → (find_point a s.points ≡ none)
      × (create a t s.local r n b ≡ ok p)
      × (s'.points ≡ s.points ++ p ∷ [])
      × (s'.common_address ≡ s.common_address)
unfolding add_point get_point
add_point_inversion a t r n b s s' p h = ground (arith, create-address a t s.local r n b {p = p})

-- A point that `addPoint` made is valid and is what `getPoint` then finds at its address; every
-- other address finds what it found before, and the addresses in the station stay distinct.
get_point-add_point :
    (a t r n j : ℕ) (b : Bool) (s s' : Station) (p : DataPoint)
    → add_point a t r n b s ≡ ok (s', some p)
    → DistinctPoints s.points
    → Valid p
      × (get_point j s' ≡ (if j == a then some p else get_point j s))
      × DistinctPoints s'.points
unfolding get_point
get_point-add_point a t r n j b s s' p h d =
    let (free, made, points, ca) = add_point_inversion a t r n b s s' p h in
    (
      create-Valid a t s.local r n b made,
      ground (
        arith,
        create-address a t s.local r n b made,
        find_point-append j s.points p,
        find_point-append_free j s.points p,
      ),
      ground (arith, create-address a t s.local r n b made, append-DistinctPoints s.points p),
    )

abbrev pub DistinctStations : List Station → Type 0
DistinctStations [] = Unit {0}
DistinctStations (s ∷ ss) = (find_station s.common_address ss ≡ none) × DistinctStations ss

pub find_station-append :
    (a : ℕ) (ss : List Station) (s : Station)
    → find_station a ss ≡ none
    → find_station a (ss ++ s ∷ []) ≡ (if s.common_address == a then some s else none)
unfolding find_station
find_station-append a [] s h = refl
find_station-append a (q ∷ ss) s h = ground (arith, find_station-append a ss s)

pub find_station-append_free :
    (a : ℕ) (ss : List Station) (s : Station)
    → s.common_address ≢ a
    → find_station a (ss ++ s ∷ []) ≡ find_station a ss
unfolding find_station
find_station-append_free a [] s h = ground arith
find_station-append_free a (r ∷ ss) s h = ground (arith, find_station-append_free a ss s)

append-DistinctStations :
    (ss : List Station) (s : Station)
    → find_station s.common_address ss ≡ none
    → DistinctStations ss
    → DistinctStations (ss ++ s ∷ [])
unfolding find_station
append-DistinctStations [] s h d = (refl, tt)
append-DistinctStations (q ∷ ss) s h d =
    ground (arith, append-DistinctStations ss s, find_station-append q.common_address ss s)

abbrev station_at : ℕ → Bool → Station
station_at ca local = record { common_address = ca; local = local; points = [] }

-- `Server.addStation` keeps the common addresses distinct. For an address that is free it returns
-- the station that the address then has; for one in use it returns none. Other addresses, and
-- addresses in use, keep the station that they had.
server_add_station_lookup :
    (ca j : ℕ) (ss : List Station)
    → DistinctStations ss
    → let (ss', made) = server_add_station ca ss in
      DistinctStations ss'
      × (find_station j ss'
          ≡ (if (ca == j) && not (is_some (find_station ca ss)) then made else find_station j ss))
      × (is_some made ≡ not (is_some (find_station ca ss)))
unfolding server_add_station
server_add_station_lookup ca j ss d = ground (
  arith,
  append-DistinctStations ss (station_at ca true),
  find_station-append j ss (station_at ca true),
  find_station-append_free j ss (station_at ca true),
)

-- `Connection.addStation` called again and again for one address.
unfoldable pub add_again : ℕ → ℕ → List Station → List Station
add_again zero ca ss = ss
add_again (suc n) ca ss = add_again n ca (client_add_station ca ss).0

-- A connection never finds a station at the global common address 65535, so each `addStation` for
-- it adds one more: n calls make the list n longer, and the lookup still finds none.
pub client_add_global_grows :
    (n : ℕ) (ss : List Station)
    → (length (add_again n 65535 ss) ≡ length ss + n)
      × (client_get_station 65535 (add_again n 65535 ss) ≡ none)
unfolding add_again client_add_station
client_add_global_grows zero ss = (omega arith, ground arith)
client_add_global_grows (suc n) ss =
    let grown = ss ++ station_at 65535 false ∷ [] in
    ground (arith, client_add_global_grows n grown, length-append ss (station_at 65535 false ∷ []))
