-- ===== src/Client/Known.antt =====
-- The points that a client has receive their objects whatever callbacks for new stations and points
-- are set.
use iec104_python.Base.{
  ℕ, ◌≡◌, ◌≢◌, ◌==◌, ◌&&◌, subst, Bool-cases, inl, inr, refl, arith, true, false, if◌then◌else◌,
  List, [], ◌∷◌, some,
}
use iec104_python.Protocol.{TypeId}
use iec104_python.Point.Data.{DataPoint}
use iec104_python.Point.Update.{Received, on_receive}
use iec104_python.Station.Points.{Station, get_point}
use iec104_python.Station.Stations.{find_station, client_get_station, is_global_common_address}
use iec104_python.Server.Commands.{change_station}
use iec104_python.Client.Reports.{deliver_to_station, with_station, deliver}
use iec104_python.Server.Execution.{point_in}
use iec104_python.Client.Delivery.{point_in-deliver}
use iec104_python.Client.Hooks.{Hooks, stations_for, points_for, received_in, deliver_hooked}

-- Only the station that is found is changed.
change_station-same :
    (ca : ℕ) (f g : Station → Station) (s : Station) (ss : List Station)
    → find_station ca ss ≡ some s
    → f s ≡ g s
    → change_station ca f ss ≡ change_station ca g ss
unfolding find_station change_station
change_station-same ca f g s [] h e = refl
change_station-same ca f g s (q ∷ ss) h e = ground (arith, h, e, change_station-same ca f g s ss)

found_of_get :
    (ca : ℕ) (s : Station) (ss : List Station)
    → client_get_station ca ss ≡ some s
    → find_station ca ss ≡ some s
unfolding client_get_station
found_of_get ca s ss h = ground (arith, h)

module _ (now : ℕ) (hooks : Hooks) (type : TypeId) (ca : ℕ) where
  received_in-known :
      (ioa : ℕ) (r : Received) (p : DataPoint) (s : Station)
      → get_point ioa s ≡ some p
      → received_in now hooks type ca ioa r s
        ≡ deliver_to_station now hooks.receive_callback type ioa r s
  unfolding received_in points_for deliver_to_station
  received_in-known ioa r p s h = rw h (rw h refl)

  deliver_hooked-known :
      (ioa : ℕ) (r : Received) (p : DataPoint) (s : Station) (ss : List Station)
      → client_get_station ca ss ≡ some s
      → get_point ioa s ≡ some p
      → (deliver_hooked now hooks type ca ioa r ss).0
        ≡ deliver now hooks.receive_callback type ca ioa r ss
  unfolding deliver_hooked stations_for deliver with_station
  deliver_hooked-known ioa r p s ss h k =
      rw (h, h)
        (change_station-same ca (received_in now hooks type ca ioa r)
          (deliver_to_station now hooks.receive_callback type ioa r) s ss (found_of_get ca s ss h)
          (received_in-known ioa r p s k))

global_of_get :
    (ca : ℕ) (s : Station) (ss : List Station) → client_get_station ca ss ≡ some s → ca ≢ 65535
unfolding client_get_station is_global_common_address
global_of_get ca s ss h = λ e. ground (arith, h, e)

same_address : (a b c d : ℕ) → ((a == b) && (c == d)) ≡ true → c ≡ d
same_address a b c d h = ground arith

-- Whatever callbacks for new stations and points a client has: where it has a station of its own and a
-- point at the address of an object, that point receives the object, and all other points of all
-- stations are as before.
pub deliver_hooked-known_point :
    (now : ℕ) (hooks : Hooks) (type : TypeId) (i j ca ioa : ℕ) (r : Received) (p : DataPoint)
    (s : Station) (ss : List Station)
    → client_get_station ca ss ≡ some s
    → s.local ≡ false
    → get_point ioa s ≡ some p
    → point_in i (find_station j (deliver_hooked now hooks type ca ioa r ss).0) ≡ (
        if (ca == j) && (ioa == i)
        then some (on_receive now (hooks.receive_callback p) r p).0
        else point_in i (find_station j ss))
deliver_hooked-known_point now hooks type i j ca ioa r p s ss h remote k =
    let found = found_of_get ca s ss h in
    let there =
      point_in-deliver now hooks.receive_callback type i j ca ioa r ss (global_of_get ca s ss h)
        (rw found remote) in
    rw (deliver_hooked-known now hooks type ca ioa r p s ss h k)
      (elim (Bool-cases ((ca == j) && (ioa == i))) [
        | inl here ↦
            let same : point_in i (find_station ca ss) ≡ some p =
              rw found (subst (λ x. get_point x s ≡ some p) (same_address ca j ioa i here) k) in
            rw here (rw (here, same) at there.0)
        | inr other ↦ rw other (rw other at there.0)
      ])
