-- ===== src/Station/Stations.antt =====
-- The lists of stations: `getStation`, `hasStation` and `addStation` of src/Server.cpp and of
-- src/remote/Connection.cpp, which differ at the global common address.
use iec104_python.Base.{
  ℕ, Bool, true, false, ◌==◌, ltb, ◌&&◌, ◌||◌, if◌then◌else◌, List, [], ◌∷◌, ◌++◌, Option, none,
  some,
}
use iec104_python.Protocol.{global_common_address}
use iec104_python.Station.Points.{Station}

unfoldable pub is_single_common_address : ℕ → Bool
is_single_common_address ca = ltb 0 ca && ltb ca global_common_address

unfoldable pub is_global_common_address : ℕ → Bool
is_global_common_address ca = global_common_address == ca

unfoldable pub find_station : ℕ → List Station → Option Station
find_station ca [] = none
find_station ca (s ∷ ss) = if s.common_address == ca then some s else find_station ca ss

abbrev pub is_some {ℓ} : {A : Type ℓ} → Option A → Bool
is_some none = false
is_some (some a) = true

abbrev new_station : ℕ → Bool → Station
new_station ca local = record { common_address = ca; local = local; points = [] }

-- src/Server.cpp
unfoldable pub server_has_station : ℕ → List Station → Bool
server_has_station ca ss = global_common_address == ca || is_some (find_station ca ss)

unfoldable pub server_add_station : ℕ → List Station → List Station × Option Station
server_add_station ca ss =
    if is_some (find_station ca ss)
    then (ss, none)
    else (ss ++ new_station ca true ∷ [], some (new_station ca true))

-- src/remote/Connection.cpp
unfoldable pub client_get_station : ℕ → List Station → Option Station
unfolding is_global_common_address
client_get_station ca ss = if is_global_common_address ca then none else find_station ca ss

unfoldable pub client_add_station : ℕ → List Station → List Station × Option Station
unfolding client_get_station
client_add_station ca ss =
    if is_some (client_get_station ca ss)
    then (ss, none)
    else (ss ++ new_station ca false ∷ [], some (new_station ca false))
