-- ===== src/Station/Points.antt =====
-- A station and its points (src/object/Station.cpp).
use iec104_python.Base.{
  ℕ, Bool, true, false, ◌==◌, if◌then◌else◌, List, [], ◌∷◌, ◌++◌, Option, none, some, Result, ok,
  err,
}
use iec104_python.Protocol.{TypeId}
use iec104_python.Point.Data.{DataPoint, PointError, create}

-- `local` says that the server that the station belongs to still exists.
pub record Station : Type 0 where
  pub common_address : ℕ
  pub local : Bool
  pub points : List DataPoint

unfoldable pub has_points : Station → Bool
has_points s = elim s.points [ [] ↦ false | _ ↦ true ]

unfoldable pub find_point : ℕ → List DataPoint → Option DataPoint
find_point address [] = none
find_point address (p ∷ ps) = if p.address == address then some p else find_point address ps

unfoldable pub get_point : ℕ → Station → Option DataPoint
unfolding find_point
get_point address s = if address == 0 then none else find_point address s.points

-- `none` where the address is taken; an exception of the point's constructor is passed on.
unfoldable pub add_point :
    (address : ℕ)
    → TypeId
    → (report_interval related_address : ℕ) → (auto_return : Bool) → Station
    → Result PointError (Station × Option DataPoint)
unfolding get_point
add_point address type report_interval related_address auto_return s = elim (get_point address s) [
  | some p ↦ ok (s, none)
  | none ↦ elim (create address type s.local report_interval related_address auto_return) [
    | err e ↦ err e
    | ok p ↦ ok (record s { points = s.points ++ p ∷ [] }, some p)
  ]
]
