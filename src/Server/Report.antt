-- ===== src/Server/Report.antt =====
-- `sendInterrogationResponse` of src/Server.cpp: the report of the points of a station, grouped by
-- type, each group ordered by address and packed into as few ASDUs as the library lets it.
-- What the Python callback before a report makes of a point, and whether an object still fits into
-- an ASDU that holds some, are arguments.
use iec104_python.Base.{
  ℕ, ◌+◌, ◌%◌, ◌^◌, Bool, not, ◌==◌, ltb, ◌&&◌, if◌then◌else◌, List, [], ◌∷◌, map, Option, none,
  some, Result, ok, err,
}
use iec104_python.Protocol.{TypeId, Cot, cot_periodic}
use iec104_python.Point.Data.{DataPoint}
use iec104_python.Message.Outgoing.{InformationObject, OutgoingError, point_message}

-- What the report does with a point: leave it out, or take it up as polled.
pub data Choice : Type 0 where
  skipped : Choice
  taken : DataPoint → Choice

-- The sum is a 64-bit one.
unfoldable pub is_due : (now : ℕ) → DataPoint → Bool
is_due now p =
    not (p.report_interval == 0) && not (ltb now ((p.reported_at + p.report_interval) % 2 ^ 64))

unfoldable pub choose : (DataPoint → DataPoint) → Cot → (now : ℕ) → DataPoint → Choice
unfolding is_due
choose poll cot now p =
    let polled = poll p in
    if ltb 41 p.type
    then skipped
    else if cot == cot_periodic
    then if is_due now p then taken (record polled { reported_at = now }) else skipped
    else taken polled

abbrev pub after_choice : DataPoint → Choice → DataPoint
after_choice p skipped = p
after_choice p (taken q) = q

-- The points as the report leaves them.
unfoldable pub reported_points :
    (DataPoint → DataPoint) → Cot → (now : ℕ) → List DataPoint → List DataPoint
reported_points poll cot now = map λ p. after_choice p (choose poll cot now p)

-- `std::map`, ordered by its keys; an entry under an old key replaces it.
module _ {ℓ} {V : Type ℓ} where
  unfoldable pub put : ℕ → V → List (ℕ × V) → List (ℕ × V)
  put k v [] = (k, v) ∷ []
  put k v ((j, w) ∷ m) =
      let later = put k v m in
      if k == j then (k, v) ∷ m else if ltb k j then (k, v) ∷ (j, w) ∷ m else (j, w) ∷ later

  unfoldable pub get : ℕ → List (ℕ × V) → Option V
  get k [] = none
  get k ((j, w) ∷ m) = if k == j then some w else get k m

abbrev pub Group : Type 0
Group = List (ℕ × InformationObject)

abbrev pub group_or_empty : Option Group → Group
group_or_empty none = []
group_or_empty (some g) = g

unfoldable pub add_to_group : TypeId → ℕ → InformationObject → List (ℕ × Group) → List (ℕ × Group)
unfolding put get
add_to_group type address io groups =
    put type (put address io (group_or_empty (get type groups))) groups

-- A point whose message cannot be made is left out.
unfoldable pub group_message :
    Result OutgoingError InformationObject → DataPoint → List (ℕ × Group) → List (ℕ × Group)
group_message (ok io) q groups = add_to_group q.type q.address io groups
group_message (err e) q groups = groups

unfoldable pub group_choice : Choice → List (ℕ × Group) → List (ℕ × Group)
unfolding group_message
group_choice skipped groups = groups
group_choice (taken q) groups = group_message (point_message q) q groups

unfoldable pub group_points :
    (DataPoint → DataPoint) → Cot → (now : ℕ) → List DataPoint → List (ℕ × Group) → List (ℕ × Group)
unfolding choose group_choice
group_points poll cot now [] groups = groups
group_points poll cot now (p ∷ ps) groups =
    group_points poll cot now ps (group_choice (choose poll cot now p) groups)
