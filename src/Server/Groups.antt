-- ===== src/Server/Groups.antt =====
-- What a report takes up, under which key, and in which order.
use iec104_python.Base.{
  ℕ, ◌+◌, ◌%◌, ◌^◌, ◌<◌, ◌≡◌, refl, ap, ◌∙◌, ◌⊎◌, Bool, true, false, ◌==◌, ◌&&◌, if◌then◌else◌,
  List, [], ◌∷◌, Option, none, some, Result, ok, err, arith, All,
}
use iec104_python.Protocol.{TypeId, Cot, cot_periodic}
use iec104_python.Point.Data.{DataPoint}
use iec104_python.Message.Outgoing.{InformationObject, OutgoingError, point_message}
use iec104_python.Server.Report.{
  Choice, skipped, taken, is_due, choose, after_choice, reported_points, put, get, Group,
  group_or_empty, add_to_group, group_message, group_choice, group_points,
}

module _ {ℓ} {V : Type ℓ} where
  pub get-put :
      (j k : ℕ) (v : V) (m : List (ℕ × V))
      → get j (put k v m) ≡ (if k == j then some v else get j m)
  unfolding get put
  get-put j k v [] = ground arith
  get-put j k v ((i, w) ∷ m) = ground (arith, get-put j k v m)

  abbrev pub Above : ℕ → List (ℕ × V) → Type 0
  Above n [] = Unit {0}
  Above n ((k, v) ∷ m) = (n < k) × Above k m

  -- The keys strictly increase.
  abbrev pub Increasing : List (ℕ × V) → Type 0
  Increasing [] = Unit {0}
  Increasing ((k, v) ∷ m) = Above k m

  put-Above : (n k : ℕ) (v : V) (m : List (ℕ × V)) → n < k → Above n m → Above n (put k v m)
  unfolding put
  put-Above n k v [] h a = (h, tt)
  put-Above n k v ((i, w) ∷ m) h a = ground (arith, put-Above i k v m)

  pub put-Increasing : (k : ℕ) (v : V) (m : List (ℕ × V)) → Increasing m → Increasing (put k v m)
  unfolding put
  put-Increasing k v [] a = tt
  put-Increasing k v ((i, w) ∷ m) a = ground (arith, put-Above i k v m)

-- The object that the groups have for a type and an address.
abbrev pub find_object : TypeId → ℕ → List (ℕ × Group) → Option InformationObject
find_object type address groups = get address (group_or_empty (get type groups))

find_object-add_to_group :
    (t a type address : ℕ) (io : InformationObject) (groups : List (ℕ × Group))
    → find_object t a (add_to_group type address io groups)
      ≡ (if (type == t) && (address == a) then some io else find_object t a groups)
unfolding add_to_group
find_object-add_to_group t a type address io groups =
    let g = group_or_empty (get type groups) in
    ground (arith, get-put t type (put address io g) groups, get-put a address io g)

-- The object that a list of points gives for a type and an address: that of the last point that is
-- taken up under them and whose message can be made.
abbrev pub object_in :
    TypeId → ℕ → Result OutgoingError InformationObject → DataPoint → Option InformationObject
object_in t a (ok io) q = if (q.type == t) && (q.address == a) then some io else none
object_in t a (err e) q = none

abbrev pub object_of : TypeId → ℕ → Choice → Option InformationObject
object_of t a skipped = none
object_of t a (taken q) = object_in t a (point_message q) q

abbrev pub or_else : Option InformationObject → Option InformationObject → Option InformationObject
or_else (some x) y = some x
or_else none y = y

module _ (poll : DataPoint → DataPoint) (cot : Cot) (now : ℕ) where
  abbrev pub last_object : TypeId → ℕ → List DataPoint → Option InformationObject
  last_object t a [] = none
  last_object t a (p ∷ ps) = or_else (last_object t a ps) (object_of t a (choose poll cot now p))

group_message_lookup :
    (t a : ℕ) (r : Result OutgoingError InformationObject) (q : DataPoint)
    (groups : List (ℕ × Group))
    → find_object t a (group_message r q groups)
      ≡ or_else (object_in t a r q) (find_object t a groups)
unfolding group_message
group_message_lookup t a (ok io) q groups =
    ground (arith, find_object-add_to_group t a q.type q.address io groups)
group_message_lookup t a (err e) q groups = refl

group_choice_lookup :
    (t a : ℕ) (c : Choice) (groups : List (ℕ × Group))
    → find_object t a (group_choice c groups) ≡ or_else (object_of t a c) (find_object t a groups)
unfolding group_choice
group_choice_lookup t a skipped groups = refl
group_choice_lookup t a (taken q) groups = group_message_lookup t a (point_message q) q groups

or_else-none : (x : Option InformationObject) → or_else x none ≡ x
or_else-none none = refl
or_else-none (some x) = refl

or_else_assoc :
    (x y z : Option InformationObject) → or_else x (or_else y z) ≡ or_else (or_else x y) z
or_else_assoc (some x) y z = refl
or_else_assoc none y z = refl

module _ (poll : DataPoint → DataPoint) (cot : Cot) (now : ℕ) where
  group_points_from :
      (t a : ℕ) (ps : List DataPoint) (groups : List (ℕ × Group))
      → find_object t a (group_points poll cot now ps groups)
        ≡ or_else (last_object poll cot now t a ps) (find_object t a groups)
  unfolding group_points
  group_points_from t a [] groups = refl
  group_points_from t a (p ∷ ps) groups =
      group_points_from t a ps (group_choice (choose poll cot now p) groups)
      ∙ ap (or_else (last_object poll cot now t a ps))
          (group_choice_lookup t a (choose poll cot now p) groups)
      ∙ or_else_assoc (last_object poll cot now t a ps) (object_of t a (choose poll cot now p))
          (find_object t a groups)

  -- The groups of a report hold, under a type and an address, the object of the last point that is
  -- taken up with them and whose message can be made, and nothing where there is none.
  pub group_points_lookup :
      (t a : ℕ) (ps : List DataPoint)
      → find_object t a (group_points poll cot now ps []) ≡ last_object poll cot now t a ps
  unfolding get
  group_points_lookup t a ps =
      group_points_from t a ps [] ∙ or_else-none (last_object poll cot now t a ps)

-- Both levels of the groups are ordered by increasing keys.
abbrev Ordered : List (ℕ × Group) → Type 0
Ordered groups = Increasing groups × ((t : ℕ) → Increasing (group_or_empty (get t groups)))

group_or_empty_of :
    (b : Bool) (x y : Option Group)
    → Increasing (group_or_empty x)
    → Increasing (group_or_empty y)
    → Increasing (group_or_empty (if b then x else y))
group_or_empty_of true x y h k = h
group_or_empty_of false x y h k = k

add_to_group-Ordered :
    (type address : ℕ) (io : InformationObject) (groups : List (ℕ × Group))
    → Ordered groups
    → Ordered (add_to_group type address io groups)
unfolding add_to_group
add_to_group-Ordered type address io groups (o, i) =
    let g = put address io (group_or_empty (get type groups)) in
    (
      put-Increasing type g groups o,
      λ t. rw (get-put t type g groups) (
          group_or_empty_of (type == t) (some g) (get t groups)
            (put-Increasing address io (group_or_empty (get type groups)) (i type)) (i t)),
    )

group_choice-Ordered :
    (c : Choice) (groups : List (ℕ × Group)) → Ordered groups → Ordered (group_choice c groups)
unfolding group_choice
group_choice-Ordered skipped groups o = o
group_choice-Ordered (taken q) groups o = by_result (point_message q)
  where
    by_result : (r : Result OutgoingError InformationObject) → Ordered (group_message r q groups)
    by_result (ok io) = add_to_group-Ordered q.type q.address io groups o
    by_result (err e) = o

group_points_from-Ordered :
    (poll : DataPoint → DataPoint) (cot : Cot) (now : ℕ) (ps : List DataPoint)
    (groups : List (ℕ × Group))
    → Ordered groups
    → Ordered (group_points poll cot now ps groups)
unfolding group_points
group_points_from-Ordered poll cot now [] groups o = o
group_points_from-Ordered poll cot now (p ∷ ps) groups o =
    group_points_from-Ordered poll cot now ps (group_choice (choose poll cot now p) groups)
      (group_choice-Ordered (choose poll cot now p) groups o)

-- The groups of a report come in increasing order of type, and the objects of the group of each
-- type in increasing order of address, so that each address stands there once.
pub group_points-Increasing :
    (poll : DataPoint → DataPoint) (cot : Cot) (now t : ℕ) (ps : List DataPoint)
    → Increasing (group_points poll cot now ps [])
      × Increasing (group_or_empty (get t (group_points poll cot now ps [])))
unfolding get
group_points-Increasing poll cot now t ps =
    let (types, objects) = group_points_from-Ordered poll cot now ps [] (tt, λ t. tt) in
    (types, objects t)

next_report-below : (now n : ℕ) → now + n < 2 ^ 64 → (now + n) % 2 ^ 64 ≡ now + n
next_report-below now n h = omega (arith, h)

choose-none_due :
    (poll : DataPoint → DataPoint) (now : ℕ) (p : DataPoint)
    → ((poll p).type ≡ p.type) × ((poll p).report_interval ≡ p.report_interval)
    → now + p.report_interval < 2 ^ 64
    → (41 < (after_choice p (choose poll cot_periodic now p)).type)
      ⊎ (is_due now (after_choice p (choose poll cot_periodic now p)) ≡ false)
unfolding choose
choose-none_due poll now p keeps early =
    ground (arith, keeps, next_report-below now p.report_interval early)

-- After a periodic report no monitoring point is due: a point of a type up to 41 either has no
-- report interval or is reported again only after it has passed. The callback before the report
-- changes neither the type nor the interval, and the time of the next report is below 2 ^ 64.
pub periodic_none_due :
    (poll : DataPoint → DataPoint) (now : ℕ) (ps : List DataPoint)
    → ((p : DataPoint) → ((poll p).type ≡ p.type) × ((poll p).report_interval ≡ p.report_interval))
    → All (λ p. now + p.report_interval < 2 ^ 64) ps
    → All (λ p. (41 < p.type) ⊎ (is_due now p ≡ false)) (reported_points poll cot_periodic now ps)
unfolding reported_points
periodic_none_due poll now [] keeps in_time = tt
periodic_none_due poll now (p ∷ ps) keeps (early, in_time) =
    (choose-none_due poll now p (keeps p) early, periodic_none_due poll now ps keeps in_time)
