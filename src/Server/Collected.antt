-- ===== src/Server/Collected.antt =====
-- What each group of a report of src/Server.cpp holds, and the object of one point among them.
use iec104_python.Base.{
  ℕ, ◌<◌, ◌≡◌, ◌≢◌, refl, true, ◌==◌, ltb, if◌then◌else◌, List, [], ◌∷◌, none, some, Result, ok,
  err, arith, All, elem, Bool-cases, inl, inr, subst, sym, ==_iff,
}
use iec104_python.Protocol.{TypeId}
use iec104_python.Point.Data.{DataPoint}
use iec104_python.Station.Points.{find_point}
use iec104_python.Station.Lookup.{DistinctPoints}
use iec104_python.Message.Outgoing.{
  InformationObject, OutgoingError, Shape, valued, without_quality, counter_reading, timed_counter,
  throws, build, message_shape, point_message,
}
use iec104_python.Message.Objects.{sendable_types, point_message_objects}
use iec104_python.Server.Report.{
  choose, put, get, Group, group_or_empty, add_to_group, group_message, group_choice, group_points,
}
use iec104_python.Server.Groups.{
  Increasing, put-Increasing, last_object, object_in, object_of, or_else,
}

put-All :
    {V : Type 0} (P : ℕ × V → Type 0) (k : ℕ) (v : V) (m : List (ℕ × V))
    → P (k, v)
    → All P m
    → All P (put k v m)
unfolding put
put-All P k v [] h a = (h, tt)
put-All P k v ((j, w) ∷ m) h a = ground (arith, put-All P k v m)

-- An entry of the group of a type.
abbrev pub IsEntry : TypeId → ℕ × InformationObject → Type 0
IsEntry t (address, io) = (io.type ≡ t) × (io.address ≡ some address)

-- The group of a type that can be sent, except for M_IT_NA_1, in order of address.
abbrev pub IsGroup : ℕ × Group → Type 0
IsGroup (t, g) = (t < 42) × (elem t sendable_types ≡ true) × Increasing g × All (IsEntry t) g

get-IsGroup :
    (t : TypeId) (groups : List (ℕ × Group))
    → All IsGroup groups
    → Increasing (group_or_empty (get t groups)) × All (IsEntry t) (group_or_empty (get t groups))
unfolding get
get-IsGroup t [] a = (tt, tt)
get-IsGroup t ((k, g) ∷ groups) a = ground (arith, get-IsGroup t groups)

add_to_group-IsGroup :
    (type address : ℕ) (io : InformationObject) (groups : List (ℕ × Group))
    → type < 42
    → elem type sendable_types ≡ true
    → IsEntry type (address, io)
    → All IsGroup groups
    → All IsGroup (add_to_group type address io groups)
unfolding add_to_group
add_to_group-IsGroup type address io groups t h e a =
    let g = group_or_empty (get type groups) in
    let (ordered, entries) = get-IsGroup type groups a in
    put-All IsGroup type (put address io g) groups
      (t, h, put-Increasing address io g ordered, put-All (IsEntry type) address io g e entries) a

build-fields :
    (s : Shape) (q : DataPoint) (io : InformationObject) → build s q ≡ ok io → io.type ≡ q.type
unfolding build
build-fields (valued c timed) q io h = ground (arith, h)
build-fields (without_quality c timed) q io h = ground (arith, h)
build-fields counter_reading q io h = ground (arith, h)
build-fields timed_counter q io h = ground (arith, h)
build-fields (throws e) q io h = absurd (cc h)

-- The message of a point of a type up to 41 other than M_IT_NA_1.
pub point_message-fields :
    (q : DataPoint) (io : InformationObject)
    → point_message q ≡ ok io
    → q.type < 42
    → q.type ≢ 15
    → (elem q.type sendable_types ≡ true) × IsEntry q.type (q.address, io)
unfolding point_message
point_message-fields q io h t n =
    let facts = point_message_objects q (omega (arith, t)) in
    let type = build-fields (message_shape q.type) q io h in ground (arith, facts, type, h)

group_message-IsGroup :
    (r : Result OutgoingError InformationObject) (q : DataPoint) (groups : List (ℕ × Group))
    → point_message q ≡ r
    → q.type < 42
    → q.type ≢ 15
    → All IsGroup groups
    → All IsGroup (group_message r q groups)
unfolding group_message
group_message-IsGroup (err e) q groups h t n a = a
group_message-IsGroup (ok io) q groups h t n a =
    let (sendable, entry) = point_message-fields q io h t n in
    add_to_group-IsGroup q.type q.address io groups t sendable entry a

-- What is assumed of a point and of the callback before its report.
abbrev pub Keeps : (DataPoint → DataPoint) → DataPoint → Type 0
Keeps poll p = ((poll p).type ≡ p.type) × ((poll p).address ≡ p.address)

module _ (poll : DataPoint → DataPoint) (now : ℕ) where
  group_choice-IsGroup :
      (p : DataPoint) (groups : List (ℕ × Group))
      → Keeps poll p
      → p.type ≢ 15
      → All IsGroup groups
      → All IsGroup (group_choice (choose poll 20 now p) groups)
  unfolding group_choice choose
  group_choice-IsGroup p groups k n a = elim (Bool-cases (ltb 41 p.type)) [
    | inl late ↦ rw late a
    | inr early ↦ rw early (
        group_message-IsGroup (point_message (poll p)) (poll p) groups refl (ground (arith, k))
          (ground (arith, k)) a)
  ]

  pub group_points-IsGroup :
      (ps : List DataPoint) (groups : List (ℕ × Group))
      → ((p : DataPoint) → Keeps poll p)
      → All (λ p. p.type ≢ 15) ps
      → All IsGroup groups
      → All IsGroup (group_points poll 20 now ps groups)
  unfolding group_points
  group_points-IsGroup [] groups k n a = a
  group_points-IsGroup (p ∷ ps) groups k n a =
      group_points-IsGroup ps (group_choice (choose poll 20 now p) groups) k n.1
        (group_choice-IsGroup p groups (k p) n.0 a)

  object_in-other :
      (t i : ℕ) (r : Result OutgoingError InformationObject) (q : DataPoint)
      → q.address ≢ i
      → object_in t i r q ≡ none
  object_in-other t i (ok io) q n = ground arith
  object_in-other t i (err e) q n = refl

  object_of-other :
      (t i : ℕ) (p : DataPoint)
      → Keeps poll p
      → p.address ≢ i
      → object_of t i (choose poll 20 now p) ≡ none
  unfolding choose
  object_of-other t i p k n = elim (Bool-cases (ltb 41 p.type)) [
    | inl late ↦ rw late refl
    | inr early ↦
        rw early (object_in-other t i (point_message (poll p)) (poll p) (ground (arith, k)))
  ]

  object_of-own :
      (t : ℕ) (p : DataPoint) (io : InformationObject)
      → Keeps poll p
      → p.type < 42
      → point_message (poll p) ≡ ok io
      → object_of t p.address (choose poll 20 now p) ≡ (if p.type == t then some io else none)
  unfolding choose
  object_of-own t p io k n h = ground (arith, k, h)

  last_object-none :
      (t i : ℕ) (ps : List DataPoint)
      → ((p : DataPoint) → Keeps poll p)
      → find_point i ps ≡ none
      → last_object poll 20 now t i ps ≡ none
  unfolding find_point
  last_object-none t i [] k h = refl
  last_object-none t i (p ∷ ps) k h =
      ground (arith, object_of-other t i p (k p), last_object-none t i ps k)

  -- Where no two points share an address, the last point with an address is the only one.
  pub last_object-only :
      (t i : ℕ) (ps : List DataPoint) (p : DataPoint) (io : InformationObject)
      → ((p : DataPoint) → Keeps poll p)
      → DistinctPoints ps
      → find_point i ps ≡ some p
      → p.type < 42
      → point_message (poll p) ≡ ok io
      → last_object poll 20 now t i ps ≡ (if p.type == t then some io else none)
  unfolding find_point
  last_object-only t i [] p io k d f n h = cc
  last_object-only t i (q ∷ ps) p io k d f n h = elim (Bool-cases (q.address == i)) [
    | inl here ↦
        let same : q ≡ p = ground (arith, here, f) in
        let at : q.address ≡ i = (==_iff q.address i).0 here in
        let own =
          subst
            (λ x.
              object_of t x.address (choose poll 20 now x)
              ≡ (if p.type == t then some io else none))
            (sym same) (object_of-own t p io (k p) n h) in
        let none_left = last_object-none t q.address ps k d.0 in
        subst
          (λ j.
            or_else (last_object poll 20 now t j ps) (object_of t j (choose poll 20 now q))
            ≡ (if p.type == t then some io else none))
          at (rw none_left own)
    | inr other ↦
        ground (arith, other, f, object_of-other t i q (k q), last_object-only t i ps p io k d.1)
  ]
