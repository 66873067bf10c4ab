-- ===== src/Point/Valid.antt =====
-- What holds of every point that the constructor makes, whatever the setters do afterwards.
use iec104_python.Base.{
  ℕ, ◌≤◌, ◌<◌, ◌≡◌, ◌≢◌, ◌↔◌, ◌⊎◌, ◌∙◌, refl, Bool, true, false, List, [], ◌∷◌, arith, Result, ok,
  err,
}
use iec104_python.Value.{Double}
use iec104_python.Point.Data.{
  DataPoint, PointError, create, set_related_address, set_related_auto_return, set_report_interval,
  set_quality,
}
use iec104_python.Point.Update.{set_value_ex, OnReceive, Received, on_receive}

pub record Valid (p : DataPoint) : Type 0 where
  pub address_low : 1 ≤ p.address
  pub address_high : p.address ≤ 16777216
  pub type_supported : p.type < 70
  pub reports : (p.report_interval ≡ 0) ⊎ ((p.type ≤ 40) × (p.is_server ≡ true))
  pub related : (p.related_address ≡ 0) ⊎ (p.is_server ≡ true)
  pub returns_info : (p.related_auto_return ≡ false) ⊎ ((45 ≤ p.type) × (p.type ≤ 64))

abbrev pub is_ok : {E A : Type 0} → Result E A → Bool
is_ok (ok a) = true
is_ok (err e) = false

-- The arguments that make a point, by the limits of each option.
abbrev pub Accepts : (address type : ℕ) → (local : Bool) → (report related : ℕ) → Bool → Type 0
Accepts address type local report related auto_return =
    (type < 70)
    × (1 ≤ address)
    × (address ≤ 16777216)
    × ((report ≡ 0) ⊎ ((type ≤ 40) × (local ≡ true)))
    × ((related ≡ 0) ⊎ (local ≡ true))
    × ((auto_return ≡ false) ⊎ ((related ≢ 0) × (45 ≤ type) × (type ≤ 64)))

-- The constructor makes a point exactly for the arguments within all limits, and throws otherwise.
create-ok_iff :
    (address type : ℕ) (local : Bool) (report related : ℕ) (auto_return : Bool)
    → (is_ok (create address type local report related auto_return) ≡ true)
      ↔ Accepts address type local report related auto_return
unfolding create
create-ok_iff address type local report related auto_return = ground arith

pub create-Valid :
    (address type : ℕ) (local : Bool) (report related : ℕ) (auto_return : Bool) {p : DataPoint}
    → create address type local report related auto_return ≡ ok p
    → Valid p
unfolding create
create-Valid address type local report related auto_return h = ground arith

-- The calls that change a point.
pub data Change : Type 0 where
  related_address : ℕ → Change
  related_auto_return : Bool → Change
  report_interval : ℕ → Change
  quality : ℕ → Change
  value : (now : ℕ) → Double → (quality timestamp : ℕ) → Change
  receive : (now : ℕ) → OnReceive → Received → Change

-- A setter that throws leaves the point as it was.
abbrev or_same : DataPoint → Result PointError DataPoint → DataPoint
or_same p (ok q) = q
or_same p (err e) = p

unfoldable pub change : Change → DataPoint → DataPoint
change (related_address n) p = or_same p (set_related_address n p)
change (related_auto_return b) p = or_same p (set_related_auto_return b p)
change (report_interval n) p = or_same p (set_report_interval n p)
change (quality q) p = set_quality q p
change (value now v q t) p = set_value_ex now v q t p
change (receive now callback m) p = (on_receive now callback m p).0

unfoldable pub changes : List Change → DataPoint → DataPoint
changes [] p = p
changes (c ∷ cs) p = changes cs (change c p)

abbrev pub Same : DataPoint → DataPoint → Type 0
Same p q = (q.address ≡ p.address) × (q.type ≡ p.type) × (q.is_server ≡ p.is_server)

change-Valid : (c : Change) (p : DataPoint) → Valid p → Valid (change c p) × Same p (change c p)
unfolding change set_related_address set_related_auto_return set_report_interval set_quality
    set_value_ex on_receive
change-Valid (related_address n) p v = ground arith
change-Valid _ p v = ground arith

changes_from-Valid :
    (cs : List Change) (p : DataPoint) → Valid p → Valid (changes cs p) × Same p (changes cs p)
unfolding changes
changes_from-Valid [] p v = (v, (refl, refl, refl))
changes_from-Valid (c ∷ cs) p v =
    let (now, same) = change-Valid c p v in
    let (later, kept) = changes_from-Valid cs (change c p) now in
    (later, (kept.0 ∙ same.0, kept.1 ∙ same.1, kept.2 ∙ same.2))

create-fields :
    (address type : ℕ) (local : Bool) (report related : ℕ) (auto_return : Bool) {p : DataPoint}
    → create address type local report related auto_return ≡ ok p
    → (p.address ≡ address) × (p.type ≡ type) × (p.is_server ≡ local)
unfolding create
create-fields address type local report related auto_return h = ground arith

-- A point made by the constructor keeps the address, type and side that it was made with through any
-- calls, those that throw and received messages included; its address stays within 1 and 16777216 and
-- its type among the supported ones; reports stay with monitoring points of a server, related addresses
-- with servers, and the automatic return with control points.
pub changes-Valid :
    (address type : ℕ) (local : Bool) (report related : ℕ) (auto_return : Bool) (cs : List Change)
    {p : DataPoint}
    → create address type local report related auto_return ≡ ok p
    → Valid (changes cs p)
      × ((changes cs p).address ≡ address)
      × ((changes cs p).type ≡ type)
      × ((changes cs p).is_server ≡ local)
changes-Valid address type local report related auto_return cs {p} h =
    let (valid, same) =
      changes_from-Valid cs p (create-Valid address type local report related auto_return h) in
    let made = create-fields address type local report related auto_return h in
    (valid, same.0 ∙ made.0, same.1 ∙ made.1, same.2 ∙ made.2)
