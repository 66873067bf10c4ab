-- ===== src/Message/Acceptance.antt =====
-- What the check of src/remote/message/IncomingMessage.cpp amounts to.
use iec104_python.Base.{
  ℕ, ◌<◌, ◌≡◌, refl, ap, ◌∙◌, Bool, true, false, not, ◌==◌, ◌||◌, ◌&&◌, elem, if◌then◌else◌, List,
  [], ◌∷◌, ok, arith, table, table-entry,
}
use iec104_python.Protocol.{TypeId, Cot}
use iec104_python.Message.Incoming.{cp24_types}
use iec104_python.Message.Causes.{
  CauseGroup, unsupported, points, timed_points, timed_values, timed_events, end_of_initialization,
  group_of, is_refused, is_valid_cause,
}

abbrev checked : CauseGroup → Bool
checked timed_points = true
checked timed_values = true
checked timed_events = true
checked end_of_initialization = true
checked _ = false

abbrev allowed : CauseGroup → List Cot
allowed timed_points = 3 ∷ 5 ∷ 11 ∷ 12 ∷ []
allowed timed_values = 3 ∷ 5 ∷ []
allowed timed_events = 3 ∷ []
allowed end_of_initialization = 4 ∷ []
allowed _ = []

-- M_SP, M_DP, M_ST, M_BO, M_ME and M_EP with a time stamp, the end of initialisation, F_DR_TA_1.
abbrev pub checked_types : List TypeId
checked_types = 30 ∷ 31 ∷ 32 ∷ 33 ∷ 34 ∷ 35 ∷ 36 ∷ 38 ∷ 39 ∷ 40 ∷ 70 ∷ 126 ∷ []

-- The causes that a checked type may have.
abbrev pub allowed_causes : TypeId → List Cot
allowed_causes t =
    if elem t (30 ∷ 31 ∷ 32 ∷ [])
    then 3 ∷ 5 ∷ 11 ∷ 12 ∷ []
    else if elem t (33 ∷ 34 ∷ 35 ∷ 36 ∷ 126 ∷ [])
    then 3 ∷ 5 ∷ []
    else if elem t (38 ∷ 39 ∷ 40 ∷ [])
    then 3 ∷ []
    else 4 ∷ []

is_refused_iff :
    (g : CauseGroup) (c : Cot) → is_refused g c ≡ (checked g && not (elem c (allowed g)))
unfolding is_refused
is_refused_iff points c = ground arith
is_refused_iff _ c = ground arith

abbrev list_eq : List ℕ → List ℕ → Bool
list_eq [] [] = true
list_eq (x ∷ xs) (y ∷ ys) = (x == y) && list_eq xs ys
list_eq _ _ = false

elem-list_eq : (c : ℕ) (xs ys : List ℕ) → list_eq xs ys ≡ true → elem c xs ≡ elem c ys
elem-list_eq c [] [] h = refl
elem-list_eq c [] (y ∷ ys) h = cc
elem-list_eq c (x ∷ xs) [] h = cc
elem-list_eq c (x ∷ xs) (y ∷ ys) h = ground (arith, elem-list_eq c xs ys)

abbrev is_unsupported : CauseGroup → Bool
is_unsupported unsupported = true
is_unsupported _ = false

abbrev agrees : Bool → Bool → Bool
agrees true b = b
agrees false b = not b

-- The groups of the `switch` against the lists of types, for one type.
abbrev same_groups : TypeId → Bool
same_groups t =
    agrees (is_unsupported (group_of t)) (elem t cp24_types)
    && agrees (checked (group_of t)) (elem t checked_types)
    && (not (elem t checked_types) || list_eq (allowed (group_of t)) (allowed_causes t))

groups_hold : table same_groups 256 ≡ true
unfolding table group_of
groups_hold = refl

valid_cause_by_group :
    (t : TypeId) (c : Cot)
    → is_unsupported (group_of t) ≡ false
    → is_valid_cause t c ≡ ok (not (is_refused (group_of t) c))
unfolding is_valid_cause
valid_cause_by_group t c h = ground arith

-- The three facts of the table, for Booleans that stand for the memberships.
combine :
    (g : CauseGroup) (c : Cot) (b k : Bool) (cs : List Cot)
    → (agrees (is_unsupported g) b && agrees (checked g) k && (not k || list_eq (allowed g) cs))
      ≡ true
    → b ≡ false
    → (is_unsupported g ≡ false) × (not (is_refused g c) ≡ (not k || elem c cs))
combine g c b k cs h e = ground (arith, is_refused_iff g c, elem-list_eq c (allowed g) cs)

-- Every range of the check is tested by "below its start and above its end", which no number is.
-- So, of the types that the protocol carries, the check restricts the causes of those in
-- `checked_types` only, which must be one of their allowed causes: fewer than those that the comments of
-- src/remote/message/PointMessage.cpp give for the points and measured values with a time stamp. For
-- every other type, all commands among them, any cause of transmission is valid.
pub is_valid_cause_iff :
    (t : TypeId) (c : Cot)
    → t < 256
    → elem t cp24_types ≡ false
    → is_valid_cause t c ≡ ok (not (elem t checked_types) || elem c (allowed_causes t))
is_valid_cause_iff t c lt h =
    let (free, verdict) =
      combine (group_of t) c (elem t cp24_types) (elem t checked_types) (allowed_causes t)
        (table-entry same_groups 256 lt groups_hold) h in
    valid_cause_by_group t c free ∙ ap ok verdict
