-- ===== src/System/Groups.antt =====
-- What all the groups of a server's report make of a client's points.
use iec104_python.Base.{
  ℕ, ◌≡◌, ◌≢◌, refl, ap, sym, subst, ◌∙◌, Bool, true, false, ◌==◌, ==_iff, if◌then◌else◌, List, [],
  ◌∷◌, Option, none, some, arith, All, Bool-cases, inl, inr,
}
use iec104_python.Point.Data.{DataPoint}
use iec104_python.Point.Update.{OnReceive, Received}
use iec104_python.Message.Outgoing.{InformationObject}
use iec104_python.Server.Report.{Group, get}
use iec104_python.Server.Groups.{Above, Increasing, find_object}
use iec104_python.Server.Packing.{pack}
use iec104_python.Server.Collected.{IsGroup}
use iec104_python.Server.Handlers.{group_outputs, values, packets}
use iec104_python.Client.Delivery.{point_after}
use iec104_python.System.Link.{End, Codec, take_outputs}
use iec104_python.System.Packets.{IsFaithful, IsReady}
use iec104_python.System.Reports.{
  Holds, holding, place, take_outputs-append, take_group, get-Above, Above-Increasing,
}

-- Only one group has an object at an address: what there is under a type.
find_object-tail :
    (t i k : ℕ) (g : Group) (groups : List (ℕ × Group))
    → Above k groups
    → find_object t i groups ≡ (if t == k then none else find_object t i ((k, g) ∷ groups))
unfolding get
find_object-tail t i k g groups a = ground (arith, get-Above t k groups)

find_object-head :
    (i k : ℕ) (g : Group) (groups : List (ℕ × Group)) → find_object k i ((k, g) ∷ groups) ≡ get i g
unfolding get
find_object-head i k g groups = ground arith

module _ (now : ℕ) (callback : DataPoint → OnReceive) (codec : Codec)
    (value : InformationObject → Received) (ca : ℕ) where
  -- What the objects of all groups make of the point at an address.
  abbrev pub delivered : ℕ → List (ℕ × Group) → Option DataPoint → Option DataPoint
  delivered i [] o = o
  delivered i ((t, g) ∷ groups) o = delivered i groups (place now callback value t i (get i g) o)

  delivered-none :
      (i : ℕ) (groups : List (ℕ × Group)) (o : Option DataPoint)
      → Increasing groups
      → ((t : ℕ) → find_object t i groups ≡ none)
      → delivered i groups o ≡ o
  delivered-none i [] o n h = refl
  delivered-none i ((k, g) ∷ groups) o n h =
      let tail =
        delivered-none i groups o (Above-Increasing k groups n)
          (λ t. ground (arith, find_object-tail t i k g groups n, h t)) in
      let head : get i g ≡ none = sym (find_object-head i k g groups) ∙ h k in rw head tail

  pub delivered-one :
      (t i : ℕ) (io : InformationObject) (groups : List (ℕ × Group)) (o : Option DataPoint)
      → Increasing groups
      → ((u : ℕ) → find_object u i groups ≡ (if t == u then some io else none))
      → delivered i groups o ≡ point_after now callback t false i (value io) o
  unfolding get
  delivered-one t i io [] o n h = ground (arith, h t)
  delivered-one t i io ((k, g) ∷ groups) o n h = elim (Bool-cases (t == k)) [
    | inl here ↦
        let same : t ≡ k = (==_iff t k).0 here in
        let head : get i g ≡ some io =
          sym (find_object-head i k g groups) ∙ ground (arith, h k, here) in
        let none_left =
          delivered-none i groups (point_after now callback k false i (value io) o)
            (Above-Increasing k groups n)
            (λ u. ground (arith, find_object-tail u i k g groups n, h u, here)) in
        rw (head, none_left, same) refl
    | inr other ↦
        let head : get i g ≡ none =
          sym (find_object-head i k g groups) ∙ ground (arith, h k, other) in
        rw head (
          delivered-one t i io groups o (Above-Increasing k groups n)
            (λ u. ground (arith, find_object-tail u i k g groups n, h u, other)))
  ]

  pub take_groups :
      (fits : List InformationObject → InformationObject → Bool) (groups : List (ℕ × Group))
      (e : End)
      → IsFaithful codec value
      → ca ≢ 65535
      → ((io : InformationObject) → fits [] io ≡ true)
      → All IsGroup groups
      → IsReady ca e
      → Holds ca
          (λ i. delivered i groups (holding ca e i))
          (take_outputs now callback codec (group_outputs fits 20 ca groups) e)
  unfolding group_outputs take_outputs
  take_groups fits [] e f n room a r = (r, λ i. refl)
  take_groups fits ((t, g) ∷ groups) e f n room a r =
      let sent_group = packets 20 ca (pack fits (values g)) in
      let e' = take_outputs now callback codec sent_group e in
      let (ready, held) = take_group now callback codec value ca fits t g e f n room a.0 r in
      let (ready', held') = take_groups fits groups e' f n room a.1 ready in
      subst
        (Holds ca
          (λ i. delivered i groups (place now callback value t i (get i g) (holding ca e i))))
        (sym (
          take_outputs-append now callback codec value ca sent_group
            (group_outputs fits 20 ca groups) e))
        (ready', λ i. held' i ∙ ap (delivered i groups) (held i))
