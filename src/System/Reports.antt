-- ===== src/System/Reports.antt =====
-- What a client's points hold after the packets of a server's report.
use iec104_python.Base.{
  ℕ, ◌<◌, ◌≤◌, ◌≡◌, ◌≢◌, refl, ap, sym, subst, ◌∙◌, Bool, true, false, List, [], ◌∷◌, ◌++◌, Option,
  none, some, arith, All, elem,
}
use iec104_python.Protocol.{TypeId}
use iec104_python.Point.Data.{DataPoint}
use iec104_python.Point.Update.{OnReceive, Received}
use iec104_python.Station.Stations.{find_station}
use iec104_python.Message.Outgoing.{InformationObject}
use iec104_python.Message.Objects.{sendable_types}
use iec104_python.Connection.State.{is_open}
use iec104_python.Server.Report.{Group, get}
use iec104_python.Server.Groups.{Above, Increasing}
use iec104_python.Server.Packing.{pack, pack_lem, concat, IsPacket}
use iec104_python.Server.Collected.{IsEntry, IsGroup}
use iec104_python.Server.Handlers.{values, packets}
use iec104_python.Server.Replies.{Output, objects}
use iec104_python.Server.Execution.{point_in}
use iec104_python.Client.Reports.{deliver_all}
use iec104_python.Client.Delivery.{
  history, history-append, point_in-deliver_all, deliver_all-remote, point_after,
}
use iec104_python.System.Link.{End, Codec, take, take_output, take_outputs}
use iec104_python.System.Packets.{
  readings, IsFaithful, IsReady, take-monitoring, IsTyped, addresses, All-split, readings-append,
}

module _ {V : Type 0} where
  pub get-Above : (i n : ℕ) (m : List (ℕ × V)) → i ≤ n → Above n m → get i m ≡ none
  unfolding get
  get-Above i n [] h a = refl
  get-Above i n ((k, v) ∷ m) h a = ground (arith, get-Above i k m)

  pub Above-Increasing : (n : ℕ) (m : List (ℕ × V)) → Above n m → Increasing m
  Above-Increasing n [] a = tt
  Above-Increasing n ((k, v) ∷ m) a = a.1

entries-IsTyped : (t : TypeId) (g : Group) → All (IsEntry t) g → All (IsTyped t) (values g)
entries-IsTyped t [] a = tt
entries-IsTyped t ((k, io) ∷ g) a = ((a.0.0, λ e. cc (a.0.1, e)), entries-IsTyped t g a.1)

All-fits :
    (fits : List InformationObject → InformationObject → Bool) (ios : List InformationObject)
    → ((io : InformationObject) → fits [] io ≡ true)
    → All (λ io. fits [] io ≡ true) ios
All-fits fits [] h = tt
All-fits fits (io ∷ ios) h = (h io, All-fits fits ios h)

-- The points of an end's station.
abbrev pub holding : (ca : ℕ) → End → ℕ → Option DataPoint
holding ca e i = point_in i (find_station ca e.stations)

-- An end that is ready, whose points are the given ones.
abbrev pub Holds : (ca : ℕ) → (ℕ → Option DataPoint) → End → Type 0
Holds ca points e = IsReady ca e × ((i : ℕ) → holding ca e i ≡ points i)

-- What an object of a type makes of a point, if there is one.
abbrev pub place :
    (now : ℕ)
    → (DataPoint → OnReceive)
    → (InformationObject → Received)
    → TypeId
    → ℕ
    → Option InformationObject
    → Option DataPoint
    → Option DataPoint
place now callback value t i none o = o
place now callback value t i (some io) o = point_after now callback t false i (value io) o

module _ (now : ℕ) (callback : DataPoint → OnReceive) (codec : Codec)
    (value : InformationObject → Received) (ca : ℕ) where
  pub take_outputs-append :
      (xs ys : List Output) (e : End)
      → take_outputs now callback codec (xs ++ ys) e
        ≡ take_outputs now callback codec ys (take_outputs now callback codec xs e)
  unfolding take_outputs
  take_outputs-append [] ys e = refl
  take_outputs-append (x ∷ xs) ys e = take_outputs-append xs ys (take_output now callback codec x e)

  packet_taken :
      (t : TypeId) (io : InformationObject) (ios : List InformationObject) (e : End)
      → IsFaithful codec value
      → elem t sendable_types ≡ true
      → t < 42
      → All (IsTyped t) (io ∷ ios)
      → is_open e.link ≡ true
      → take_output now callback codec (objects 20 ca (io ∷ ios)) e ≡ record {
        link = e.link;
        stations = deliver_all now callback t ca (readings value (io ∷ ios)) e.stations;
      }
  unfolding take_output take
  packet_taken t io ios e f h l a o =
      let x = codec.packet 20 ca (io ∷ ios) in
      let type : x.type ≡ t = f.typed 20 ca io ios ∙ a.0.0 in
      let read = f.read 20 (io ∷ ios) (addresses t (io ∷ ios) a) in
      let taken =
        take-monitoring now callback x (codec.read 20 (io ∷ ios)) e
          (subst (λ t. elem t sendable_types ≡ true) (sym type) h) (ground (arith, type, l))
          (ground (arith, f.caused 20 ca (io ∷ ios))) o in
      rw (taken, type, f.addressed 20 ca (io ∷ ios), read) refl

  take_packet :
      (t : TypeId) (ios : List InformationObject) (e : End)
      → IsFaithful codec value
      → ca ≢ 65535
      → elem t sendable_types ≡ true
      → t < 42
      → ios ≢ []
      → All (IsTyped t) ios
      → IsReady ca e
      → Holds ca
          (λ i. history now callback t i (readings value ios) (holding ca e i))
          (take_output now callback codec (objects 20 ca ios) e)
  take_packet t [] e f g h l n a r = absurd (n refl)
  take_packet t (io ∷ ios) e f g h l n a r =
      let after = deliver_all now callback t ca (readings value (io ∷ ios)) e.stations in
      subst (Holds ca (λ i. history now callback t i (readings value (io ∷ ios)) (holding ca e i)))
        (sym (packet_taken t io ios e f h l a r.link_open))
        (
          record {
            link_open = r.link_open;
            remote =
                deliver_all-remote now callback t ca (readings value (io ∷ ios)) e.stations g
                  r.remote;
          },
          λ i. ground (
            arith,
            point_in-deliver_all now callback t i ca ca (readings value (io ∷ ios)) e.stations g
                r.remote,
          ),
        )

  take_packets :
      (fits : List InformationObject → InformationObject → Bool) (t : TypeId)
      (pss : List (List InformationObject)) (e : End)
      → IsFaithful codec value
      → ca ≢ 65535
      → elem t sendable_types ≡ true
      → t < 42
      → All (IsPacket fits) pss
      → All (IsTyped t) (concat fits pss)
      → IsReady ca e
      → Holds ca
          (λ i. history now callback t i (readings value (concat fits pss)) (holding ca e i))
          (take_outputs now callback codec (packets 20 ca pss) e)
  unfolding take_outputs
  take_packets fits t [] e f g h l p a r = (r, λ i. refl)
  take_packets fits t (ps ∷ pss) e f g h l p a r =
      let (here, later) = All-split (IsTyped t) ps (concat fits pss) a in
      let e' = take_output now callback codec (objects 20 ca ps) e in
      let (ready, held) = take_packet t ps e f g h l p.0.0 here r in
      let (ready', held') = take_packets fits t pss e' f g h l p.1 later ready in
      (
        ready',
        λ i.
            held' i
            ∙ ap (history now callback t i (readings value (concat fits pss))) (held i)
            ∙ sym (
                history-append now callback t i (readings value ps)
                  (readings value (concat fits pss)) (holding ca e i))
            ∙ ap (λ rs. history now callback t i rs (holding ca e i))
                (sym (readings-append value ps (concat fits pss))),
      )

  history-group :
      (t i : ℕ) (g : Group) (o : Option DataPoint)
      → Increasing g
      → All (IsEntry t) g
      → history now callback t i (readings value (values g)) o
        ≡ place now callback value t i (get i g) o
  unfolding get
  history-group t i [] o n a = refl
  history-group t i ((k, io) ∷ g) o n a = ground (
    arith,
    a.0,
    get-Above i k g,
    history-group t i g o (Above-Increasing k g n) a.1,
    history-group t i g (point_after now callback t false i (value io) o) (Above-Increasing k g n)
        a.1,
  )

  pub take_group :
      (fits : List InformationObject → InformationObject → Bool) (t : TypeId) (g : Group) (e : End)
      → IsFaithful codec value
      → ca ≢ 65535
      → ((io : InformationObject) → fits [] io ≡ true)
      → IsGroup (t, g)
      → IsReady ca e
      → Holds ca
          (λ i. place now callback value t i (get i g) (holding ca e i))
          (take_outputs now callback codec (packets 20 ca (pack fits (values g))) e)
  take_group fits t g e f n room (l, h, ordered, entries) r =
      let (whole, packed) = pack_lem fits (values g) (All-fits fits (values g) room) in
      let typed = entries-IsTyped t g entries in
      let (ready, held) =
        take_packets fits t (pack fits (values g)) e f n h l packed
          (subst (All (IsTyped t)) (sym whole) typed) r in
      (
        ready,
        λ i.
            held i
            ∙ ap (λ ios. history now callback t i (readings value ios) (holding ca e i)) whole
            ∙ history-group t i g (holding ca e i) ordered entries,
      )
