-- ===== src/Server/Peers.antt =====
-- The counter of active peers agrees with the map, after any sequence of the library's events.
use iec104_python.Base.{
  ℕ, ◌+◌, ◌%◌, ◌<◌, ◌≡◌, ◌≢◌, ◌↔◌, refl, Bool, true, false, ◌==◌, if◌then◌else◌, List, [], ◌∷◌,
  Option, none, some, arith, sym, ap, ◌∙◌,
}
use iec104_python.Server.Registry.{
  Peers, find, insert, erase, Registry, PeerEvent, peer_opened, peer_closed, activated, deactivated,
  connection_event, has_active_connections,
}

abbrev pub weight : Bool → ℕ
weight b = if b then 1 else 0

-- The peers that may receive data.
abbrev pub count_active : Peers → ℕ
count_active [] = 0
count_active ((k, v) ∷ m) = weight v + count_active m

abbrev pub weight_of : Option Bool → ℕ
weight_of none = 0
weight_of (some v) = weight v

abbrev pub Distinct : Peers → Type 0
Distinct [] = Unit {0}
Distinct ((k, v) ∷ m) = (find k m ≡ none) × Distinct m

-- Each peer has one entry, and the 8-bit counter is the number of active entries.
pub record Inv (r : Registry) : Type 0 where
  pub distinct : Distinct r.peers
  pub counted : r.active ≡ count_active r.peers % 256

pub find-insert :
    (j k : ℕ) (v : Bool) (m : Peers) → find j (insert k v m) ≡ (if k == j then some v else find j m)
unfolding find insert
find-insert j k v [] = refl
find-insert j k v ((i, w) ∷ m) = ground (arith, find-insert j k v m)

pub find-erase :
    (j k : ℕ) (m : Peers) → Distinct m → find j (erase k m) ≡ (if k == j then none else find j m)
unfolding find erase
find-erase j k [] d = ground arith
find-erase j k ((i, w) ∷ m) d = ground (arith, find-erase j k m d.1)

count-insert :
    (k : ℕ) (v : Bool) (m : Peers)
    → count_active (insert k v m) + weight_of (find k m) ≡ count_active m + weight v
unfolding find insert
count-insert k v [] = ground arith
count-insert k v ((i, w) ∷ m) = ground (arith, count-insert k v m)

count-erase : (k : ℕ) (m : Peers) → count_active (erase k m) + weight_of (find k m) ≡ count_active m
unfolding find erase
count-erase k [] = refl
count-erase k ((i, w) ∷ m) = ground (arith, count-erase k m)

insert-Distinct : (k : ℕ) (v : Bool) (m : Peers) → Distinct m → Distinct (insert k v m)
unfolding find insert
insert-Distinct k v [] d = (refl, tt)
insert-Distinct k v ((i, w) ∷ m) d = ground (arith, insert-Distinct k v m d.1, find-insert i k v m)

erase-Distinct : (k : ℕ) (m : Peers) → Distinct m → Distinct (erase k m)
unfolding find erase
erase-Distinct k [] d = tt
erase-Distinct k ((i, w) ∷ m) d = ground (arith, erase-Distinct k m d.1, find-erase i k m d.1)

pub connection_event-Inv :
    (e : PeerEvent) (k : ℕ) (r : Registry) → Inv r → Inv (connection_event e k r)
unfolding connection_event
connection_event-Inv e k r v = ground (
  arith,
  insert-Distinct k true r.peers v.distinct,
  insert-Distinct k false r.peers v.distinct,
  erase-Distinct k r.peers v.distinct,
  count-insert k true r.peers,
  count-insert k false r.peers,
  count-erase k r.peers,
)

unfoldable pub events : List (PeerEvent × ℕ) → Registry → Registry
events [] r = r
events ((e, k) ∷ es) r = events es (connection_event e k r)

-- After any events from a state where they agree, as after `stop`, every peer has one entry in the
-- map and the 8-bit counter is the number of peers marked active, modulo 256.
pub events-Inv : (es : List (PeerEvent × ℕ)) (r : Registry) → Inv r → Inv (events es r)
unfolding events
events-Inv [] r v = v
events-Inv ((e, k) ∷ es) r v = events-Inv es (connection_event e k r) (connection_event-Inv e k r v)

-- What an event makes of the peer that it names.
abbrev pub entry_after : PeerEvent → Option Bool
entry_after peer_opened = some false
entry_after peer_closed = none
entry_after activated = some true
entry_after deactivated = some false

-- An event sets the entry of its own peer, closed ones are removed, and no other peer's entry
-- changes.
find-connection_event :
    (e : PeerEvent) (j k : ℕ) (r : Registry)
    → Inv r
    → find j (connection_event e k r).peers ≡ (if k == j then entry_after e else find j r.peers)
unfolding connection_event
find-connection_event e j k r v = ground (
  arith,
  find-insert j k true r.peers,
  find-insert j k false r.peers,
  find-erase j k r.peers v.distinct,
)

active_peer : (m : Peers) → Distinct m → count_active m ≢ 0 → (k : ℕ) × (find k m ≡ some true)
unfolding find
active_peer [] d n = absurd (n refl)
active_peer ((k, true) ∷ m) d n = (k, ground arith)
active_peer ((k, false) ∷ m) d n =
    let (j, h) = active_peer m d.1 (λ e. n (omega (arith, e))) in (j, ground (arith, h, d.0))

active_counted : (k : ℕ) (m : Peers) → find k m ≡ some true → count_active m ≢ 0
unfolding find
active_counted k [] h = λ e. cc h
active_counted k ((j, v) ∷ m) h = λ e. ground (arith, h, e, active_counted k m)

-- What a peer is after some events, told by the last of them that names it.
abbrev pub status : ℕ → List (PeerEvent × ℕ) → Option Bool → Option Bool
status k [] o = o
status k ((e, j) ∷ es) o = status k es (if j == k then entry_after e else o)

events-status :
    (k : ℕ) (es : List (PeerEvent × ℕ)) (r : Registry)
    → Inv r
    → find k (events es r).peers ≡ status k es (find k r.peers)
unfolding events
events-status k [] r v = refl
events-status k ((e, j) ∷ es) r v =
    events-status k es (connection_event e j r) (connection_event-Inv e j r v)
    ∙ ap (status k es) (find-connection_event e k j r v)

-- After any events of the library a peer is in the map, and is marked active, as the last event that
-- names it says, and where none does as before. With fewer than 256 active peers the server takes
-- itself to have active connections exactly if there is a peer that is active by this account.
pub events-status_lem :
    (k : ℕ) (es : List (PeerEvent × ℕ)) (r : Registry)
    → Inv r
    → count_active (events es r).peers < 256
    → let r' = events es r in
      (find k r'.peers ≡ status k es (find k r.peers))
      × ((has_active_connections r' ≡ true)
          ↔ ((j : ℕ) × (status j es (find j r.peers) ≡ some true)))
unfolding has_active_connections
events-status_lem k es r v h =
    let r' = events es r in
    let v' = events-Inv es r v in
    (
      events-status k es r v,
      (
        λ active.
            let (j, marked) =
              active_peer r'.peers v'.distinct (ground (arith, active, v'.counted)) in
            (j, sym (events-status j es r v) ∙ marked),
        λ (j, marked).
            let some_active = active_counted j r'.peers (events-status j es r v ∙ marked) in
            ground (arith, some_active, v'.counted, h),
      ),
    )
