-- ===== src/Server/Registry.antt =====
-- `connectionMap` and `activeConnections` of src/Server.cpp, and `connectionEventHandler`.
-- A peer connection of the library is a number; the map says whether it may receive data.
use iec104_python.Base.{
  ℕ, ◌+◌, ◌%◌, Bool, true, false, ◌==◌, ltb, if◌then◌else◌, List, [], ◌∷◌, Option, none, some,
}

abbrev pub Peers : Type 0
Peers = List (ℕ × Bool)

unfoldable pub find : ℕ → Peers → Option Bool
find k [] = none
find k ((j, v) ∷ m) = if j == k then some v else find k m

unfoldable pub insert : ℕ → Bool → Peers → Peers
insert k v [] = (k, v) ∷ []
insert k v ((j, w) ∷ m) = if j == k then (j, v) ∷ m else (j, w) ∷ insert k v m

unfoldable pub erase : ℕ → Peers → Peers
erase k [] = []
erase k ((j, v) ∷ m) = if j == k then m else (j, v) ∷ erase k m

-- `active` is the `uint_fast8_t` counter, `open_count` the number that the loop last read.
pub record Registry : Type 0 where
  pub peers : Peers
  pub active : ℕ
  pub open_count : ℕ

pub data PeerEvent : Type 0 where
  peer_opened peer_closed activated deactivated : PeerEvent

abbrev pub increment : ℕ → ℕ
increment n = (n + 1) % 256

abbrev pub decrement : ℕ → ℕ
decrement n = (n + 255) % 256

-- A map access by iterator: the three cases of each branch are no entry, an inactive one, an active.
unfoldable pub connection_event : PeerEvent → ℕ → Registry → Registry
connection_event peer_opened k r = elim (find k r.peers) [
  | none ↦ record r { peers = insert k false r.peers }
  | some v ↦
      if v then record r { peers = insert k false r.peers; active = decrement r.active } else r
]
connection_event peer_closed k r = elim (find k r.peers) [
  | none ↦ r
  | some v ↦
      if v
      then record r { peers = erase k r.peers; active = decrement r.active }
      else record r { peers = erase k r.peers }
]
connection_event activated k r = elim (find k r.peers) [
  | none ↦ record r { peers = insert k true r.peers; active = increment r.active }
  | some v ↦
      if v
      then record r { peers = insert k true r.peers }
      else record r { peers = insert k true r.peers; active = increment r.active }
]
connection_event deactivated k r = elim (find k r.peers) [
  | none ↦ record r { peers = insert k false r.peers }
  | some v ↦
      if v then record r { peers = insert k false r.peers; active = decrement r.active } else r
]

unfoldable pub has_active_connections : Registry → Bool
has_active_connections r = ltb 0 r.active

unfoldable pub has_open_connections : Registry → Bool
has_open_connections r = ltb 0 r.open_count

-- Both counts are read from `openConnections`.
unfoldable pub get_open_connection_count : Registry → ℕ
get_open_connection_count r = r.open_count

unfoldable pub get_active_connection_count : Registry → ℕ
get_active_connection_count r = r.open_count

-- The loop's reading of `CS104_Slave_getOpenConnections`, stored in a `uint_fast8_t`.
unfoldable pub read_open_connections : ℕ → Registry → Registry
read_open_connections count r =
    if count == r.open_count then r else record r { open_count = count % 256 }

-- What `stop` does to both.
unfoldable pub clear : Registry → Registry
clear r = record r { peers = []; active = 0; open_count = 0 }
