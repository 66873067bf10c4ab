-- ===== src/Client/Remotes.antt =====
-- The connections of src/Client.cpp. A remote is a connection with the text "ip:port" that names it
-- and the stations behind it.
use iec104_python.Base.{
  ℕ, ◌≡◌, refl, Bool, true, false, ◌==◌, if◌then◌else◌, List, [], ◌∷◌, ◌++◌, map, Option, none,
  some, not, Result, ok, err,
}
use iec104_python.Text.{Text, same_text, connection_string, is_valid_port}
use iec104_python.Address.Ip.{is_valid_ip}
use iec104_python.Station.Points.{Station}
use iec104_python.Station.Stations.{client_get_station, is_some, is_global_common_address}
use iec104_python.Connection.State.{closed, ConnectionInit, Connection, set_originator_address}
use iec104_python.Connection.Link.{connect, disconnect}

pub record Remote : Type 0 where
  pub name : List ℕ
  pub link : Connection
  pub stations : List Station

pub record Client : Type 0 where
  pub enabled : Bool
  pub originator_address : ℕ
  pub open_connections : ℕ
  pub active_connections : ℕ
  pub remotes : List Remote

unfoldable pub find_remote : List ℕ → List Remote → Option Remote
find_remote name [] = none
find_remote name (r ∷ rs) = if same_text r.name name then some r else find_remote name rs

-- The connection as its constructor leaves it.
unfoldable pub new_remote : List ℕ → ConnectionInit → (originator_address : ℕ) → Remote
new_remote name init originator_address = record {
  name = name;
  link = set_originator_address originator_address (record {
    state = closed;
    init = init;
    watched = false;
    originator_address = 0;
    connection_count = 0;
    connected_at = 0;
    disconnected_at = 0;
    test_sequence_counter = 0;
    expected = [];
    log = [];
  });
  stations = [];
}

abbrev pub has_remote : Option Remote → Bool
has_remote none = false
has_remote (some r) = true

unfoldable pub append_connection : List ℕ → ConnectionInit → Client → Client × Option Remote
unfolding find_remote new_remote
append_connection name init client =
    let made = new_remote name init client.originator_address in
    if has_remote (find_remote name client.remotes)
    then (client, none)
    else (record client { remotes = client.remotes ++ made ∷ [] }, some made)

unfoldable pub get_connection : (ip : Text) → (port : ℕ) → Client → Option Remote
unfolding find_remote connection_string
get_connection ip port client = find_remote (connection_string ip port) client.remotes

-- The first connection with a station of the address.
unfoldable pub find_by_address : (ca : ℕ) → List Remote → Option Remote
find_by_address ca [] = none
find_by_address ca (r ∷ rs) =
    let rest = find_by_address ca rs in
    if is_some (client_get_station ca r.stations) then some r else rest

unfoldable pub get_connection_from_common_address : (ca : ℕ) → Client → Option Remote
unfolding find_by_address
get_connection_from_common_address ca client = find_by_address ca client.remotes

-- No connection is found for the global address.
find_by_address-global : (rs : List Remote) → find_by_address 65535 rs ≡ none
unfolding find_by_address client_get_station is_global_common_address
find_by_address-global [] = refl
find_by_address-global (r ∷ rs) = find_by_address-global rs

pub data AddressError : Type 0 where
  invalid_ip invalid_port : AddressError

-- The constructor of the connection checks `Assert_IPv4` before `Assert_Port`.
unfoldable pub add_connection :
    (ip : Text)
    → (port : ℕ) → ConnectionInit
    → Client
    → Client × Result AddressError (Option Remote)
unfolding get_connection is_valid_ip is_valid_port append_connection
add_connection ip port init client =
    let (client', made) = append_connection (connection_string ip port) init client in
    if has_remote (get_connection ip port client)
    then (client, ok none)
    else if not (is_valid_ip ip)
    then (client, err invalid_ip)
    else if not (is_valid_port port)
    then (client, err invalid_port)
    else (client', ok made)

abbrev pub on_link : (Connection → Connection) → Remote → Remote
on_link f r = record r { link = f r.link }

unfoldable pub start : Client → Client
start client =
    if client.enabled
    then client
    else record client { enabled = true; remotes = map (on_link connect) client.remotes }

unfoldable pub disconnect_all : Client → Client
disconnect_all client = record client { remotes = map (on_link disconnect) client.remotes }

unfoldable pub reconnect_all : Client → Client
reconnect_all client = record client {
  remotes = map (on_link (λ c. connect (disconnect c))) client.remotes;
}

unfoldable pub stop : Client → Client
unfolding disconnect_all
stop client = record (disconnect_all client) { enabled = false }

-- A connection with an address of its own keeps it.
unfoldable pub change_originator : (prev address : ℕ) → Connection → Connection
change_originator prev address c =
    let changed = set_originator_address address c in
    if c.originator_address == prev then changed else c

unfoldable pub set_client_originator : ℕ → Client → Client
unfolding change_originator
set_client_originator address client =
    let prev = client.originator_address in
    if prev == address then client else record client {
      originator_address = address;
      remotes = map (on_link (change_originator prev address)) client.remotes;
    }
