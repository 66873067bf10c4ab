-- ===== src/Server/Setup.antt =====
-- The constructor of src/Server.cpp, by the calls of the library that it makes in order, and
-- `setMaxOpenConnections`.
use iec104_python.Base.{
  ◌≡◌, refl, Bool-cases, inl, inr, ℕ, Bool, true, false, ◌==◌, if◌then◌else◌, List, [], ◌∷◌, ◌++◌,
}
use iec104_python.Text.{Text}

pub data SlaveCall : Type 0 where
  create_slave create_secure_slave : (low_priority_queue high_priority_queue : ℕ) → SlaveCall
  set_local_address : (ip : Text) → SlaveCall
  set_local_port : (port : ℕ) → SlaveCall
  set_redundancy_group_per_connection : SlaveCall
  slave_max_open_connections : ℕ → SlaveCall
  set_connection_request_handler set_connection_event_handler set_slave_raw_handler
        set_interrogation_handler set_counter_interrogation_handler set_read_handler
        set_asdu_handler :
      SlaveCall

pub record Slave : Type 0 where
  pub max_open_connections : ℕ
  pub calls : List SlaveCall

unfoldable pub new_slave : (ip : Text) → (port max_open_connections : ℕ) → (secure : Bool) → Slave
new_slave ip port max_open_connections secure = record {
  max_open_connections = max_open_connections;
  calls =
      (if secure then create_secure_slave 100 100 else create_slave 100 100)
      ∷ set_local_address ip
      ∷ set_local_port port
      ∷ set_redundancy_group_per_connection
      ∷ slave_max_open_connections max_open_connections
      ∷ set_connection_request_handler
      ∷ set_connection_event_handler
      ∷ set_slave_raw_handler
      ∷ set_interrogation_handler
      ∷ set_counter_interrogation_handler
      ∷ set_read_handler
      ∷ set_asdu_handler
      ∷ [];
}

unfoldable pub set_max_open_connections : ℕ → Slave → Slave
set_max_open_connections max s = if s.max_open_connections == max then s else record {
  max_open_connections = max;
  calls = s.calls ++ slave_max_open_connections max ∷ [];
}

-- The limit that the library was told last.
abbrev last_limit : (before : ℕ) → List SlaveCall → ℕ
last_limit before [] = before
last_limit before (slave_max_open_connections max ∷ calls) = last_limit max calls
last_limit before (c ∷ calls) = last_limit before calls

unfoldable all_set : List ℕ → Slave → Slave
unfolding set_max_open_connections
all_set [] s = s
all_set (max ∷ limits) s = all_set limits (set_max_open_connections max s)

last_limit-append :
    (before max : ℕ) (calls : List SlaveCall)
    → last_limit before (calls ++ slave_max_open_connections max ∷ []) ≡ max
last_limit-append before max [] = refl
last_limit-append before max (slave_max_open_connections m ∷ calls) = last_limit-append m max calls
last_limit-append before max (create_slave a b ∷ calls) = last_limit-append before max calls
last_limit-append before max (create_secure_slave a b ∷ calls) = last_limit-append before max calls
last_limit-append before max (set_local_address a ∷ calls) = last_limit-append before max calls
last_limit-append before max (set_local_port a ∷ calls) = last_limit-append before max calls
last_limit-append before max (set_redundancy_group_per_connection ∷ calls) =
    last_limit-append before max calls
last_limit-append before max (set_connection_request_handler ∷ calls) =
    last_limit-append before max calls
last_limit-append before max (set_connection_event_handler ∷ calls) =
    last_limit-append before max calls
last_limit-append before max (set_slave_raw_handler ∷ calls) = last_limit-append before max calls
last_limit-append before max (set_interrogation_handler ∷ calls) =
    last_limit-append before max calls
last_limit-append before max (set_counter_interrogation_handler ∷ calls) =
    last_limit-append before max calls
last_limit-append before max (set_read_handler ∷ calls) = last_limit-append before max calls
last_limit-append before max (set_asdu_handler ∷ calls) = last_limit-append before max calls

set_max_open_connections-told :
    (max : ℕ) (s : Slave)
    → last_limit 0 s.calls ≡ s.max_open_connections
    → last_limit 0 (set_max_open_connections max s).calls
      ≡ (set_max_open_connections max s).max_open_connections
unfolding set_max_open_connections
set_max_open_connections-told max s told = elim (Bool-cases (s.max_open_connections == max)) [
  | inl same ↦ rw same told
  | inr other ↦ rw other (last_limit-append 0 max s.calls)
]

all_set-told :
    (limits : List ℕ) (s : Slave)
    → last_limit 0 s.calls ≡ s.max_open_connections
    → last_limit 0 (all_set limits s).calls ≡ (all_set limits s).max_open_connections
unfolding all_set
all_set-told [] s told = told
all_set-told (max ∷ limits) s told =
    all_set-told limits (set_max_open_connections max s) (set_max_open_connections-told max s told)

-- Whatever limits are set on a new server, the library has the limit that the server has.
new_slave-told :
    (ip : Text) (port max_open_connections : ℕ) (secure : Bool) (limits : List ℕ)
    → let s = all_set limits (new_slave ip port max_open_connections secure) in
      last_limit 0 s.calls ≡ s.max_open_connections
unfolding new_slave
new_slave-told ip port max_open_connections true limits = all_set-told limits _ refl
new_slave-told ip port max_open_connections false limits = all_set-told limits _ refl
