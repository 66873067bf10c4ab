-- ===== src/Client/Stopping.antt =====
-- What stopping, adding and renaming do to the connections of src/Client.cpp.
use iec104_python.Base.{
  ℕ, ◌≡◌, refl, false, not, if◌then◌else◌, List, [], ◌∷◌, ◌++◌, map, none, some, arith, All,
}
use iec104_python.Connection.State.{ConnectionInit}
use iec104_python.Connection.Link.{disconnect}
use iec104_python.Connection.Safety.{Input, run, starts, IsDown, disconnect-IsDown_forever}
use iec104_python.Text.{same_text, same_text-eq, same_text_refl}
use iec104_python.Client.Remotes.{
  Remote, Client, find_remote, new_remote, has_remote, append_connection, on_link, stop,
}
use iec104_python.Client.Loop.{tick}

stopped_links :
    (is : List Input) (rs : List Remote)
    → All (λ i. starts i ≡ false) is
    → All (λ r. IsDown (run is r.link).state) (map (on_link disconnect) rs)
stopped_links is [] q = tt
stopped_links is (r ∷ rs) q = (disconnect-IsDown_forever is r.link q, stopped_links is rs q)

-- After `stop` the loop does nothing, and every connection stays closed or closing, whatever the
-- library still reports, short of a link newly opened, until `connect` is called.
pub stop-AllDown :
    (is : List Input) (client : Client)
    → All (λ i. starts i ≡ false) is
    → (tick (stop client) ≡ stop client)
      × All (λ r. IsDown (run is r.link).state) (stop client).remotes
unfolding stop tick
stop-AllDown is client q = (refl, stopped_links is client.remotes q)

abbrev pub DistinctRemotes : List Remote → Type 0
DistinctRemotes [] = Unit {0}
DistinctRemotes (r ∷ rs) = (find_remote r.name rs ≡ none) × DistinctRemotes rs

find_remote-append :
    (name : List ℕ) (rs : List Remote) (r : Remote)
    → find_remote name (rs ++ r ∷ []) ≡ (
        if has_remote (find_remote name rs)
        then find_remote name rs
        else if same_text r.name name
        then some r
        else none)
unfolding find_remote
find_remote-append name [] r = refl
find_remote-append name (q ∷ rs) r = ground (arith, find_remote-append name rs r)

find_remote-append_free :
    (name : List ℕ) (rs : List Remote) (r : Remote)
    → has_remote (find_remote name rs) ≡ false
    → find_remote name rs ≡ none
find_remote-append_free name rs r h = ground arith

append-DistinctRemotes :
    (rs : List Remote) (r : Remote)
    → find_remote r.name rs ≡ none
    → DistinctRemotes rs
    → DistinctRemotes (rs ++ r ∷ [])
unfolding find_remote
append-DistinctRemotes [] r h d = (refl, tt)
append-DistinctRemotes (q ∷ rs) r h d =
    let free : same_text r.name q.name ≡ false =
      ground (arith, same_text-eq r.name q.name, same_text_refl q.name) in
    ground (arith, append-DistinctRemotes rs r, find_remote-append q.name rs r, free)

-- `addConnection` keeps the names of the connections distinct. A name that is free gets a connection,
-- which a lookup then finds; for one in use the call returns none, and in both cases every name in
-- use keeps its connection.
pub append_connection-lookup :
    (name other : List ℕ) (init : ConnectionInit) (client : Client)
    → DistinctRemotes client.remotes
    → let (client', made) = append_connection name init client in
      DistinctRemotes client'.remotes
      × (has_remote made ≡ not (has_remote (find_remote name client.remotes)))
      × (find_remote other client'.remotes ≡ (
          if has_remote (find_remote other client.remotes)
          then find_remote other client.remotes
          else if same_text name other
          then made
          else none))
unfolding append_connection
append_connection-lookup name other init client d =
    let made = new_remote name init client.originator_address in
    ground (
      arith,
      append-DistinctRemotes client.remotes made,
      find_remote-append other client.remotes made,
      find_remote-append_free name client.remotes made,
    )
