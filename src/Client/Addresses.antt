-- ===== src/Client/Addresses.antt =====
-- The connections of src/Client.cpp by their address and port.
use iec104_python.Base.{
  ℕ, ◌^◌, ◌<◌, ◌≡◌, ◌∙◌, subst, refl, Bool-cases, inl, inr, Bool, true, false, not, ◌&&◌, ◌==◌,
  if◌then◌else◌, List, Option, none, some, Result, ok, err,
}
use iec104_python.Text.{
  Text, same_text, same_text-eq, NoColon, connection_string, port_or_default, is_valid_port,
  same_text-connection_string,
}
use iec104_python.Address.Ip.{is_valid_ip}
use iec104_python.Address.Colons.{is_valid_ip-NoColon}
use iec104_python.Connection.State.{ConnectionInit}
use iec104_python.Client.Remotes.{
  Remote, Client, find_remote, has_remote, append_connection, get_connection, AddressError,
  add_connection,
}
use iec104_python.Client.Stopping.{DistinctRemotes, append_connection-lookup}

-- The connection that a call has added.
abbrev pub added : Result AddressError (Option Remote) → Option Remote
added (ok made) = made
added (err e) = none

abbrev pub accepts : (ip : Text) → (port : ℕ) → Client → Bool
accepts ip port client =
    not (has_remote (get_connection ip port client)) && is_valid_ip ip && is_valid_port port

or_none : (o : Option Remote) → (if has_remote o then o else none) ≡ o
or_none none = refl
or_none (some r) = refl

-- A lookup after the name was free and its connection appended.
appended_lookup :
    (same : Bool) (name other : Text) (rs : List Remote) (made : Option Remote)
    → same_text name other ≡ same
    → has_remote (find_remote name rs) ≡ false
    → (if has_remote (find_remote other rs)
        then find_remote other rs
        else if same_text name other
        then made
        else none)
      ≡ (if same then made else find_remote other rs)
appended_lookup true name other rs made h free =
    let e = same_text-eq name other h in
    let free' = subst (λ t. has_remote (find_remote t rs) ≡ false) e free in rw (free', h) refl
appended_lookup false name other rs made h free = rw h (or_none (find_remote other rs))

-- Adding a connection succeeds exactly if there is none for the address and the port yet, where port 0
-- stands for 2404, and both are valid. From then on a lookup of that address and port finds the new
-- connection, and any other lookup finds what it found before. The other address has no colon, and
-- ports fit into 64 bits.
pub add_connection-get_connection :
    (ip other : Text) (port q : ℕ) (init : ConnectionInit) (client : Client)
    → DistinctRemotes client.remotes
    → NoColon other
    → port < 2 ^ 64
    → q < 2 ^ 64
    → let (client', result) = add_connection ip port init client in
      DistinctRemotes client'.remotes
      × (has_remote (added result) ≡ accepts ip port client)
      × (get_connection other q client' ≡ (
          if has_remote (added result)
            && same_text ip other
            && (port_or_default port == port_or_default q)
          then added result
          else get_connection other q client))
unfolding add_connection get_connection append_connection
add_connection-get_connection ip other port q init client d k n m =
    let name = connection_string ip port in
    let wanted = connection_string other q in
    let made = (append_connection name init client).1 in
    let (distinct, fresh, found) = append_connection-lookup name wanted init client d in
    elim (Bool-cases (has_remote (find_remote name client.remotes))) [
      | inl taken ↦ rw taken (d, refl, refl)
      | inr free ↦ elim (Bool-cases (is_valid_ip ip)) [
        | inr bad_ip ↦ rw (free, bad_ip) (d, refl, refl)
        | inl good_ip ↦ elim (Bool-cases (is_valid_port port)) [
          | inr bad_port ↦ rw (free, good_ip, bad_port) (d, refl, refl)
          | inl good_port ↦
              let plain = is_valid_ip-NoColon ip good_ip in
              let same = same_text-connection_string ip other port q plain k n m in
              let lookup =
                appended_lookup (same_text ip other && (port_or_default port == port_or_default q))
                  name wanted client.remotes made same free in
              let result = found ∙ lookup in
              rw (free, good_ip, good_port) (rw free at distinct, refl, rw free at result)
        ]
      ]
    ]
