-- ===== src/Client/Timeouts.antt =====
-- The timeouts of the links that src/remote/Connection.cpp sets up.
use iec104_python.Base.{
  ℕ, ◌+◌, ◌*◌, ◌≤◌, ◌<◌, ◌≡◌, ◌⊎◌, ◌↔◌, inl, inr, refl, arith, Bool, Bool-cases, true, false, ◌&&◌,
  Option, none, some, Result, ok, err,
}
use iec104_python.Text.{Text, connection_string, is_valid_port}
use iec104_python.Address.Ip.{is_valid_ip}
use iec104_python.Connection.State.{ConnectionInit}
use iec104_python.Client.Remotes.{AddressError}
use iec104_python.Client.Setup.{ApciParameters, Created, apci_parameters, created, new_connection}

-- t1 is the command timeout in whole seconds, and at least one; the seconds fit into an `int`, or the
-- parameters are undefined.
abbrev pub IsTimed : (command_timeout_ms : ℕ) → Option ApciParameters → Type 0
IsTimed command_timeout_ms none = 2147483648000 ≤ command_timeout_ms
IsTimed command_timeout_ms (some parameters) =
    (command_timeout_ms < 2147483648000)
    × (parameters.t1 < 2147483648)
    × (parameters.t1 * 1000 < command_timeout_ms + 1001)
    × (command_timeout_ms < parameters.t1 * 1000 + 1000)
    × (1 ≤ parameters.t1)
    × ((parameters.t2 < parameters.t1) ↔ (3000 ≤ command_timeout_ms))

abbrev pub IsSetUp :
    (ip : Text) → (port command_timeout_ms : ℕ) → Result AddressError Created → Type 0
IsSetUp ip port command_timeout_ms (err e) = (is_valid_ip ip && is_valid_port port) ≡ false
IsSetUp ip port command_timeout_ms (ok c) =
    ((is_valid_ip ip && is_valid_port port) ≡ true)
    × (c.name ≡ connection_string ip port)
    × IsTimed command_timeout_ms c.parameters

apci_parameters-IsTimed :
    (command_timeout_ms : ℕ) → IsTimed command_timeout_ms (apci_parameters command_timeout_ms)
unfolding apci_parameters
apci_parameters-IsTimed command_timeout_ms = ground arith

both_true : (a b : Bool) → a ≡ true → b ≡ true → (a && b) ≡ true
both_true a b h k = ground arith

not_both : (a b : Bool) → (a ≡ false) ⊎ (b ≡ false) → (a && b) ≡ false
not_both a b (inl h) = ground arith
not_both a b (inr h) = ground arith

-- A connection is set up exactly for a valid address and a valid port, under the name of both. The time
-- t1 for an acknowledgement is the command timeout without its fraction of a second, but at least a
-- second; it exceeds the time t2 until an acknowledgement is sent, as the protocol wants it, exactly for
-- command timeouts of at least three seconds. Command timeouts from 2147483648000 ms on have no defined
-- parameters, since no `int` holds their seconds.
pub new_connection-IsSetUp :
    (ip : Text) (port command_timeout_ms : ℕ) (init : ConnectionInit) (secure : Bool)
    (originator_address : ℕ)
    → IsSetUp ip port command_timeout_ms
        (new_connection ip port command_timeout_ms init secure originator_address)
unfolding new_connection created
new_connection-IsSetUp ip port command_timeout_ms init secure originator_address =
    elim (Bool-cases (is_valid_ip ip)) [
      | inr bad ↦ rw bad (not_both (is_valid_ip ip) (is_valid_port port) (inl bad))
      | inl good ↦ elim (Bool-cases (is_valid_port port)) [
        | inr bad ↦ rw (good, bad) (not_both (is_valid_ip ip) (is_valid_port port) (inr bad))
        | inl fits ↦
            rw (good, fits)
              (
                both_true (is_valid_ip ip) (is_valid_port port) good fits,
                refl,
                apci_parameters-IsTimed command_timeout_ms,
              )
      ]
    ]
