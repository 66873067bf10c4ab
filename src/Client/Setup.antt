-- ===== src/Client/Setup.antt =====
-- The constructor of src/remote/Connection.cpp: its checks, the parameters of the link, and the calls of
-- the library that set it up, in order.
use Prim.Native.Nat.{max}
use iec104_python.Base.{
  ℕ, ◌/◌, Bool, not, ltb, if◌then◌else◌, List, [], ◌∷◌, ◌++◌, Option, none, some, Result, ok, err,
}
use iec104_python.Text.{Text, connection_string, is_valid_port}
use iec104_python.Address.Ip.{is_valid_ip}
use iec104_python.Connection.State.{ConnectionInit}
use iec104_python.Client.Remotes.{AddressError, invalid_ip, invalid_port}

-- In seconds: for the link to come up, for an acknowledgement, until one is sent, and until a test
-- frame is sent.
pub record ApciParameters : Type 0 where
  pub t0 : ℕ
  pub t1 : ℕ
  pub t2 : ℕ
  pub t3 : ℕ

pub data SetupCall : Type 0 where
  create_secure_link create_link : (ip : Text) → (port : ℕ) → SetupCall
  set_apci_parameters : Option ApciParameters → SetupCall
  set_app_layer_originator : ℕ → SetupCall
  set_raw_message_handler set_connection_handler set_asdu_received_handler : SetupCall

-- The parameters are those that are defined.
pub record Created : Type 0 where
  pub name : Text
  pub init : ConnectionInit
  pub parameters : Option ApciParameters
  pub calls : List SetupCall

-- The quotient is an integer, so that `round` has nothing to round; the cast of one that no `int` holds
-- has no defined result.
unfoldable pub apci_parameters : (command_timeout_ms : ℕ) → Option ApciParameters
apci_parameters command_timeout_ms =
    if ltb (command_timeout_ms / 1000) 2147483648
    then some (record { t0 = 2; t1 = max 1 (command_timeout_ms / 1000); t2 = 2; t3 = 20 })
    else none

unfoldable pub created :
    (ip : Text)
    → (port command_timeout_ms : ℕ) → ConnectionInit
    → (secure : Bool) → (originator_address : ℕ) → Created
unfolding apci_parameters connection_string
created ip port command_timeout_ms init secure originator_address = record {
  name = connection_string ip port;
  init = init;
  parameters = apci_parameters command_timeout_ms;
  calls =
      (if secure then create_secure_link ip port else create_link ip port)
        ∷ set_apci_parameters (apci_parameters command_timeout_ms)
        ∷ (if ltb 0 originator_address
            then set_app_layer_originator originator_address ∷ []
            else [])
      ++ (set_raw_message_handler ∷ set_connection_handler ∷ set_asdu_received_handler ∷ []);
}

unfoldable pub new_connection :
    (ip : Text)
    → (port command_timeout_ms : ℕ) → ConnectionInit
    → (secure : Bool) → (originator_address : ℕ) → Result AddressError Created
unfolding created
new_connection ip port command_timeout_ms init secure originator_address =
    if not (is_valid_ip ip)
    then err invalid_ip
    else if not (is_valid_port port)
    then err invalid_port
    else ok (created ip port command_timeout_ms init secure originator_address)
