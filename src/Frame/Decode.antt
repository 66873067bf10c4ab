-- ===== src/Frame/Decode.antt =====
-- `rawMessageDictionaryFormatter` of src/remote/Helper.cpp: the entries of the dictionary.
-- An octet past the end of the message is read as 0; the code reads the memory behind the array.
use Prim.Native.Nat.{bit_and}
use iec104_python.Base.{
  ℕ, ◌+◌, ◌*◌, ◌/◌, Bool, true, false, not, ◌==◌, if◌then◌else◌, List, ◌∷◌, Option, none, some,
  get_or, drop,
}

-- The control functions of a U frame; `confirmed` says whether its cause is CON.
pub data ControlFunction : Type 0 where
  start_dt stop_dt test_fr : (confirmed : Bool) → ControlFunction

pub record Information : Type 0 where
  pub tx : ℕ
  pub rx : ℕ
  pub type : ℕ
  pub number_of_objects : ℕ
  pub sequence : Bool
  pub cot : ℕ
  pub negative : Bool
  pub test : Bool
  pub common_address : ℕ
  pub originator_address : ℕ
  pub first_address : Option ℕ
  pub elements : List ℕ

pub data Frame : Type 0 where
  unnumbered : Option ControlFunction → Frame
  supervisory : (rx : ℕ) → Frame
  information : Information → Frame

abbrev pub flag : ℕ → ℕ → Bool
flag octet mask = not (bit_and octet mask == 0)

-- Of several bits, the last one tested names the function.
unfoldable pub control_function : ℕ → Option ControlFunction
control_function octet =
    if flag octet 0x80
    then some (test_fr true)
    else if flag octet 0x40
    then some (test_fr false)
    else if flag octet 0x20
    then some (stop_dt true)
    else if flag octet 0x10
    then some (stop_dt false)
    else if flag octet 0x08
    then some (start_dt true)
    else if flag octet 0x04
    then some (start_dt false)
    else none

abbrev pub first_object : List ℕ → Option ℕ
first_object (a ∷ b ∷ c ∷ rest) = some (a + b * 256 + c * 65536)
first_object _ = none

unfoldable pub read_information : List ℕ → Information
read_information msg = record {
  tx = (get_or msg 2 0 + get_or msg 3 0 * 256) / 2;
  rx = (get_or msg 4 0 + get_or msg 5 0 * 256) / 2;
  type = get_or msg 6 0;
  number_of_objects = bit_and (get_or msg 7 0) 0x7f;
  sequence = flag (get_or msg 7 0) 0x80;
  cot = bit_and (get_or msg 8 0) 0x3f;
  negative = flag (get_or msg 8 0) 0x40;
  test = flag (get_or msg 8 0) 0x80;
  common_address = get_or msg 10 0 + get_or msg 11 0 * 256;
  originator_address = get_or msg 9 0;
  first_address = first_object (drop 12 msg);
  elements = drop 12 msg;
}

unfoldable pub read_frame : List ℕ → Frame
unfolding control_function read_information
read_frame msg =
    if flag (get_or msg 2 0) 0x01
    then if flag (get_or msg 2 0) 0x02
      then unnumbered (control_function (get_or msg 2 0))
      else supervisory ((get_or msg 4 0 + get_or msg 5 0 * 256) / 2)
    else information (read_information msg)
