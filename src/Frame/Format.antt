-- ===== src/Frame/Format.antt =====
-- `rawMessageFormatter` of src/remote/Helper.cpp: the text of a packet.
-- How the library names types and causes is an argument. As in Decode, an octet past the end of the
-- message is read as 0.
use Prim.Native.Nat.{bit_and}
use iec104_python.Base.{
  ℕ, ◌+◌, ◌*◌, ◌/◌, ◌%◌, Bool, true, false, ◌==◌, ltb, if◌then◌else◌, List, [], ◌∷◌, ◌++◌, take,
  drop, get_or,
}
use iec104_python.Text.{Text, codes, to_string}
use iec104_python.Frame.Decode.{flag}

-- `TypeID_toString` and `CS101_CauseOfTransmission_toString` of the library.
pub record Names : Type 0 where
  pub type_name : ℕ → Text
  pub cause_name : ℕ → Text

abbrev pub hex_digit : ℕ → ℕ
hex_digit n = if ltb n 10 then b'0' + n else 87 + n

-- `snprintf(buffer, 5, "%02x ", octet)`
abbrev pub hex_octet : ℕ → Text
hex_octet octet = hex_digit (octet / 16) ∷ hex_digit (octet % 16) ∷ b' ' ∷ []

unfoldable pub hex_text : List ℕ → Text
hex_text [] = []
hex_text (octet ∷ octets) = hex_octet octet ++ hex_text octets

-- `if (test) s += t;`
abbrev pub noted : Bool → Text → Text
noted true t = t
noted false t = []

unfoldable pub unnumbered_text : (octet : ℕ) → Text
unnumbered_text octet =
    codes "U-Format"
    ++ noted (flag octet 0x04) (codes " | StartDT act")
    ++ noted (flag octet 0x08) (codes " | StartDT con")
    ++ noted (flag octet 0x10) (codes " | StopDT act")
    ++ noted (flag octet 0x20) (codes " | StopDT con")
    ++ noted (flag octet 0x40) (codes " | TestFR act")
    ++ noted (flag octet 0x80) (codes " | TestFR con")

unfoldable pub objects_text : (sequence : Bool) → (number : ℕ) → Text
objects_text sequence number =
    let listed = if sequence then codes " | SEQUENCE[" else codes " | LIST[" in
    noted (ltb 0 number) (listed ++ to_string number ++ codes "]")

-- From the object offset 12 on; `size` is the number of octets of the message.
unfoldable pub elements_text : (msg : List ℕ) → (size : ℕ) → Text
elements_text msg size =
    let first = get_or msg 12 0 + get_or msg 13 0 * 256 + get_or msg 14 0 * 65536 in
    noted (ltb 12 size) (
      noted (ltb 14 size) (codes " | 1st IOA " ++ to_string first)
      ++ objects_text (flag (get_or msg 7 0) 0x80) (bit_and (get_or msg 7 0) 0x7f)
      ++ codes " ("
      ++ hex_text (drop 12 (take size msg))
      ++ codes ")")

abbrev pub address_text : ℕ → Text
address_text ca = if ca == 0xffff then codes " | GLOBAL" else codes " | CA " ++ to_string ca

unfoldable pub information_text : Names → (msg : List ℕ) → (size : ℕ) → Text
information_text names msg size =
    codes "I-Format"
    ++ (codes " | " ++ names.type_name (get_or msg 6 0))
    ++ (codes " | " ++ names.cause_name (bit_and (get_or msg 8 0) 0x3f))
    ++ (if flag (get_or msg 8 0) 0x40 then codes " | NEGATIVE" else codes " | POSITIVE")
    ++ noted (flag (get_or msg 8 0) 0x80) (codes " | TEST")
    ++ address_text (get_or msg 10 0 + get_or msg 11 0 * 256)
    ++ noted (ltb 0 (get_or msg 9 0)) (codes " | OA " ++ to_string (get_or msg 9 0))
    ++ elements_text msg size

unfoldable pub message_text : Names → (msg : List ℕ) → (size : ℕ) → Text
message_text names msg size =
    if flag (get_or msg 2 0) 0x01
    then if flag (get_or msg 2 0) 0x02 then unnumbered_text (get_or msg 2 0) else codes "S-Format"
    else information_text names msg size
