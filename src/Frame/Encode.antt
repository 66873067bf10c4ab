-- ===== src/Frame/Encode.antt =====
-- `getRawBytes` of src/remote/message/IncomingMessage.cpp.
-- The parameters of the application layer are those of IEC 60870-5-104, two octets for the cause of
-- transmission and two for the common address. The payload is what lib60870-C holds of the ASDU.
use Prim.Native.Nat.{bit_and, bit_or}
use iec104_python.Base.{
  ℕ, ◌+◌, ◌/◌, ◌%◌, Bool, if◌then◌else◌, List, [], ◌∷◌, ◌++◌, length, take, Option, none, some, ltb,
}
use iec104_python.Message.Incoming.{IncomingMessage}

abbrev pub structure_octet : ℕ → Bool → ℕ
structure_octet number sequence = if sequence then bit_or number 0x80 else number

abbrev pub test_octet : ℕ → Bool → ℕ
test_octet octet test = if test then bit_or octet 0x80 else octet

abbrev pub negative_octet : ℕ → Bool → ℕ
negative_octet octet negative = if negative then bit_or octet 0x40 else octet

abbrev pub cause_octet : ℕ → (test negative : Bool) → ℕ
cause_octet cot test negative = negative_octet (test_octet (bit_and cot 0x3f) test) negative

-- The size of the array: `unsigned char` arithmetic.
unfoldable pub raw_size : (payload_size : ℕ) → ℕ
raw_size payload_size = (6 + 6 + payload_size % 256) % 256

-- The octets that are written, also past the end of the array. The four control octets are 0.
unfoldable pub written_octets : IncomingMessage → (payload : List ℕ) → List ℕ
written_octets m payload =
    (104
      ∷ (4 + 6 + length payload) % 256
      ∷ 0
      ∷ 0
      ∷ 0
      ∷ 0
      ∷ m.type % 256
      ∷ structure_octet m.number_of_object m.sequence
      ∷ cause_octet m.cot m.test m.negative
      ∷ m.oa
      ∷ m.ca % 0x100
      ∷ m.ca / 0x100 % 256
      ∷ [])
    ++ payload

-- The array, or none where the copy overruns it. The loop copies as many octets as an `unsigned char`
-- counts.
unfoldable pub raw_bytes : IncomingMessage → (payload : List ℕ) → Option (List ℕ)
unfolding raw_size written_octets
raw_bytes m payload =
    let copied = length payload % 256 in
    if ltb (raw_size (length payload)) (12 + copied)
    then none
    else some (written_octets m (take copied payload))
