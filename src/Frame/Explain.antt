-- ===== src/Frame/Explain.antt =====
-- The octets of a message as Python gets them, and the text that Python gets of octets:
-- `IncomingMessage_getRawBytes` and `explain_bytes` of src/main.cpp.
use iec104_python.Base.{
  ℕ, ◌+◌, ◌*◌, ◌/◌, ◌%◌, ◌≤◌, ◌≡◌, ◌∙◌, refl, ap, arith, ltb, lt→ltb, if◌then◌else◌, List, [], ◌∷◌,
  ◌++◌, Option, none, some, length, get_or, take, take-length, drop,
}
use iec104_python.Text.{Text, codes, to_string}
use iec104_python.Message.Incoming.{IncomingMessage}
use iec104_python.Frame.Encode.{written_octets}
use iec104_python.Frame.Decode.{first_object}
use iec104_python.Frame.RoundTrip.{IsNarrow, structure-read, cause-read}
use iec104_python.Frame.Format.{
  Names, hex_text, noted, objects_text, address_text, elements_text, information_text, message_text,
}

-- `unsigned char msgSize = 2 + msg[1];`, of the octets as they are written.
unfoldable pub python_bytes : IncomingMessage → (payload : List ℕ) → List ℕ
unfolding written_octets
python_bytes m payload = let msg = written_octets m payload in take ((2 + get_or msg 1 0) % 256) msg

-- The length is cut to an `unsigned char`.
unfoldable pub explain_bytes : Names → (octets : List ℕ) → Text
explain_bytes names octets = message_text names octets (length octets % 256)

-- `getRawMessageString` of src/remote/message/IncomingMessage.cpp, with the same size.
unfoldable pub raw_message_string : Names → IncomingMessage → (payload : List ℕ) → Text
raw_message_string names m payload =
    message_text names (written_octets m payload)
      ((2 + get_or (written_octets m payload) 1 0) % 256)

-- The text of a message, by its fields.
abbrev first_text : Option ℕ → Text
first_text none = []
first_text (some address) = codes " | 1st IOA " ++ to_string address

abbrev payload_text : IncomingMessage → (payload : List ℕ) → Text
payload_text m [] = []
payload_text m (octet ∷ octets) =
    first_text (first_object (octet ∷ octets))
    ++ objects_text m.sequence m.number_of_object
    ++ codes " ("
    ++ hex_text (octet ∷ octets)
    ++ codes ")"

abbrev pub description : Names → IncomingMessage → (payload : List ℕ) → Text
description names m payload =
    codes "I-Format"
    ++ (codes " | " ++ names.type_name m.type)
    ++ (codes " | " ++ names.cause_name m.cot)
    ++ (if m.negative then codes " | NEGATIVE" else codes " | POSITIVE")
    ++ noted m.test (codes " | TEST")
    ++ address_text m.ca
    ++ noted (ltb 0 m.oa) (codes " | OA " ++ to_string m.oa)
    ++ payload_text m payload

sized :
    (m : IncomingMessage) (payload : List ℕ)
    → length payload ≤ 243
    → (2 + get_or (written_octets m payload) 1 0) % 256 ≡ length (written_octets m payload)
unfolding written_octets
sized m payload fits = omega (arith, fits)

-- What Python gets is the whole message while the payload has at most 243 octets.
python_bytes-written_octets :
    (m : IncomingMessage) (payload : List ℕ)
    → length payload ≤ 243
    → python_bytes m payload ≡ written_octets m payload
unfolding python_bytes written_octets
python_bytes-written_octets m payload fits =
    rw (sized m payload fits) (take-length (written_octets m payload))

-- The elements of the whole message are the payload, and the two tests of the size ask for its length.
raw_elements :
    (m : IncomingMessage) (payload : List ℕ)
    → drop 12 (take (length (written_octets m payload)) (written_octets m payload)) ≡ payload
unfolding written_octets
raw_elements m payload = ap (λ xs. drop 12 xs) (take-length (written_octets m payload))

raw_longer :
    (m : IncomingMessage) (payload : List ℕ) (n : ℕ)
    → ltb (12 + n) (length (written_octets m payload)) ≡ ltb n (length payload)
unfolding written_octets
raw_longer m payload n = ground arith

payload_as_read :
    (m : IncomingMessage) (payload : List ℕ)
    → noted (ltb 0 (length payload)) (
        noted (ltb 2 (length payload)) (
          codes " | 1st IOA "
          ++ to_string (get_or payload 0 0 + get_or payload 1 0 * 256 + get_or payload 2 0 * 65536))
        ++ objects_text m.sequence m.number_of_object
        ++ codes " ("
        ++ hex_text payload
        ++ codes ")")
      ≡ payload_text m payload
payload_as_read m [] = refl
payload_as_read m (a ∷ []) = refl
payload_as_read m (a ∷ b ∷ []) = refl
payload_as_read m (a ∷ b ∷ c ∷ payload) =
    let filled = lt→ltb 0 (length (a ∷ b ∷ c ∷ payload)) (omega arith) in
    let addressed = lt→ltb 2 (length (a ∷ b ∷ c ∷ payload)) (omega arith) in
    rw (filled, addressed) refl

objects_as_read :
    (m : IncomingMessage) (payload : List ℕ)
    → IsNarrow m
    → elements_text (written_octets m payload) (length (written_octets m payload))
      ≡ payload_text m payload
unfolding elements_text written_octets
objects_as_read m payload narrow =
    let (number, sequence) = structure-read m.number_of_object m.sequence narrow.number_7_bits in
    rw (raw_elements m payload, raw_longer m payload 0, raw_longer m payload 2, number, sequence)
      (payload_as_read m payload)

information_as_read :
    (names : Names) (m : IncomingMessage) (payload : List ℕ)
    → IsNarrow m
    → information_text names (written_octets m payload) (length (written_octets m payload))
      ≡ description names m payload
unfolding information_text written_octets
information_as_read names m payload narrow =
    let (cot, test, negative) = cause-read m.cot m.test m.negative narrow.cot_6_bits in
    let type : m.type % 256 ≡ m.type = omega (arith, narrow.type_octet) in
    let ca : m.ca % 256 + m.ca / 256 % 256 * 256 ≡ m.ca = omega (arith, narrow.ca_two_octets) in
    rw (objects_as_read m payload narrow, cot, test, negative, type, ca) refl

raw_length :
    (m : IncomingMessage) (payload : List ℕ)
    → length payload ≤ 243
    → length (written_octets m payload) % 256 ≡ length (written_octets m payload)
unfolding written_octets
raw_length m payload fits = omega (arith, fits)

-- The format octet is 0.
text_of_raw :
    (names : Names) (m : IncomingMessage) (payload : List ℕ) (size : ℕ)
    → message_text names (written_octets m payload) size
      ≡ information_text names (written_octets m payload) size
unfolding message_text written_octets
text_of_raw names m payload size = refl

-- The text that Python gets of the octets of a received message, which it has from `IncomingMessage.raw`,
-- is the description of the message by its fields: its type, cause, sign, test bit, addresses, objects
-- and payload. So is the text that the message itself gives. The type is an octet, the number of objects
-- has 7 bits, the cause 6, the common address two octets, and the payload has at most 243 octets.
pub explain_bytes-python_bytes :
    (names : Names) (m : IncomingMessage) (payload : List ℕ)
    → IsNarrow m
    → length payload ≤ 243
    → (explain_bytes names (python_bytes m payload) ≡ description names m payload)
      × (raw_message_string names m payload ≡ description names m payload)
unfolding explain_bytes raw_message_string
explain_bytes-python_bytes names m payload narrow fits =
    let described =
      text_of_raw names m payload (length (written_octets m payload))
      ∙ information_as_read names m payload narrow in
    (
      rw (python_bytes-written_octets m payload fits, raw_length m payload fits) described,
      rw (sized m payload fits) described,
    )
