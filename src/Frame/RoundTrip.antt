-- ===== src/Frame/RoundTrip.antt =====
-- What is read from the octets of a message is the message.
use Prim.Native.Nat.{bit_and}
use iec104_python.Base.{
  ℕ, ◌+◌, ◌*◌, ◌/◌, ◌%◌, ◌≤◌, ◌<◌, ◌≡◌, ◌↔◌, refl, ap, Bool, true, false, not, ◌==◌, ◌&&◌, List,
  length, get_or, arith, table, table-entry, some, ltb, take-length,
}
use iec104_python.Message.Incoming.{IncomingMessage}
use iec104_python.Frame.Encode.{structure_octet, cause_octet, raw_size, written_octets, raw_bytes}
use iec104_python.Frame.Decode.{information, flag, first_object, read_information, read_frame}

abbrev agree : Bool → Bool → Bool
agree true b = b
agree false b = not b

abbrev structure_fits : Bool → ℕ → Bool
structure_fits sequence n =
    (bit_and (structure_octet n sequence) 0x7f == n)
    && agree sequence (flag (structure_octet n sequence) 0x80)

abbrev cause_fits : Bool → Bool → ℕ → Bool
cause_fits test negative c =
    (bit_and (cause_octet c test negative) 0x3f == c)
    && agree test (flag (cause_octet c test negative) 0x80)
    && agree negative (flag (cause_octet c test negative) 0x40)

structures_fit : table (λ n. structure_fits true n && structure_fits false n) 128 ≡ true
unfolding table
structures_fit = refl

causes_fit :
    table
      (λ c.
        cause_fits true true c
        && cause_fits true false c
        && cause_fits false true c
        && cause_fits false false c)
      64
    ≡ true
unfolding table
causes_fit = refl

pub structure-read :
    (n : ℕ) (sequence : Bool)
    → n < 128
    → (bit_and (structure_octet n sequence) 0x7f ≡ n)
      × (flag (structure_octet n sequence) 0x80 ≡ sequence)
structure-read n sequence lt = ground (
  arith,
  table-entry (λ n. structure_fits true n && structure_fits false n) 128 lt structures_fit,
)

pub cause-read :
    (c : ℕ) (test negative : Bool)
    → c < 64
    → (bit_and (cause_octet c test negative) 0x3f ≡ c)
      × (flag (cause_octet c test negative) 0x80 ≡ test)
      × (flag (cause_octet c test negative) 0x40 ≡ negative)
cause-read c test negative lt = ground (
  arith,
  table-entry
      (λ c.
        cause_fits true true c
        && cause_fits true false c
        && cause_fits false true c
        && cause_fits false false c)
      64 lt causes_fit,
)

-- A message whose fields have the widths of the protocol.
pub record IsNarrow (m : IncomingMessage) : Type 0 where
  pub type_octet : m.type < 256
  pub number_7_bits : m.number_of_object < 128
  pub cot_6_bits : m.cot < 64
  pub ca_two_octets : m.ca < 65536

information-written_octets :
    (m : IncomingMessage) (payload : List ℕ)
    → IsNarrow m
    → read_information (written_octets m payload) ≡ record {
      tx = 0;
      rx = 0;
      type = m.type;
      number_of_objects = m.number_of_object;
      sequence = m.sequence;
      cot = m.cot;
      negative = m.negative;
      test = m.test;
      common_address = m.ca;
      originator_address = m.oa;
      first_address = first_object payload;
      elements = payload;
    }
unfolding read_information written_octets
information-written_octets m payload narrow =
    let (number, sequence) = structure-read m.number_of_object m.sequence narrow.number_7_bits in
    let (cot, test, negative) = cause-read m.cot m.test m.negative narrow.cot_6_bits in
    let type : m.type % 256 ≡ m.type = omega (arith, narrow.type_octet) in
    let ca : m.ca % 256 + m.ca / 256 % 256 * 256 ≡ m.ca = omega (arith, narrow.ca_two_octets) in
    simp (number, sequence, cot, test, negative, type, ca)

ltb-same : (n : ℕ) → ltb n n ≡ false
ltb-same n = ground arith

raw_bytes-written_octets :
    (m : IncomingMessage) (payload : List ℕ)
    → length payload ≤ 243
    → raw_bytes m payload ≡ some (written_octets m payload)
unfolding raw_bytes raw_size
raw_bytes-written_octets m payload fits =
    let copied : length payload % 256 ≡ length payload = omega (arith, fits) in
    let size : (6 + 6 + length payload) % 256 ≡ 12 + length payload = omega (arith, fits) in
    rw (copied, size, ltb-same (12 + length payload), take-length payload) refl

read_frame-written_octets :
    (m : IncomingMessage) (payload : List ℕ)
    → IsNarrow m
    → read_frame (written_octets m payload)
      ≡ information (record {
        tx = 0;
        rx = 0;
        type = m.type;
        number_of_objects = m.number_of_object;
        sequence = m.sequence;
        cot = m.cot;
        negative = m.negative;
        test = m.test;
        common_address = m.ca;
        originator_address = m.oa;
        first_address = first_object payload;
        elements = payload;
      })
unfolding read_frame written_octets
read_frame-written_octets m payload narrow =
    ap information (information-written_octets m payload narrow)

-- A received message that is written out with `getRawBytes` and read with
-- `rawMessageDictionaryFormatter` is an I frame with the type, the number of objects, the sequence,
-- test and negative bits, the cause, the addresses and the payload of the message, and with the
-- sequence numbers 0. The type is an octet, the number of objects has 7 bits, the cause 6, the common
-- address two octets, and the payload has at most 243 octets, so that the array holds it.
pub read_frame-raw_bytes :
    (m : IncomingMessage) (payload : List ℕ)
    → IsNarrow m
    → length payload ≤ 243
    → (octets : List ℕ) × (raw_bytes m payload ≡ some octets)
      × (read_frame octets
          ≡ information (record {
            tx = 0;
            rx = 0;
            type = m.type;
            number_of_objects = m.number_of_object;
            sequence = m.sequence;
            cot = m.cot;
            negative = m.negative;
            test = m.test;
            common_address = m.ca;
            originator_address = m.oa;
            first_address = first_object payload;
            elements = payload;
          }))
read_frame-raw_bytes m payload narrow fits = (
  written_octets m payload,
  raw_bytes-written_octets m payload fits,
  read_frame-written_octets m payload narrow,
)

-- The octets that `getRawBytes` writes fill its array exactly if the payload has at most 243 octets;
-- the size is computed in 8 bits, and a longer payload, of up to 255, overruns the array. The second
-- octet counts those that follow it exactly if the payload has at most 245 octets.
raw_size-length :
    (m : IncomingMessage) (payload : List ℕ)
    → length payload < 256
    → ((raw_size (length payload) ≡ length (written_octets m payload)) ↔ (length payload ≤ 243))
      × ((get_or (written_octets m payload) 1 0 + 2 ≡ length (written_octets m payload))
          ↔ (length payload ≤ 245))
unfolding raw_size written_octets
raw_size-length m payload lt =
    ((λ e. omega (arith, e), λ h. omega (arith, h)), (λ e. omega (arith, e), λ h. omega (arith, h)))
