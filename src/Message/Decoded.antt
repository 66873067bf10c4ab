-- ===== src/Message/Decoded.antt =====
-- What a point makes of an object that `extractInformationObject` has read.
use iec104_python.Base.{
  ℕ, ◌≡◌, ◌≢◌, ◌↔◌, ◌⊎◌, refl, Bool, true, false, ◌==◌, ◌&&◌, elem, if◌then◌else◌, List, [], ◌∷◌,
  some, pos, negsuc, ℤ, arith, All-elem,
}
use iec104_python.Protocol.{TypeId}
use iec104_python.Value.{Double, int, double_eq, double_le}
use iec104_python.Point.Data.{DataPoint}
use iec104_python.Point.Update.{
  ValueKind, single, command_double, bits, normalized, scaled, short_float, unchecked, kind_of,
  is_rejected, Received, OnReceive, on_receive, set_value_ex,
}
use iec104_python.Point.Domain.{InDomain, IsAccepted, is_rejected_iff}
use iec104_python.Message.Objects.{command_types}
use iec104_python.Message.Elements.{
  Element, Extracted, Reading, measured, single_command, double_command, step_command,
  normalized_command, scaled_command, short_command, bit_command, reading_of, read_element,
  extract_object,
}

-- What `onReceive` reads of the message after the extraction.
abbrev pub received_of : Extracted → Received
received_of x = record { value = x.value; quality = x.quality; updated_at = x.updated_at }

-- The quality that a point of a kind has after a value came with a quality.
abbrev quality_after : ValueKind → Double → ℕ → ℕ
quality_after k x q = if (q == 0) && is_rejected k x then 128 else q

quality-on_receive :
    (now : ℕ) (callback : OnReceive) (r : Received) (p : DataPoint)
    → (on_receive now callback r p).0.quality ≡ quality_after (kind_of p.type) r.value r.quality
unfolding on_receive set_value_ex
quality-on_receive now callback r p = ground arith

-- The monitoring types that carry a value with a quality.
abbrev pub measured_types : List TypeId
measured_types = 1 ∷ 3 ∷ 5 ∷ 7 ∷ 9 ∷ 11 ∷ 13 ∷ 30 ∷ 31 ∷ 32 ∷ 33 ∷ 34 ∷ 35 ∷ 36 ∷ []

abbrev is_measured : Reading → Bool
is_measured (measured timed) = true
is_measured _ = false

measured-reading_of :
    (t : TypeId) → elem t measured_types ≡ true → is_measured (reading_of t) ≡ true
unfolding reading_of
measured-reading_of t h = ground arith

read_measured :
    (r : Reading) (previous : ℕ) (e : Element)
    → is_measured r ≡ true
    → ((read_element r previous e).value ≡ e.value)
      × ((read_element r previous e).quality ≡ e.quality)
unfolding read_element
read_measured r previous e h = ground arith

extract_some :
    (t : TypeId) (previous : ℕ) (e : Element)
    → e.address ≢ 0
    → extract_object t true previous (some e) ≡ read_element (reading_of t) previous e
unfolding extract_object
extract_some t previous e h = ground arith

-- After a monitoring message with a value and a quality, the point that receives the object is good
-- exactly if the quality of the object is 0 and its value is accepted for the point's type: in its
-- range, which has NaN for normalised and scaled values, but for step positions, whose documented range
-- is -64 to 63, of which -64 is refused, and 64 is accepted too. Any other quality of the point is that
-- of the object, or Invalid (128) for an object of quality 0.
pub measured-quality :
    (t : TypeId) (now previous : ℕ) (callback : OnReceive) (e : Element) (p : DataPoint)
    → elem t measured_types ≡ true
    → e.address ≢ 0
    → let x = extract_object t true previous (some e) in
      let q = (on_receive now callback (received_of x) p).0.quality in
      ((q ≡ 0) ↔ ((e.quality ≡ 0) × IsAccepted (kind_of p.type) e.value))
      × ((q ≡ e.quality) ⊎ ((q ≡ 128) × (e.quality ≡ 0)))
measured-quality t now previous callback e p h a =
    let k = kind_of p.type in
    let x = extract_object t true previous (some e) in
    let facts = read_measured (reading_of t) previous e (measured-reading_of t h) in
    let same : (on_receive now callback (received_of x) p).0.quality
        ≡ quality_after k e.value e.quality =
      ground (
        arith,
        extract_some t previous e a,
        facts,
        quality-on_receive now callback (received_of x) p,
      ) in
    let (into, back) = is_rejected_iff k e.value in
    rw same (
      (λ z. (ground arith, into (ground arith)), λ (good, d). let kept = back d in ground arith),
      ground arith,
    )

-- The interval, which leaves out what is not a number.
abbrev pub IsBetween : (lo hi : ℤ) → Double → Type 0
IsBetween lo hi x = (double_le (int lo) x ≡ true) × (double_le x (int hi) ≡ true)

abbrev pub CommandDomain : ValueKind → Double → Type 0
CommandDomain normalized x = IsBetween (negsuc 0) (pos 1) x
CommandDomain scaled x = IsBetween (negsuc 65535) (pos 65535) x
CommandDomain short_float x = IsBetween (negsuc 16777215) (pos 16777215) x
CommandDomain k x = InDomain k x

-- The kind of value that belongs to the reading of a command.
abbrev command_kind : Reading → ValueKind
command_kind (single_command timed) = single
command_kind double_command = command_double
command_kind step_command = command_double
command_kind normalized_command = normalized
command_kind scaled_command = scaled
command_kind short_command = short_float
command_kind (bit_command timed) = bits
command_kind _ = unchecked

abbrev is_command : Reading → Bool
is_command (single_command timed) = true
is_command double_command = true
is_command step_command = true
is_command normalized_command = true
is_command scaled_command = true
is_command short_command = true
is_command (bit_command timed) = true
is_command _ = false

abbrev Fitting : TypeId → Type 0
Fitting t = (is_command (reading_of t) ≡ true) × (command_kind (reading_of t) ≡ kind_of t)

command-Fitting : (t : TypeId) → elem t command_types ≡ true → Fitting t
unfolding reading_of kind_of
command-Fitting t = All-elem Fitting t command_types (
  (refl, refl),
  (
    (refl, refl),
    (
      (refl, refl),
      (
        (refl, refl),
        (
          (refl, refl),
          (
            (refl, refl),
            (
              (refl, refl),
              (
                (refl, refl),
                (
                  (refl, refl),
                  (
                    (refl, refl),
                    ((refl, refl), ((refl, refl), ((refl, refl), ((refl, refl), tt)))),
                  ),
                ),
              ),
            ),
          ),
        ),
      ),
    ),
  ),
)

read_command_value :
    (r : Reading) (previous : ℕ) (e : Element)
    → is_command r ≡ true
    → (read_element r previous e).value ≡ e.value
unfolding read_element
read_command_value r previous e h = ground arith

-- The quality that a point of the reading's kind has after the object.
abbrev command_quality : Reading → (previous : ℕ) → Element → ℕ
command_quality r previous e =
    quality_after (command_kind r) e.value (read_element r previous e).quality

command_accepted :
    (r : Reading) (previous : ℕ) (e : Element)
    → is_command r ≡ true
    → (command_quality r previous e ≡ 0) ↔ CommandDomain (command_kind r) e.value
unfolding read_element is_rejected
command_accepted (single_command timed) previous e h =
    let (into, back) = is_rejected_iff single e.value in
    (λ z. into (ground arith), λ d. let kept = back d in ground arith)
command_accepted double_command previous e h =
    let (into, back) = is_rejected_iff command_double e.value in
    (λ z. into (ground arith), λ d. let kept = back d in ground arith)
command_accepted step_command previous e h =
    let (into, back) = is_rejected_iff command_double e.value in
    (λ z. into (ground arith), λ d. let kept = back d in ground arith)
command_accepted normalized_command previous e h = ground arith
command_accepted scaled_command previous e h = ground arith
command_accepted short_command previous e h = ground arith
command_accepted (bit_command timed) previous e h =
    let (into, back) = is_rejected_iff bits e.value in
    (λ z. into (ground arith), λ d. let kept = back d in ground arith)
command_accepted _ previous e h = absurd (cc)

-- A command object at any address but 0, received by a point of the command's type, leaves the point
-- good exactly if its value is in the command's domain: 0 or 1 for single commands, 1 or 2 for
-- double and step commands, whole numbers of 32 bits for bit strings, and intervals without NaN for
-- the set points, from -1 to 1, from -65536 to 65535, and from -16777216 to 16777215.
pub command-quality :
    (t : TypeId) (now previous : ℕ) (callback : OnReceive) (e : Element) (p : DataPoint)
    → elem t command_types ≡ true
    → p.type ≡ t
    → e.address ≢ 0
    → let x = extract_object t true previous (some e) in
      ((on_receive now callback (received_of x) p).0.quality ≡ 0)
      ↔ CommandDomain (kind_of t) e.value
command-quality t now previous callback e p h same a =
    let r = reading_of t in
    let x = extract_object t true previous (some e) in
    let (is, fits) = command-Fitting t h in
    let q : (on_receive now callback (received_of x) p).0.quality ≡ command_quality r previous e =
      ground (
        arith,
        fits,
        extract_some t previous e a,
        read_command_value r previous e is,
        quality-on_receive now callback (received_of x) p,
      ) in
    rw (q, ← fits) (command_accepted r previous e is)

-- The value of the object replaces another one.
pub command-value :
    (t : TypeId) (now previous : ℕ) (callback : OnReceive) (e : Element) (p : DataPoint)
    → elem t command_types ≡ true
    → e.address ≢ 0
    → (on_receive now callback (received_of (extract_object t true previous (some e))) p).0.value
      ≡ (if double_eq p.value e.value then p.value else e.value)
unfolding on_receive set_value_ex
command-value t now previous callback e p h a =
    let is = (command-Fitting t h).0 in
    rw (extract_some t previous e a, read_command_value (reading_of t) previous e is) refl
