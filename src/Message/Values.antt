-- ===== src/Message/Values.antt =====
-- The values that reach the library in an information object, src/remote/message/PointMessage.cpp and
-- PointCommand.cpp.
use iec104_python.Base.{
  ℕ, ◌<◌, ◌^◌, ◌≤◌, ◌≤ℤ◌, pos_part, neg_part, ◌≡◌, ◌≢◌, ◌⊎◌, inl, inr, refl, ℤ, lt→ltb, zero, suc,
  arith, Bool, true, false, not, ◌&&◌, pos, negsuc, Option, none, some, ok, table, table-entry,
}
use iec104_python.Protocol.{TypeId}
use iec104_python.Value.{Double, nan, finite, infinity, neg_infinity, int, double_eq, has_fraction}
use iec104_python.Point.Data.{DataPoint}
use iec104_python.Point.Update.{
  ValueKind, single, double, command_double, step, bits, normalized, scaled, short_float,
  integrated, kind_of,
}
use iec104_python.Point.Domain.{IsWhole, InDomain}
use iec104_python.Message.Outgoing.{
  Conversion, to_bool, to_enum, to_int32, to_uint32, to_float, InformationObject, Shape, valued,
  without_quality, counter_reading, timed_counter, throws, message_shape, command_shape, build,
  point_message, point_command,
}
use iec104_python.Message.Conversions.{
  Passed, boolean, integer, nearest_float, truncate, within, has_float, convert, passed_value,
}

-- There is a defined result, and a whole number is passed on as it is.
abbrev pub IsPassed : Double → Option Passed → Type 0
IsPassed x none = ⊥
IsPassed x (some (boolean true)) = double_eq x (int (pos 1)) ≡ true
IsPassed x (some (boolean false)) = double_eq x (int (pos 0)) ≡ true
IsPassed x (some (integer n)) = has_fraction x ≡ false → double_eq x (int n) ≡ true
IsPassed x (some (nearest_float y)) = y ≡ x

abbrev suits : ValueKind → Conversion → Bool
suits single to_bool = true
suits double to_enum = true
suits command_double to_enum = true
suits step to_int32 = true
suits scaled to_int32 = true
suits integrated to_int32 = true
suits bits to_uint32 = true
suits normalized to_float = true
suits short_float to_float = true
suits _ _ = false

truncate_of_whole : (x : Double) (n : ℤ) → double_eq x (int n) ≡ true → truncate x ≡ some n
unfolding truncate
truncate_of_whole nan (pos n) e = absurd (cc e)
truncate_of_whole nan (negsuc n) e = absurd (cc e)
truncate_of_whole infinity (pos n) e = absurd (cc e)
truncate_of_whole infinity (negsuc n) e = absurd (cc e)
truncate_of_whole neg_infinity (pos n) e = absurd (cc e)
truncate_of_whole neg_infinity (negsuc n) e = absurd (cc e)
truncate_of_whole (finite false a f) (pos n) e = ground arith
truncate_of_whole (finite false a f) (negsuc n) e = ground arith
truncate_of_whole (finite true zero f) (pos n) e = ground arith
truncate_of_whole (finite true zero f) (negsuc n) e = ground arith
truncate_of_whole (finite true (suc a) f) (pos n) e = ground arith
truncate_of_whole (finite true (suc a) f) (negsuc n) e = ground arith

-- An integer in the range of a type.
abbrev InRange : (below above : ℕ) → ℤ → Type 0
InRange below above (pos n) = n < above
InRange below above (negsuc n) = n < below

in_range :
    (below above : ℕ) (low high n : ℤ)
    → low ≤ℤ n
    → n ≤ℤ high
    → neg_part low ≤ below
    → pos_part high < above
    → InRange below above n
in_range below above low high (pos n) l h b t = omega (arith, h, t)
in_range below above low high (negsuc n) l h b t = omega (arith, l, b)

within-IsPassed :
    (below above : ℕ) (x : Double) (n : ℤ)
    → double_eq x (int n) ≡ true
    → InRange below above n
    → IsPassed x (within below above (truncate x))
unfolding within
within-IsPassed below above x (pos n) e r =
    rw (truncate_of_whole x (pos n) e, lt→ltb n above r) (λ w. e)
within-IsPassed below above x (negsuc n) e r =
    rw (truncate_of_whole x (negsuc n) e, lt→ltb n below r) (λ w. e)

whole-IsPassed :
    (below above : ℕ) (low high : ℤ) (x : Double)
    → IsWhole low high x
    → neg_part low ≤ below
    → pos_part high < above
    → IsPassed x (within below above (truncate x))
whole-IsPassed below above low high x (n, e, l, h) b t =
    within-IsPassed below above x n e (in_range below above low high n l h b t)

nonzero_of_one : (x : Double) → double_eq x (int (pos 1)) ≡ true → double_eq x (int (pos 0)) ≡ false
nonzero_of_one nan e = refl
nonzero_of_one infinity e = refl
nonzero_of_one neg_infinity e = refl
nonzero_of_one (finite true a f) e = ground arith
nonzero_of_one (finite false a f) e = ground arith

bit-IsPassed :
    (x : Double)
    → IsWhole (pos 0) (pos 1) x
    → IsPassed x (some (boolean (not (double_eq x (int (pos 0))))))
bit-IsPassed x (pos zero, e, l, h) = rw e e
bit-IsPassed x (pos (suc zero), e, l, h) = rw (nonzero_of_one x e) e
bit-IsPassed x (pos (suc (suc n)), e, l, h) = absurd (omega (arith, h))
bit-IsPassed x (negsuc n, e, l, h) = absurd (omega (arith, l))

scaled-IsPassed :
    (x : Double) → InDomain scaled x → x ≢ nan → IsPassed x (within (2 ^ 31) (2 ^ 31) (truncate x))
unfolding within truncate
scaled-IsPassed nan d h = absurd (h refl)
scaled-IsPassed (finite false a f) d h = ground arith
scaled-IsPassed (finite true zero f) d h = ground arith
scaled-IsPassed (finite true (suc a) f) d h = ground arith
scaled-IsPassed x d h = absurd (ground arith)

normalized-has_float : (x : Double) → InDomain normalized x → has_float x ≡ true
unfolding has_float
normalized-has_float nan d = refl
normalized-has_float infinity d = refl
normalized-has_float neg_infinity d = refl
normalized-has_float (finite true a f) d = ground arith
normalized-has_float (finite false a f) d = ground arith

convert-IsPassed :
    (k : ValueKind) (c : Conversion) (x : Double)
    → suits k c ≡ true
    → InDomain k x
    → (k ≢ short_float) ⊎ (has_float x ≡ true)
    → x ≢ nan
    → IsPassed x (convert c x)
unfolding convert
convert-IsPassed normalized to_float x s d fits h = rw (normalized-has_float x d) refl
convert-IsPassed short_float to_float x s d (inl other) h = absurd (other refl)
convert-IsPassed short_float to_float x s d (inr fits) h = rw fits refl
convert-IsPassed single to_bool x s d fits h = bit-IsPassed x d
convert-IsPassed double to_enum x s d fits h =
    whole-IsPassed 0 4 (pos 0) (pos 3) x d (omega arith) (omega arith)
convert-IsPassed command_double to_enum x s d fits h =
    whole-IsPassed 0 4 (pos 1) (pos 2) x d (omega arith) (omega arith)
convert-IsPassed step to_int32 x s d fits h =
    whole-IsPassed (2 ^ 31) (2 ^ 31) (negsuc 63) (pos 63) x d (omega arith) (omega arith)
convert-IsPassed integrated to_int32 x s d fits h =
    whole-IsPassed (2 ^ 31) (2 ^ 31) (negsuc 65535) (pos 65535) x d (omega arith) (omega arith)
convert-IsPassed bits to_uint32 x s d fits h =
    whole-IsPassed 0 (2 ^ 32) (pos 0) (pos 4294967295) x d (omega arith) (omega arith)
convert-IsPassed scaled to_int32 x s d fits h = scaled-IsPassed x d h
convert-IsPassed k c x s d fits h = absurd (cc s)

abbrev conversion_of : Shape → Option Conversion
conversion_of (valued c timed) = some c
conversion_of (without_quality c timed) = some c
conversion_of counter_reading = some to_int32
conversion_of timed_counter = some to_int32
conversion_of (throws e) = none

abbrev all_suit : ValueKind → Option Conversion → Bool
all_suit k none = true
all_suit k (some c) = suits k c

abbrev type_suits : TypeId → Bool
type_suits t =
    all_suit (kind_of t) (conversion_of (message_shape t))
    && all_suit (kind_of t) (conversion_of (command_shape t))

types_suit : table type_suits 256 ≡ true
unfolding table message_shape command_shape kind_of
types_suit = refl

both : (a b : Bool) → (a && b) ≡ true → (a ≡ true) × (b ≡ true)
both a b h = ground (arith, h)

both_suit :
    (t : TypeId)
    → t < 256
    → (all_suit (kind_of t) (conversion_of (message_shape t)) ≡ true)
      × (all_suit (kind_of t) (conversion_of (command_shape t)) ≡ true)
both_suit t lt =
    both (all_suit (kind_of t) (conversion_of (message_shape t)))
      (all_suit (kind_of t) (conversion_of (command_shape t)))
      (table-entry type_suits 256 lt types_suit)

-- What an object that is made from a shape has of the point and of the shape.
build-conversion :
    (s : Shape) (p : DataPoint) (io : InformationObject)
    → build s p ≡ ok io
    → (io.value ≡ p.value) × (conversion_of s ≡ some io.conversion)
unfolding build
build-conversion (valued c timed) p io e = (cc e, cc e)
build-conversion (without_quality c timed) p io e = (cc e, cc e)
build-conversion counter_reading p io e = (cc e, cc e)
build-conversion timed_counter p io e = (cc e, cc e)
build-conversion (throws x) p io e = absurd (cc e)

build-IsPassed :
    (s : Shape) (p : DataPoint) (io : InformationObject)
    → all_suit (kind_of p.type) (conversion_of s) ≡ true
    → build s p ≡ ok io
    → InDomain (kind_of p.type) p.value
    → (kind_of p.type ≢ short_float) ⊎ (has_float p.value ≡ true)
    → p.value ≢ nan
    → IsPassed p.value (passed_value io)
unfolding passed_value
build-IsPassed s p io fits made d float h =
    let (same, c) = build-conversion s p io made in
    rw same (convert-IsPassed (kind_of p.type) io.conversion p.value (rw c at fits) d float h)

-- A point whose value is a number in the range of its type, from -64 to 63 for step positions, and within
-- that of a float for short floats, of which a message or a command can be made: the conversion of the
-- value to what the library takes has a defined result. For a whole value that is passed as an integer
-- or a Boolean it is that number; a normalised value and a short float are passed for rounding as they
-- are.
pub message-IsPassed :
    (p : DataPoint) (io : InformationObject)
    → p.type < 256
    → (point_message p ≡ ok io) ⊎ (point_command p ≡ ok io)
    → InDomain (kind_of p.type) p.value
    → (kind_of p.type ≢ short_float) ⊎ (has_float p.value ≡ true)
    → p.value ≢ nan
    → IsPassed p.value (passed_value io)
unfolding point_message point_command
message-IsPassed p io lt (inl made) d float h =
    build-IsPassed (message_shape p.type) p io (both_suit p.type lt).0 made d float h
message-IsPassed p io lt (inr made) d float h =
    build-IsPassed (command_shape p.type) p io (both_suit p.type lt).1 made d float h
