-- ===== src/Message/Conversions.antt =====
-- The C++ conversions of a point's value to the parameter types of the functions that create an
-- information object: the casts of src/remote/message/PointMessage.cpp and PointCommand.cpp, and
-- `getValueAsInt32`, `getValueAsUInt32` and `getValueAsFloat` of src/object/DataPoint.cpp.
use iec104_python.Base.{
  ℕ, zero, suc, ◌^◌, Bool, true, false, not, ltb, ◌==◌, ◌&&◌, ◌||◌, if◌then◌else◌, ℤ, pos, negsuc,
  Option, none, some,
}
use iec104_python.Value.{Double, finite, int, double_eq}
use iec104_python.Message.Outgoing.{
  Conversion, to_bool, to_enum, to_int32, to_uint32, to_float, InformationObject,
}

-- What the library gets; a float goes by the double that is rounded to it.
pub data Passed : Type 0 where
  boolean : Bool → Passed
  integer : ℤ → Passed
  nearest_float : Double → Passed

-- A floating point number without its fraction, if it is a number.
unfoldable pub truncate : Double → Option ℤ
truncate (finite false a f) = some (pos a)
truncate (finite true zero f) = some (pos 0)
truncate (finite true (suc a) f) = some (negsuc a)
truncate _ = none

-- The conversion has no defined result outside of the range.
unfoldable pub within : (below above : ℕ) → Option ℤ → Option Passed
within below above none = none
within below above (some (pos n)) = if ltb n above then some (integer (pos n)) else none
within below above (some (negsuc n)) = if ltb n below then some (integer (negsuc n)) else none

-- Whether the whole and the fraction are at most the largest float, 2 ^ 128 - 2 ^ 104.
abbrev float_magnitude : (whole fraction : ℕ) → Bool
float_magnitude a f =
    ltb a 340282346638528859811704183484516925440
    || (a == 340282346638528859811704183484516925440 && f == 0)

-- A finite number beyond the largest float has no defined conversion.
unfoldable pub has_float : Double → Bool
has_float (finite s a f) = float_magnitude a f
has_float _ = true

-- The enumerations of the library, `DoublePointValue` and `StepCommandValue`, have the values 0 to 3.
unfoldable pub convert : Conversion → Double → Option Passed
unfolding truncate within has_float
convert to_bool x = some (boolean (not (double_eq x (int (pos 0)))))
convert to_enum x = within 0 4 (truncate x)
convert to_int32 x = within (2 ^ 31) (2 ^ 31) (truncate x)
convert to_uint32 x = within 0 (2 ^ 32) (truncate x)
convert to_float x = if has_float x then some (nearest_float x) else none

unfoldable pub passed_value : InformationObject → Option Passed
unfolding convert
passed_value io = convert io.conversion io.value
