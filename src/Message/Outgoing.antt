-- ===== src/Message/Outgoing.antt =====
-- The messages that a point makes of itself: the constructors of src/remote/message/PointMessage.cpp
-- and PointCommand.cpp, which choose the information object by the point's type.
-- An object of lib60870-C is described by what it is made from: the address and the quality where the
-- call passes them, the C++ conversion of the value, the time, and the flags of a counter reading.
use Prim.Native.Nat.{bit_and}
use iec104_python.Base.{
  ℕ, Bool, true, false, ◌==◌, ltb, ◌||◌, elem, if◌then◌else◌, [], ◌∷◌, Option, none, some, Result,
  ok, err,
}
use iec104_python.Protocol
use iec104_python.Protocol.{TypeId, quality_overflow}
use iec104_python.Value.{Double}
use iec104_python.Point.Data.{DataPoint}

pub data Conversion : Type 0 where
  to_bool to_enum to_int32 to_uint32 to_float : Conversion

pub record InformationObject : Type 0 where
  pub type : TypeId
  pub address : Option ℕ
  pub value : Double
  pub conversion : Conversion
  pub quality : Option ℕ
  pub time : Option ℕ
  pub counter_flags : Option (Bool × Bool)

pub data OutgoingError : Type 0 where
  event_not_supported status_not_supported not_a_point_message totals_not_supported cp24_time
        unsupported_type :
      OutgoingError

-- `test` and `is_any` of src/enums.h, for a quality.
unfoldable pub test_flag : ℕ → ℕ → Bool
test_flag l r = if l == 0 || r == 0 then false else bit_and l r == r

abbrev pub is_any : ℕ → Bool
is_any q = ltb 0 q

-- The ways in which an object is created.
pub data Shape : Type 0 where
  valued : Conversion → (timed : Bool) → Shape
  without_quality : Conversion → (timed : Bool) → Shape
  counter_reading timed_counter : Shape
  throws : OutgoingError → Shape

-- The `switch` of `PointMessage`.
unfoldable pub message_shape : TypeId → Shape
message_shape t =
    if t == Protocol.m_sp_na_1
    then valued to_bool false
    else if t == Protocol.m_sp_tb_1
    then valued to_bool true
    else if t == Protocol.m_dp_na_1
    then valued to_enum false
    else if t == Protocol.m_dp_tb_1
    then valued to_enum true
    else if t == Protocol.m_st_na_1
    then valued to_int32 false
    else if t == Protocol.m_st_tb_1
    then valued to_int32 true
    else if t == Protocol.m_bo_na_1
    then without_quality to_uint32 false
    else if t == Protocol.m_bo_tb_1
    then without_quality to_uint32 true
    else if t == Protocol.m_me_na_1
    then valued to_float false
    else if t == Protocol.m_me_td_1
    then valued to_float true
    else if t == Protocol.m_me_nb_1
    then valued to_int32 false
    else if t == Protocol.m_me_te_1
    then valued to_int32 true
    else if t == Protocol.m_me_nc_1
    then valued to_float false
    else if t == Protocol.m_me_tf_1
    then valued to_float true
    else if t == Protocol.m_it_na_1
    then counter_reading
    else if t == Protocol.m_it_tb_1
    then timed_counter
    else if elem t (Protocol.m_ep_td_1 ∷ Protocol.m_ep_te_1 ∷ Protocol.m_ep_tf_1 ∷ [])
    then throws event_not_supported
    else if t == Protocol.m_ps_na_1
    then throws status_not_supported
    else if t == Protocol.m_me_nd_1
    then without_quality to_float false
    else if t == Protocol.m_ei_na_1
    then throws not_a_point_message
    else if t == Protocol.s_it_tc_1
    then throws totals_not_supported
    else if elem t (
        Protocol.m_sp_ta_1 ∷ Protocol.m_dp_ta_1 ∷ Protocol.m_st_ta_1 ∷ Protocol.m_bo_ta_1
        ∷ Protocol.m_me_ta_1 ∷ Protocol.m_me_tb_1 ∷ Protocol.m_me_tc_1 ∷ Protocol.m_it_ta_1
        ∷ Protocol.m_ep_ta_1 ∷ Protocol.m_ep_tb_1 ∷ Protocol.m_ep_tc_1 ∷ [])
    then throws cp24_time
    else throws unsupported_type

-- The `switch` of `PointCommand`.
unfoldable pub command_shape : TypeId → Shape
command_shape t =
    if t == Protocol.c_sc_na_1
    then valued to_bool false
    else if t == Protocol.c_sc_ta_1
    then valued to_bool true
    else if t == Protocol.c_dc_na_1 || t == Protocol.c_rc_na_1
    then valued to_enum false
    else if t == Protocol.c_dc_ta_1 || t == Protocol.c_rc_ta_1
    then valued to_enum true
    else if t == Protocol.c_bo_na_1
    then without_quality to_uint32 false
    else if t == Protocol.c_bo_ta_1
    then without_quality to_uint32 true
    else if t == Protocol.c_se_na_1 || t == Protocol.c_se_nc_1
    then valued to_float false
    else if t == Protocol.c_se_ta_1 || t == Protocol.c_se_tc_1
    then valued to_float true
    else if t == Protocol.c_se_nb_1
    then valued to_int32 false
    else if t == Protocol.c_se_tb_1
    then valued to_int32 true
    else throws unsupported_type

abbrev stamp : Bool → ℕ → Option ℕ
stamp timed t = if timed then some t else none

-- An `InformationObject` from a shape. A counter reading without time is created with no address:
-- it is the reading itself, and not an object that holds it.
unfoldable pub build : Shape → DataPoint → Result OutgoingError InformationObject
unfolding test_flag
build (valued conversion timed) p = ok (record {
  type = p.type;
  address = some p.address;
  value = p.value;
  conversion = conversion;
  quality = some p.quality;
  time = stamp timed p.updated_at;
  counter_flags = none;
})
build (without_quality conversion timed) p = ok (record {
  type = p.type;
  address = some p.address;
  value = p.value;
  conversion = conversion;
  quality = none;
  time = stamp timed p.updated_at;
  counter_flags = none;
})
build counter_reading p = ok (record {
  type = p.type;
  address = none;
  value = p.value;
  conversion = to_int32;
  quality = none;
  time = none;
  counter_flags = some (test_flag p.quality quality_overflow, is_any p.quality);
})
build timed_counter p = ok (record {
  type = p.type;
  address = some p.address;
  value = p.value;
  conversion = to_int32;
  quality = none;
  time = some p.updated_at;
  counter_flags = some (test_flag p.quality quality_overflow, is_any p.quality);
})
build (throws e) p = err e

unfoldable pub point_message : DataPoint → Result OutgoingError InformationObject
unfolding message_shape build
point_message p = build (message_shape p.type) p

unfoldable pub point_command : DataPoint → Result OutgoingError InformationObject
unfolding command_shape build
point_command p = build (command_shape p.type) p
