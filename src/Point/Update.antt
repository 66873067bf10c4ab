-- ===== src/Point/Update.antt =====
-- `setValueEx` and `onReceive` of src/object/DataPoint.cpp.
use iec104_python.Base.{
  ℕ, ◌^◌, Bool, false, not, ◌==◌, ltb, elem, ◌||◌, ◌&&◌, if◌then◌else◌, [], ◌∷◌, pos, negsuc,
}
use iec104_python.Protocol.{
  TypeId, quality_none, quality_invalid, m_sp_na_1, m_sp_ta_1, m_sp_tb_1, c_sc_na_1, c_sc_ta_1,
  m_dp_na_1, m_dp_ta_1, m_dp_tb_1, c_dc_na_1, c_dc_ta_1, c_rc_na_1, c_rc_ta_1, m_st_na_1, m_st_ta_1,
  m_st_tb_1, m_bo_na_1, m_bo_ta_1, m_bo_tb_1, c_bo_na_1, c_bo_ta_1, m_me_na_1, m_me_nd_1, m_me_ta_1,
  m_me_td_1, c_se_na_1, c_se_ta_1, m_me_nb_1, m_me_tb_1, m_me_te_1, c_se_nb_1, c_se_tb_1, m_me_nc_1,
  m_me_tc_1, m_me_tf_1, c_se_nc_1, c_se_tc_1, m_it_na_1, m_it_ta_1, m_it_tb_1,
}
use iec104_python.Value.{Double, int, double_eq, double_lt, double_le, has_fraction}
use iec104_python.Point.Data.{DataPoint}

-- The groups of labels of the `switch`.
pub data ValueKind : Type 0 where
  single double command_double step bits normalized scaled short_float integrated unchecked :
      ValueKind

unfoldable pub kind_of : TypeId → ValueKind
kind_of t =
    if elem t (m_sp_na_1 ∷ m_sp_ta_1 ∷ m_sp_tb_1 ∷ c_sc_na_1 ∷ c_sc_ta_1 ∷ [])
    then single
    else if elem t (m_dp_na_1 ∷ m_dp_ta_1 ∷ m_dp_tb_1 ∷ [])
    then double
    else if elem t (c_dc_na_1 ∷ c_dc_ta_1 ∷ c_rc_na_1 ∷ c_rc_ta_1 ∷ [])
    then command_double
    else if elem t (m_st_na_1 ∷ m_st_ta_1 ∷ m_st_tb_1 ∷ [])
    then step
    else if elem t (m_bo_na_1 ∷ m_bo_ta_1 ∷ m_bo_tb_1 ∷ c_bo_na_1 ∷ c_bo_ta_1 ∷ [])
    then bits
    else if elem t (m_me_na_1 ∷ m_me_nd_1 ∷ m_me_ta_1 ∷ m_me_td_1 ∷ c_se_na_1 ∷ c_se_ta_1 ∷ [])
    then normalized
    else if elem t (m_me_nb_1 ∷ m_me_tb_1 ∷ m_me_te_1 ∷ c_se_nb_1 ∷ c_se_tb_1 ∷ [])
    then scaled
    else if elem t (m_me_nc_1 ∷ m_me_tc_1 ∷ m_me_tf_1 ∷ c_se_nc_1 ∷ c_se_tc_1 ∷ [])
    then short_float
    else if elem t (m_it_na_1 ∷ m_it_ta_1 ∷ m_it_tb_1 ∷ [])
    then integrated
    else unchecked

abbrev is_not : ℕ → Double → Bool
is_not n x = not (double_eq x (int (pos n)))

-- The condition under which a branch stores `Quality::Invalid`.
unfoldable pub is_rejected : ValueKind → Double → Bool
is_rejected single x = is_not 0 x && is_not 1 x
is_rejected double x = is_not 0 x && is_not 1 x && is_not 2 x && is_not 3 x
is_rejected command_double x = is_not 1 x && is_not 2 x
is_rejected step x = has_fraction x || double_lt x (int (negsuc 62)) || double_lt (int (pos 64)) x
is_rejected bits x = has_fraction x || double_lt x (int (pos 0)) || double_le (int (pos (2 ^ 32))) x
is_rejected normalized x = double_lt x (int (negsuc 0)) || double_lt (int (pos 1)) x
is_rejected scaled x = double_lt x (int (negsuc 65535)) || double_lt (int (pos 65535)) x
is_rejected short_float x = false
is_rejected integrated x =
    has_fraction x || double_lt x (int (negsuc 65535)) || double_lt (int (pos 65535)) x
is_rejected unchecked x = false

-- `now` is the result of `GetTimestamp_ms`.
unfoldable pub set_value_ex : (now : ℕ) → Double → (quality timestamp : ℕ) → DataPoint → DataPoint
set_value_ex now value quality timestamp p =
    let updated = if ltb 0 timestamp then timestamp else now in
    let stored = if double_eq p.value value then p.value else value in
    let rejected = quality == quality_none && is_rejected (kind_of p.type) value in
    record p {
      updated_at = updated;
      value = stored;
      quality = if rejected then quality_invalid else quality;
    }

unfoldable pub set_value : (now : ℕ) → Double → DataPoint → DataPoint
unfolding set_value_ex
set_value now value p = set_value_ex now value quality_none 0 p

pub data ResponseState : Type 0 where
  failure success no_response : ResponseState

-- What the Python callback `on_receive` does, if one is set: it returns a response state, or raises
-- an exception, upon which it is taken off. A value of another type is left out: its exception leaves
-- `onReceive`.
pub data OnReceive : Type 0 where
  unset raises : OnReceive
  returns : ResponseState → OnReceive

-- What `onReceive` reads of the message.
pub record Received : Type 0 where
  pub value : Double
  pub quality : ℕ
  pub updated_at : ℕ

abbrev pub callback_after : OnReceive → OnReceive
callback_after raises = unset
callback_after c = c

-- Without a result of the callback, also after an exception, the answer is success.
abbrev pub callback_answer : OnReceive → ResponseState
callback_answer (returns r) = r
callback_answer _ = success

unfoldable pub on_receive :
    (now : ℕ) → OnReceive → Received → DataPoint → DataPoint × OnReceive × ResponseState
unfolding set_value_ex
on_receive now callback m p = (
  record (set_value_ex now m.value m.quality m.updated_at p) { received_at = now },
  callback_after callback,
  callback_answer callback,
)
