-- ===== src/Message/Elements.antt =====
-- `extractInformationObject` of src/remote/message/IncomingMessage.cpp: what it takes from the object at
-- the position of a message. `Element` is what the getters of lib60870-C say of that object; those
-- that return a truth value, an enumeration or an integer are converted to `double` by C++.
use iec104_python.Base.{
  ℕ, ◌+◌, ◌*◌, ◌^◌, Bool, true, false, not, ◌==◌, ◌||◌, ◌&&◌, elem, if◌then◌else◌, [], ◌∷◌, Option,
  none, some, pos, negsuc,
}
use iec104_python.Protocol
use iec104_python.Protocol.{TypeId, quality_none, quality_invalid}
use iec104_python.Value.{Double, int, double_eq, double_le}

-- `octet0` to `octet4` are the encoded value of a counter, and the first four that of a status.
pub record Element : Type 0 where
  pub address : ℕ
  pub value : Double
  pub quality : ℕ
  pub timestamp : ℕ
  pub octet0 : ℕ
  pub octet1 : ℕ
  pub octet2 : ℕ
  pub octet3 : ℕ
  pub octet4 : ℕ

pub record Extracted : Type 0 where
  pub address : ℕ
  pub value : Double
  pub quality : ℕ
  pub updated_at : ℕ

-- The groups of cases of the `switch`. Where a time stamp is part of the type, `timed` says whether it
-- is read.
pub data Reading : Type 0 where
  measured counter bit_command : (timed : Bool) → Reading
  event packed_event status without_quality : Reading
  single_command : (timed : Bool) → Reading
  double_command step_command normalized_command scaled_command short_command read_command
        unhandled :
      Reading

-- The time stamps of the commands from C_DC_TA_1 to C_SE_TC_1 are not read.
unfoldable pub reading_of : TypeId → Reading
reading_of t =
    if elem t (
      Protocol.m_sp_na_1 ∷ Protocol.m_dp_na_1 ∷ Protocol.m_st_na_1 ∷ Protocol.m_bo_na_1
      ∷ Protocol.m_me_na_1 ∷ Protocol.m_me_nb_1 ∷ Protocol.m_me_nc_1 ∷ [])
    then measured false
    else if elem t (
        Protocol.m_sp_tb_1 ∷ Protocol.m_dp_tb_1 ∷ Protocol.m_st_tb_1 ∷ Protocol.m_bo_tb_1
        ∷ Protocol.m_me_td_1 ∷ Protocol.m_me_te_1 ∷ Protocol.m_me_tf_1 ∷ [])
    then measured true
    else if t == Protocol.m_it_na_1
    then counter false
    else if t == Protocol.m_it_tb_1
    then counter true
    else if t == Protocol.m_ep_td_1
    then event
    else if t == Protocol.m_ep_te_1 || t == Protocol.m_ep_tf_1
    then packed_event
    else if t == Protocol.m_ps_na_1
    then status
    else if t == Protocol.m_me_nd_1
    then without_quality
    else if t == Protocol.c_sc_na_1
    then single_command false
    else if t == Protocol.c_sc_ta_1
    then single_command true
    else if t == Protocol.c_dc_na_1 || t == Protocol.c_dc_ta_1
    then double_command
    else if t == Protocol.c_rc_na_1 || t == Protocol.c_rc_ta_1
    then step_command
    else if t == Protocol.c_se_na_1 || t == Protocol.c_se_ta_1
    then normalized_command
    else if t == Protocol.c_se_nb_1 || t == Protocol.c_se_tb_1
    then scaled_command
    else if t == Protocol.c_se_nc_1 || t == Protocol.c_se_tc_1
    then short_command
    else if t == Protocol.c_bo_na_1
    then bit_command false
    else if t == Protocol.c_bo_ta_1
    then bit_command true
    else if t == Protocol.c_rd_na_1
    then read_command
    else unhandled

abbrev is : ℕ → Double → Bool
is n x = double_eq x (int (pos n))

abbrev quality_if : Bool → ℕ
quality_if accepted = if accepted then quality_none else quality_invalid

abbrev zero_value : Double
zero_value = int (pos 0)

abbrev pub counter_value : Element → ℕ
counter_value e =
    e.octet0 + e.octet1 * 2 ^ 8 + e.octet2 * 2 ^ 16 + e.octet3 * 2 ^ 24 + e.octet4 * 2 ^ 32

abbrev pub status_value : Element → ℕ
status_value e = e.octet0 + e.octet1 * 2 ^ 8 + e.octet2 * 2 ^ 16 + e.octet3 * 2 ^ 24

abbrev pub stamped : Bool → ℕ → Element → ℕ
stamped timed previous e = if timed then e.timestamp else previous

abbrev pub extracted : Element → Double → (quality updated_at : ℕ) → Extracted
extracted e value quality updated_at = record {
  address = e.address;
  value = value;
  quality = quality;
  updated_at = updated_at;
}

-- The body of the `switch`, and the time stamp after it; `previous` is `updatedAt` before the call.
unfoldable pub read_element : Reading → (previous : ℕ) → Element → Extracted
read_element (measured timed) previous e = extracted e e.value e.quality (stamped timed previous e)
read_element (counter timed) previous e =
    extracted e (int (pos (counter_value e))) quality_none (stamped timed previous e)
read_element event previous e = extracted e zero_value quality_none e.timestamp
read_element packed_event previous e = extracted e zero_value e.quality e.timestamp
read_element status previous e = extracted e (int (pos (status_value e))) e.quality previous
read_element without_quality previous e = extracted e e.value quality_none previous
read_element (single_command timed) previous e =
    extracted e e.value (quality_if (is 0 e.value || is 1 e.value)) (stamped timed previous e)
read_element double_command previous e =
    extracted e e.value (quality_if (is 0 e.value || is 1 e.value || is 2 e.value || is 3 e.value))
      previous
read_element step_command previous e =
    extracted e e.value (quality_if (is 1 e.value || is 2 e.value)) previous
read_element normalized_command previous e =
    extracted e e.value
      (quality_if (double_le (int (negsuc 0)) e.value && double_le e.value (int (pos 1)))) previous
read_element scaled_command previous e =
    extracted e e.value
      (quality_if (double_le (int (negsuc 65535)) e.value && double_le e.value (int (pos 65535))))
      previous
read_element short_command previous e =
    extracted e e.value
      (quality_if
        (double_le (int (negsuc 16777215)) e.value && double_le e.value (int (pos 16777215))))
      previous
read_element (bit_command timed) previous e =
    extracted e e.value quality_none (stamped timed previous e)
read_element read_command previous e = extracted e zero_value quality_none previous
read_element unhandled previous e = extracted e zero_value quality_invalid previous

abbrev pub nothing_at : (address previous : ℕ) → Extracted
nothing_at address previous = record {
  address = address;
  value = zero_value;
  quality = quality_invalid;
  updated_at = previous;
}

-- `none` if the library finds no object at the position.
unfoldable pub extract_object :
    TypeId → (position_valid : Bool) → (previous : ℕ) → Option Element → Extracted
unfolding reading_of read_element
extract_object t position_valid previous none = nothing_at 0 previous
extract_object t position_valid previous (some e) =
    if position_valid && not (e.address == 0)
    then read_element (reading_of t) previous e
    else nothing_at e.address previous
