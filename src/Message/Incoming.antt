-- ===== src/Message/Incoming.antt =====
-- What src/remote/message/IncomingMessage.cpp takes from a received ASDU and which it refuses.
-- `Asdu` is what the getters of lib60870-C say of the packet; `ioa` is the address of its first
-- object.
use iec104_python.Base.{
  ℕ, ◌%◌, Bool, true, not, ◌==◌, ltb, ◌||◌, ◌&&◌, elem, if◌then◌else◌, List, [], ◌∷◌, Result, ok,
  ◌>>◌, throw_if,
}
use iec104_python.Protocol.{
  TypeId, Cot, m_sp_ta_1, m_dp_ta_1, m_st_ta_1, m_bo_ta_1, m_me_ta_1, m_me_tb_1, m_me_tc_1,
  m_it_ta_1, m_ep_ta_1, m_ep_tb_1, m_ep_tc_1, c_ts_na_1, c_cd_na_1, c_sc_na_1, f_dr_ta_1, c_ic_na_1,
  c_rp_na_1, f_fr_na_1, global_common_address, cot_activation, cot_deactivation,
}

pub record Asdu : Type 0 where
  pub type : TypeId
  pub cot : Cot
  pub ca : ℕ
  pub oa : ℕ
  pub negative : Bool
  pub sequence : Bool
  pub test : Bool
  pub elements : ℕ
  pub ioa : ℕ

pub record IncomingMessage : Type 0 where
  pub type : TypeId
  pub cot : Cot
  pub ca : ℕ
  pub oa : ℕ
  pub negative : Bool
  pub sequence : Bool
  pub test : Bool
  pub number_of_object : ℕ
  pub ioa : ℕ
  pub position : ℕ
  pub position_reset : Bool
  pub position_valid : Bool

pub data MessageError : Type 0 where
  cp24_time not_a_sequence single_object_only single_address_only no_file_transfer : MessageError

-- The types with a three-octet time, which the protocol does not carry.
abbrev pub cp24_types : List TypeId
cp24_types =
    m_sp_ta_1 ∷ m_dp_ta_1 ∷ m_st_ta_1 ∷ m_bo_ta_1 ∷ m_me_ta_1 ∷ m_me_tb_1 ∷ m_me_tc_1 ∷ m_it_ta_1
    ∷ m_ep_ta_1 ∷ m_ep_tb_1 ∷ m_ep_tc_1 ∷ c_ts_na_1 ∷ c_cd_na_1 ∷ []

abbrev single_context : TypeId → Bool
single_context t = not (ltb t c_sc_na_1) && ltb t f_dr_ta_1

-- `extractMetaData`, and the position that the constructor starts with.
unfoldable pub extract_meta_data : Asdu → Result MessageError IncomingMessage
extract_meta_data a = do
  let number = a.elements % 256
  throw_if (elem a.type cp24_types) cp24_time
  throw_if (single_context a.type && a.sequence) not_a_sequence
  throw_if (single_context a.type && ltb 1 number) single_object_only
  throw_if (ltb a.type c_ic_na_1 && ltb c_rp_na_1 a.type && a.ca == global_common_address)
      single_address_only
  throw_if (not (ltb a.type f_fr_na_1)) no_file_transfer
  ok (record {
    type = a.type;
    cot = a.cot;
    ca = a.ca;
    oa = a.oa;
    negative = a.negative;
    sequence = a.sequence;
    test = a.test;
    number_of_object = number;
    ioa = if ltb 0 number then a.ioa else 0;
    position = 0;
    position_reset = true;
    position_valid = ltb 0 number;
  })

unfoldable pub require_confirmation : Cot → Bool
require_confirmation cot = cot == cot_activation || cot == cot_deactivation
