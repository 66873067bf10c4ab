-- ===== src/Message/Causes.antt =====
-- `isValidCauseOfTransmission` of src/remote/message/IncomingMessage.cpp.
use iec104_python.Base.{
  Bool, false, not, ◌==◌, ltb, ◌&&◌, elem, if◌then◌else◌, List, [], ◌∷◌, Result, ok, err,
}
use iec104_python.Protocol
use iec104_python.Protocol.{
  TypeId, Cot, cot_periodic, cot_background_scan, cot_spontaneous, cot_initialized, cot_request,
  cot_activation, cot_activation_con, cot_deactivation_con, cot_activation_termination,
  cot_return_info_remote, cot_return_info_local, cot_file_transfer, cot_interrogated_by_station,
  cot_interrogated_by_group_16, cot_requested_by_general_counter, cot_requested_by_group_4_counter,
  cot_unknown_type_id, cot_unknown_ioa,
}
use iec104_python.Message.Incoming.{MessageError, cp24_time, cp24_types}

-- `c < lo && c > hi`, as the source writes the range tests.
abbrev outside : Cot → Cot → Cot → Bool
outside lo hi c = ltb c lo && ltb hi c

abbrev outside_interrogated : Cot → Bool
outside_interrogated = outside cot_interrogated_by_station cot_interrogated_by_group_16

abbrev outside_unknown : Cot → Bool
outside_unknown = outside cot_unknown_type_id cot_unknown_ioa

-- The groups of labels of the `switch`.
pub data CauseGroup : Type 0 where
  unsupported points packed measured counters timed_points timed_values timed_events commands
        bit_commands end_of_initialization read_command clock_command test_command parameters
        activation files section_call query_log unlisted :
      CauseGroup

unfoldable pub group_of : TypeId → CauseGroup
group_of t =
    if elem t cp24_types
    then unsupported
    else if elem t (Protocol.m_sp_na_1 ∷ Protocol.m_dp_na_1 ∷ Protocol.m_st_na_1 ∷ [])
    then points
    else if elem t (Protocol.m_bo_na_1 ∷ Protocol.m_ps_na_1 ∷ [])
    then packed
    else if elem t
        (Protocol.m_me_na_1 ∷ Protocol.m_me_nb_1 ∷ Protocol.m_me_nc_1 ∷ Protocol.m_me_nd_1 ∷ [])
    then measured
    else if elem t (Protocol.m_it_na_1 ∷ Protocol.m_it_tb_1 ∷ [])
    then counters
    else if elem t (Protocol.m_sp_tb_1 ∷ Protocol.m_dp_tb_1 ∷ Protocol.m_st_tb_1 ∷ [])
    then timed_points
    else if elem t (
        Protocol.m_bo_tb_1 ∷ Protocol.m_me_td_1 ∷ Protocol.m_me_te_1 ∷ Protocol.m_me_tf_1
        ∷ Protocol.f_dr_ta_1 ∷ [])
    then timed_values
    else if elem t (Protocol.m_ep_td_1 ∷ Protocol.m_ep_te_1 ∷ Protocol.m_ep_tf_1 ∷ [])
    then timed_events
    else if elem t (
        Protocol.c_sc_na_1 ∷ Protocol.c_sc_ta_1 ∷ Protocol.c_dc_na_1 ∷ Protocol.c_dc_ta_1
        ∷ Protocol.c_rc_na_1 ∷ Protocol.c_rc_ta_1 ∷ Protocol.c_se_na_1 ∷ Protocol.c_se_ta_1
        ∷ Protocol.c_se_nb_1 ∷ Protocol.c_se_tb_1 ∷ Protocol.c_se_nc_1 ∷ Protocol.c_se_tc_1
        ∷ Protocol.c_ic_na_1 ∷ [])
    then commands
    else if elem t (Protocol.c_bo_na_1 ∷ Protocol.c_bo_ta_1 ∷ Protocol.c_ci_na_1 ∷ [])
    then bit_commands
    else if t == Protocol.m_ei_na_1
    then end_of_initialization
    else if t == Protocol.c_rd_na_1
    then read_command
    else if t == Protocol.c_cs_na_1
    then clock_command
    else if elem t (Protocol.c_rp_na_1 ∷ Protocol.c_ts_ta_1 ∷ [])
    then test_command
    else if elem t (Protocol.p_me_na_1 ∷ Protocol.p_me_nb_1 ∷ Protocol.p_me_nc_1 ∷ [])
    then parameters
    else if t == Protocol.p_ac_na_1
    then activation
    else if elem t (
        Protocol.f_fr_na_1 ∷ Protocol.f_sr_na_1 ∷ Protocol.f_ls_na_1 ∷ Protocol.f_af_na_1
        ∷ Protocol.f_sg_na_1 ∷ [])
    then files
    else if t == Protocol.f_sc_na_1
    then section_call
    else if t == Protocol.f_sc_nb_1
    then query_log
    else unlisted

abbrev not_in : Cot → List Cot → Bool
not_in c cs = not (elem c cs)

-- The condition under which the branch sets `result` to false.
unfoldable pub is_refused : CauseGroup → Cot → Bool
is_refused points c =
    not_in c (
      cot_background_scan ∷ cot_spontaneous ∷ cot_request ∷ cot_return_info_remote
      ∷ cot_return_info_local ∷ [])
    && outside_interrogated c
is_refused packed c =
    not_in c (cot_background_scan ∷ cot_spontaneous ∷ cot_request ∷ []) && outside_interrogated c
is_refused measured c =
    not_in c (cot_periodic ∷ cot_background_scan ∷ cot_spontaneous ∷ cot_request ∷ [])
    && outside_interrogated c
is_refused counters c =
    not_in c (cot_spontaneous ∷ [])
    && outside cot_requested_by_general_counter cot_requested_by_group_4_counter c
is_refused timed_points c =
    not_in c (cot_spontaneous ∷ cot_request ∷ cot_return_info_remote ∷ cot_return_info_local ∷ [])
is_refused timed_values c = not_in c (cot_spontaneous ∷ cot_request ∷ [])
is_refused timed_events c = not_in c (cot_spontaneous ∷ [])
is_refused commands c = outside cot_activation cot_activation_termination c && outside_unknown c
is_refused bit_commands c =
    not_in c (cot_activation ∷ cot_activation_con ∷ cot_activation_termination ∷ [])
    && outside_unknown c
is_refused end_of_initialization c = not_in c (cot_initialized ∷ [])
is_refused read_command c = not_in c (cot_request ∷ []) && outside_unknown c
is_refused clock_command c =
    not_in c (cot_activation ∷ cot_activation_con ∷ []) && outside_unknown c
is_refused test_command c = not_in c (cot_activation ∷ cot_activation_con ∷ []) && outside_unknown c
is_refused parameters c =
    not_in c (cot_activation ∷ cot_activation_con ∷ [])
    && outside_interrogated c
    && outside_unknown c
is_refused activation c = outside cot_activation cot_deactivation_con c && outside_unknown c
is_refused files c = not_in c (cot_file_transfer ∷ []) && outside_unknown c
is_refused section_call c = not_in c (cot_request ∷ cot_file_transfer ∷ []) && outside_unknown c
is_refused query_log c =
    not_in c (cot_spontaneous ∷ cot_request ∷ cot_file_transfer ∷ []) && outside_unknown c
is_refused _ c = false

unfoldable pub is_valid_cause : TypeId → Cot → Result MessageError Bool
unfolding group_of is_refused
is_valid_cause t c = elim (group_of t) [
  | unsupported ↦ err cp24_time
  | g ↦ ok (not (is_refused g c))
]
