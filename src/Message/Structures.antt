-- ===== src/Message/Structures.antt =====
-- What becomes of the information object of an outgoing message: the structures of the library that the
-- constructors of src/remote/message/PointMessage.cpp and PointCommand.cpp create for a type, and those
-- that their destructors destroy. A structure goes by its name in the library.
use iec104_python.Base.{◌==◌, if◌then◌else◌, List, [], ◌∷◌}
use iec104_python.Text.{Text, codes}
use iec104_python.Protocol
use iec104_python.Protocol.{TypeId}

abbrev Labels : Type 0
Labels = List (TypeId × List Text)

-- The branch of a `switch`.
abbrev branch : TypeId → Labels → List Text
branch t [] = []
branch t ((label, structures) ∷ labels) = if t == label then structures else branch t labels

unfoldable pub message_created : TypeId → List Text
message_created t = branch t (
    (Protocol.m_sp_na_1, codes "SinglePointInformation" ∷ [])
    ∷ (Protocol.m_sp_tb_1, codes "SinglePointWithCP56Time2a" ∷ [])
    ∷ (Protocol.m_dp_na_1, codes "DoublePointInformation" ∷ [])
    ∷ (Protocol.m_dp_tb_1, codes "DoublePointWithCP56Time2a" ∷ [])
    ∷ (Protocol.m_st_na_1, codes "StepPositionInformation" ∷ [])
    ∷ (Protocol.m_st_tb_1, codes "StepPositionWithCP56Time2a" ∷ [])
    ∷ (Protocol.m_bo_na_1, codes "BitString32" ∷ [])
    ∷ (Protocol.m_bo_tb_1, codes "Bitstring32WithCP56Time2a" ∷ [])
    ∷ (Protocol.m_me_na_1, codes "MeasuredValueNormalized" ∷ [])
    ∷ (Protocol.m_me_td_1, codes "MeasuredValueNormalizedWithCP56Time2a" ∷ [])
    ∷ (Protocol.m_me_nb_1, codes "MeasuredValueScaled" ∷ [])
    ∷ (Protocol.m_me_te_1, codes "MeasuredValueScaledWithCP56Time2a" ∷ [])
    ∷ (Protocol.m_me_nc_1, codes "MeasuredValueShort" ∷ [])
    ∷ (Protocol.m_me_tf_1, codes "MeasuredValueShortWithCP56Time2a" ∷ [])
    ∷ (Protocol.m_it_na_1, codes "BinaryCounterReading" ∷ [])
    ∷ (
      Protocol.m_it_tb_1,
      codes "BinaryCounterReading" ∷ codes "IntegratedTotalsWithCP56Time2a" ∷ [],
    )
    ∷ (Protocol.m_me_nd_1, codes "MeasuredValueNormalizedWithoutQuality" ∷ [])
    ∷ [])

unfoldable pub message_destroyed : TypeId → List Text
message_destroyed t = branch t (
    (Protocol.m_sp_na_1, codes "SinglePointInformation" ∷ [])
    ∷ (Protocol.m_sp_tb_1, codes "SinglePointWithCP56Time2a" ∷ [])
    ∷ (Protocol.m_dp_na_1, codes "DoublePointInformation" ∷ [])
    ∷ (Protocol.m_dp_tb_1, codes "DoublePointWithCP56Time2a" ∷ [])
    ∷ (Protocol.m_st_na_1, codes "StepPositionInformation" ∷ [])
    ∷ (Protocol.m_st_tb_1, codes "StepPositionWithCP56Time2a" ∷ [])
    ∷ (Protocol.m_bo_na_1, codes "BitString32" ∷ [])
    ∷ (Protocol.m_bo_tb_1, codes "Bitstring32WithCP56Time2a" ∷ [])
    ∷ (Protocol.m_me_na_1, codes "MeasuredValueNormalized" ∷ [])
    ∷ (Protocol.m_me_td_1, codes "MeasuredValueNormalizedWithCP56Time2a" ∷ [])
    ∷ (Protocol.m_me_nb_1, codes "MeasuredValueScaled" ∷ [])
    ∷ (Protocol.m_me_te_1, codes "MeasuredValueScaledWithCP56Time2a" ∷ [])
    ∷ (Protocol.m_me_nc_1, codes "MeasuredValueShort" ∷ [])
    ∷ (Protocol.m_me_tf_1, codes "MeasuredValueShortWithCP56Time2a" ∷ [])
    ∷ (Protocol.m_it_na_1, codes "IntegratedTotals" ∷ [])
    ∷ (Protocol.m_it_tb_1, codes "IntegratedTotalsWithCP56Time2a" ∷ [])
    ∷ (Protocol.m_ep_td_1, codes "EventOfProtectionEquipmentWithCP56Time2a" ∷ [])
    ∷ (Protocol.m_ep_te_1, codes "PackedStartEventsOfProtectionEquipmentWithCP56Time2a" ∷ [])
    ∷ (Protocol.m_ep_tf_1, codes "PackedOutputCircuitInfoWithCP56Time2a" ∷ [])
    ∷ (Protocol.m_ps_na_1, codes "PackedSinglePointWithSCD" ∷ [])
    ∷ (Protocol.m_me_nd_1, codes "MeasuredValueNormalizedWithoutQuality" ∷ [])
    ∷ [])

unfoldable pub command_created : TypeId → List Text
command_created t = branch t (
    (Protocol.c_sc_na_1, codes "SingleCommand" ∷ [])
    ∷ (Protocol.c_sc_ta_1, codes "SingleCommandWithCP56Time2a" ∷ [])
    ∷ (Protocol.c_dc_na_1, codes "DoubleCommand" ∷ [])
    ∷ (Protocol.c_dc_ta_1, codes "DoubleCommandWithCP56Time2a" ∷ [])
    ∷ (Protocol.c_rc_na_1, codes "StepCommand" ∷ [])
    ∷ (Protocol.c_rc_ta_1, codes "StepCommandWithCP56Time2a" ∷ [])
    ∷ (Protocol.c_bo_na_1, codes "Bitstring32Command" ∷ [])
    ∷ (Protocol.c_bo_ta_1, codes "Bitstring32CommandWithCP56Time2a" ∷ [])
    ∷ (Protocol.c_se_na_1, codes "SetpointCommandNormalized" ∷ [])
    ∷ (Protocol.c_se_ta_1, codes "SetpointCommandNormalizedWithCP56Time2a" ∷ [])
    ∷ (Protocol.c_se_nb_1, codes "SetpointCommandScaled" ∷ [])
    ∷ (Protocol.c_se_tb_1, codes "SetpointCommandScaledWithCP56Time2a" ∷ [])
    ∷ (Protocol.c_se_nc_1, codes "SetpointCommandShort" ∷ [])
    ∷ (Protocol.c_se_tc_1, codes "SetpointCommandShortWithCP56Time2a" ∷ [])
    ∷ [])

unfoldable pub command_destroyed : TypeId → List Text
command_destroyed t = branch t (
    (Protocol.c_sc_na_1, codes "SingleCommand" ∷ [])
    ∷ (Protocol.c_sc_ta_1, codes "SingleCommandWithCP56Time2a" ∷ [])
    ∷ (Protocol.c_dc_na_1, codes "DoubleCommand" ∷ [])
    ∷ (Protocol.c_dc_ta_1, codes "DoubleCommandWithCP56Time2a" ∷ [])
    ∷ (Protocol.c_rc_na_1, codes "StepCommand" ∷ [])
    ∷ (Protocol.c_rc_ta_1, codes "StepCommandWithCP56Time2a" ∷ [])
    ∷ (Protocol.c_bo_na_1, codes "Bitstring32Command" ∷ [])
    ∷ (Protocol.c_bo_ta_1, codes "Bitstring32CommandWithCP56Time2a" ∷ [])
    ∷ (Protocol.c_se_na_1, codes "SetpointCommandNormalized" ∷ [])
    ∷ (Protocol.c_se_ta_1, codes "SetpointCommandNormalizedWithCP56Time2a" ∷ [])
    ∷ (Protocol.c_se_nb_1, codes "SetpointCommandScaled" ∷ [])
    ∷ (Protocol.c_se_tb_1, codes "SetpointCommandScaledWithCP56Time2a" ∷ [])
    ∷ (Protocol.c_se_nc_1, codes "SetpointCommandShort" ∷ [])
    ∷ (Protocol.c_se_tc_1, codes "SetpointCommandShortWithCP56Time2a" ∷ [])
    ∷ [])
