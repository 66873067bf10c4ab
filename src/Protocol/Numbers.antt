-- ===== src/Protocol/Numbers.antt =====
-- Causes of transmission, qualifiers, quality bits and addresses.
use Prim.Native.Nat.{ℕ}

abbrev pub Cot : Type 0
Cot = ℕ

abbrev pub cot_periodic : Cot
cot_periodic = 1

abbrev pub cot_background_scan : Cot
cot_background_scan = 2

abbrev pub cot_spontaneous : Cot
cot_spontaneous = 3

abbrev pub cot_initialized : Cot
cot_initialized = 4

abbrev pub cot_request : Cot
cot_request = 5

abbrev pub cot_activation : Cot
cot_activation = 6

abbrev pub cot_activation_con : Cot
cot_activation_con = 7

abbrev pub cot_deactivation : Cot
cot_deactivation = 8

abbrev pub cot_deactivation_con : Cot
cot_deactivation_con = 9

abbrev pub cot_activation_termination : Cot
cot_activation_termination = 10

abbrev pub cot_return_info_remote : Cot
cot_return_info_remote = 11

abbrev pub cot_return_info_local : Cot
cot_return_info_local = 12

abbrev pub cot_file_transfer : Cot
cot_file_transfer = 13

abbrev pub cot_interrogated_by_station : Cot
cot_interrogated_by_station = 20

abbrev pub cot_interrogated_by_group_16 : Cot
cot_interrogated_by_group_16 = 36

abbrev pub cot_requested_by_general_counter : Cot
cot_requested_by_general_counter = 37

abbrev pub cot_requested_by_group_4_counter : Cot
cot_requested_by_group_4_counter = 41

abbrev pub cot_unknown_type_id : Cot
cot_unknown_type_id = 44

abbrev pub cot_unknown_cot : Cot
cot_unknown_cot = 45

abbrev pub cot_unknown_ca : Cot
cot_unknown_ca = 46

abbrev pub cot_unknown_ioa : Cot
cot_unknown_ioa = 47

abbrev pub qoi_station : ℕ
qoi_station = 20

abbrev pub qoi_group_16 : ℕ
qoi_group_16 = 36

abbrev pub qcc_rqt_general : ℕ
qcc_rqt_general = 5

abbrev pub global_common_address : ℕ
global_common_address = 65535

abbrev pub default_port : ℕ
default_port = 2404

abbrev pub quality_none : ℕ
quality_none = 0

abbrev pub quality_overflow : ℕ
quality_overflow = 1

abbrev pub quality_reserved : ℕ
quality_reserved = 4

abbrev pub quality_elapsed_time_invalid : ℕ
quality_elapsed_time_invalid = 8

abbrev pub quality_blocked : ℕ
quality_blocked = 16

abbrev pub quality_substituted : ℕ
quality_substituted = 32

abbrev pub quality_non_topical : ℕ
quality_non_topical = 64

abbrev pub quality_invalid : ℕ
quality_invalid = 128
