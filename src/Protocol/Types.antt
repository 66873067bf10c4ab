-- ===== src/Protocol/Types.antt =====
-- Type identifications, as IEC 60870-5-101 numbers them. An `IEC60870_5_TypeID` is a byte of the
-- frame, so it is a number and may be none of these.
use Prim.Native.Nat.{ℕ}

abbrev pub TypeId : Type 0
TypeId = ℕ

abbrev pub m_sp_na_1 : TypeId
m_sp_na_1 = 1

abbrev pub m_sp_ta_1 : TypeId
m_sp_ta_1 = 2

abbrev pub m_dp_na_1 : TypeId
m_dp_na_1 = 3

abbrev pub m_dp_ta_1 : TypeId
m_dp_ta_1 = 4

abbrev pub m_st_na_1 : TypeId
m_st_na_1 = 5

abbrev pub m_st_ta_1 : TypeId
m_st_ta_1 = 6

abbrev pub m_bo_na_1 : TypeId
m_bo_na_1 = 7

abbrev pub m_bo_ta_1 : TypeId
m_bo_ta_1 = 8

abbrev pub m_me_na_1 : TypeId
m_me_na_1 = 9

abbrev pub m_me_ta_1 : TypeId
m_me_ta_1 = 10

abbrev pub m_me_nb_1 : TypeId
m_me_nb_1 = 11

abbrev pub m_me_tb_1 : TypeId
m_me_tb_1 = 12

abbrev pub m_me_nc_1 : TypeId
m_me_nc_1 = 13

abbrev pub m_me_tc_1 : TypeId
m_me_tc_1 = 14

abbrev pub m_it_na_1 : TypeId
m_it_na_1 = 15

abbrev pub m_it_ta_1 : TypeId
m_it_ta_1 = 16

abbrev pub m_ep_ta_1 : TypeId
m_ep_ta_1 = 17

abbrev pub m_ep_tb_1 : TypeId
m_ep_tb_1 = 18

abbrev pub m_ep_tc_1 : TypeId
m_ep_tc_1 = 19

abbrev pub m_ps_na_1 : TypeId
m_ps_na_1 = 20

abbrev pub m_me_nd_1 : TypeId
m_me_nd_1 = 21

abbrev pub m_sp_tb_1 : TypeId
m_sp_tb_1 = 30

abbrev pub m_dp_tb_1 : TypeId
m_dp_tb_1 = 31

abbrev pub m_st_tb_1 : TypeId
m_st_tb_1 = 32

abbrev pub m_bo_tb_1 : TypeId
m_bo_tb_1 = 33

abbrev pub m_me_td_1 : TypeId
m_me_td_1 = 34

abbrev pub m_me_te_1 : TypeId
m_me_te_1 = 35

abbrev pub m_me_tf_1 : TypeId
m_me_tf_1 = 36

abbrev pub m_it_tb_1 : TypeId
m_it_tb_1 = 37

abbrev pub m_ep_td_1 : TypeId
m_ep_td_1 = 38

abbrev pub m_ep_te_1 : TypeId
m_ep_te_1 = 39

abbrev pub m_ep_tf_1 : TypeId
m_ep_tf_1 = 40

abbrev pub s_it_tc_1 : TypeId
s_it_tc_1 = 41

abbrev pub c_sc_na_1 : TypeId
c_sc_na_1 = 45

abbrev pub c_dc_na_1 : TypeId
c_dc_na_1 = 46

abbrev pub c_rc_na_1 : TypeId
c_rc_na_1 = 47

abbrev pub c_se_na_1 : TypeId
c_se_na_1 = 48

abbrev pub c_se_nb_1 : TypeId
c_se_nb_1 = 49

abbrev pub c_se_nc_1 : TypeId
c_se_nc_1 = 50

abbrev pub c_bo_na_1 : TypeId
c_bo_na_1 = 51

abbrev pub c_sc_ta_1 : TypeId
c_sc_ta_1 = 58

abbrev pub c_dc_ta_1 : TypeId
c_dc_ta_1 = 59

abbrev pub c_rc_ta_1 : TypeId
c_rc_ta_1 = 60

abbrev pub c_se_ta_1 : TypeId
c_se_ta_1 = 61

abbrev pub c_se_tb_1 : TypeId
c_se_tb_1 = 62

abbrev pub c_se_tc_1 : TypeId
c_se_tc_1 = 63

abbrev pub c_bo_ta_1 : TypeId
c_bo_ta_1 = 64

abbrev pub m_ei_na_1 : TypeId
m_ei_na_1 = 70

abbrev pub c_ic_na_1 : TypeId
c_ic_na_1 = 100

abbrev pub c_ci_na_1 : TypeId
c_ci_na_1 = 101

abbrev pub c_rd_na_1 : TypeId
c_rd_na_1 = 102

abbrev pub c_cs_na_1 : TypeId
c_cs_na_1 = 103

abbrev pub c_ts_na_1 : TypeId
c_ts_na_1 = 104

abbrev pub c_rp_na_1 : TypeId
c_rp_na_1 = 105

abbrev pub c_cd_na_1 : TypeId
c_cd_na_1 = 106

abbrev pub c_ts_ta_1 : TypeId
c_ts_ta_1 = 107

abbrev pub p_me_na_1 : TypeId
p_me_na_1 = 110

abbrev pub p_me_nb_1 : TypeId
p_me_nb_1 = 111

abbrev pub p_me_nc_1 : TypeId
p_me_nc_1 = 112

abbrev pub p_ac_na_1 : TypeId
p_ac_na_1 = 113

abbrev pub f_fr_na_1 : TypeId
f_fr_na_1 = 120

abbrev pub f_sr_na_1 : TypeId
f_sr_na_1 = 121

abbrev pub f_sc_na_1 : TypeId
f_sc_na_1 = 122

abbrev pub f_ls_na_1 : TypeId
f_ls_na_1 = 123

abbrev pub f_af_na_1 : TypeId
f_af_na_1 = 124

abbrev pub f_sg_na_1 : TypeId
f_sg_na_1 = 125

abbrev pub f_dr_ta_1 : TypeId
f_dr_ta_1 = 126

abbrev pub f_sc_nb_1 : TypeId
f_sc_nb_1 = 127
