-- ===== src/Point/Data.antt =====
-- The state of a point, its constructor and the checked setters (src/object/DataPoint.cpp).
use iec104_python.Base.{
  ℕ, Bool, not, ◌==◌, ltb, ◌||◌, ◌&&◌, if◌then◌else◌, Result, ok, ◌>>◌, throw_if,
}
use iec104_python.Protocol.{TypeId, m_ei_na_1, m_ep_tf_1, c_sc_na_1, c_bo_ta_1, quality_none}
use iec104_python.Value.{Double, int}
use iec104_python.Base.{pos}

pub record DataPoint : Type 0 where
  pub address : ℕ
  pub type : TypeId
  pub is_server : Bool
  pub related_address : ℕ
  pub related_auto_return : Bool
  pub value : Double
  pub quality : ℕ
  pub updated_at : ℕ
  pub reported_at : ℕ
  pub report_interval : ℕ
  pub received_at : ℕ
  pub sent_at : ℕ

-- The `std::invalid_argument` exceptions, in the order of the constructor.
pub data PointError : Type 0 where
  unsupported_type invalid_address report_not_monitoring report_not_server related_not_server
        auto_return_without_related auto_return_not_control invalid_related_address :
      PointError

-- The greatest address that the code accepts.
abbrev pub max_address : ℕ
max_address = 16777216

abbrev not_control : TypeId → Bool
not_control type = ltb type c_sc_na_1 || ltb c_bo_ta_1 type

-- `local` says that the station exists and belongs to a server.
unfoldable pub create :
    (address : ℕ)
    → TypeId
    → (local : Bool) → (report_interval related_address : ℕ) → (auto_return : Bool)
    → Result PointError DataPoint
create address type local report_interval related_address auto_return = do
  throw_if (not (ltb type m_ei_na_1)) unsupported_type
  throw_if (ltb address 1 || ltb max_address address) invalid_address
  throw_if (not (report_interval == 0) && ltb m_ep_tf_1 type) report_not_monitoring
  throw_if (not (report_interval == 0) && not local) report_not_server
  throw_if (ltb 0 related_address && not local) related_not_server
  throw_if (auto_return && ltb related_address 1) auto_return_without_related
  throw_if (auto_return && not_control type) auto_return_not_control
  ok (record {
    address = address;
    type = type;
    is_server = local;
    related_address = related_address;
    related_auto_return = auto_return;
    value = int (pos 0);
    quality = quality_none;
    updated_at = 0;
    reported_at = 0;
    report_interval = report_interval;
    received_at = 0;
    sent_at = 0;
  })

unfoldable pub set_related_address : ℕ → DataPoint → Result PointError DataPoint
set_related_address related p = do
  throw_if (ltb 0 related && ltb max_address related) invalid_related_address
  throw_if (ltb 0 related && not p.is_server) related_not_server
  ok (record p { related_address = related })

unfoldable pub set_related_auto_return : Bool → DataPoint → Result PointError DataPoint
set_related_auto_return auto_return p = do
  throw_if (auto_return && ltb p.related_address 1) auto_return_without_related
  throw_if (auto_return && not_control p.type) auto_return_not_control
  ok (record p { related_auto_return = auto_return })

unfoldable pub set_report_interval : ℕ → DataPoint → Result PointError DataPoint
set_report_interval interval p = do
  throw_if (ltb m_ep_tf_1 p.type) report_not_monitoring
  throw_if (not p.is_server) report_not_server
  ok (record p { report_interval = interval })

unfoldable pub set_quality : ℕ → DataPoint → DataPoint
set_quality quality p = if p.quality == quality then p else record p { quality = quality }
