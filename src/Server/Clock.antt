-- ===== src/Server/Clock.antt =====
-- The date that `onClockSync` of src/Server.cpp gives to its callback.
-- The fields of the library's time and the hours since 1970 are arguments. Python makes a date of them
-- only if they are one; where they are not, the callback gets a null handle.
use iec104_python.Base.{
  ℕ, ◌+◌, ◌*◌, ◌/◌, ◌≤◌, ◌<◌, ◌≡◌, ◌↔◌, arith, Bool, if◌then◌else◌, Option, none, some,
}

-- What the getters of CP56Time2a give.
pub record CpTime : Type 0 where
  pub year : ℕ
  pub month : ℕ
  pub day_of_month : ℕ
  pub hour : ℕ
  pub minute : ℕ
  pub second : ℕ
  pub millisecond : ℕ

-- The arguments of `PyDateTime_FromDateAndTime`.
pub record PyDate : Type 0 where
  pub year : ℕ
  pub month : ℕ
  pub day : ℕ
  pub hour : ℕ
  pub minute : ℕ
  pub second : ℕ
  pub microsecond : ℕ

unfoldable pub century : (hours_utc : ℕ) → ℕ
century hours_utc = (1970 + hours_utc / (24 * 365)) / 100 * 100

unfoldable pub sync_date : (is_date : PyDate → Bool) → (hours_utc : ℕ) → CpTime → Option PyDate
unfolding century
sync_date is_date hours_utc t =
    let date : PyDate = record {
      year = century hours_utc + t.year;
      month = t.month;
      day = t.day_of_month;
      hour = t.hour;
      minute = t.minute;
      second = t.second;
      microsecond = t.millisecond * 1000;
    } in
    if is_date date then some date else none

-- The century begins with the 10950th day of 1970 and ends before the 47450th: seven days before the year
-- 2000, and 32 days before the year 2100, which begin with the days 10957 and 47482.
century_2000 :
    (hours_utc : ℕ)
    → (century hours_utc ≡ 2000) ↔ ((10950 * 24 ≤ hours_utc) × (hours_utc < 47450 * 24))
unfolding century
century_2000 hours_utc = (λ e. (omega (arith, e), omega (arith, e)), λ h. omega (arith, h.0, h.1))
