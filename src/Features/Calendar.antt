-- ===== src/Features/Calendar.antt =====
-- `_calendar_date` and `calendar_days_between` of src/rex/features/repeat_exposure.py, with what they use
-- of datetime.date. Dates are natural numbers.
use tiktok_techjam_recsys_ag.Prelude.{
  ℕ, ◌+◌, ◌-◌, ◌*◌, ◌/◌, ◌%◌, Bool, not, ◌&&◌, ◌||◌, Option, some, ◌==◌, nat_eq, leb, ltb,
  if◌then◌else◌,
}
use tiktok_techjam_recsys_ag.Prelude.Int.{ℤ, sub_ℕ}
use tiktok_techjam_recsys_ag.Data.Arrays.{◌>>=◌, ◌>>◌, require}

pub record Date : Type 0 where
  pub year : ℕ
  pub month : ℕ
  pub day : ℕ

abbrev is_leap : ℕ → Bool
is_leap year = year % 4 == 0 && (not (year % 100 == 0) || year % 400 == 0)

abbrev days_in_month : ℕ → ℕ → ℕ
days_in_month year month =
    if month == 2
    then (if is_leap year then 29 else 28)
    else (if month == 4 || month == 6 || month == 9 || month == 11 then 30 else 31)

-- The days of the year before a month: those of its months from the first on.
days_before_month : ℕ → ℕ → ℕ
days_before_month year Prim.Native.Nat.zero = 0
days_before_month year (Prim.Native.Nat.suc m) =
    if m == 0 then 0 else days_before_month year m + days_in_month year m

days_before_year : ℕ → ℕ
days_before_year year = (year - 1) * 365 + (year - 1) / 4 - (year - 1) / 100 + (year - 1) / 400

-- `date.toordinal`
unfoldable pub ordinal : Date → ℕ
unfolding days_before_month days_before_year
ordinal date = days_before_year date.year + days_before_month date.year date.month + date.day

-- `date(year, month, day)`, which raises where there is no such day.
unfoldable pub new_date : ℕ → ℕ → ℕ → Option Date
new_date year month day = do
  require (leb 1 year && leb year 9999)
  require (leb 1 month && leb month 12)
  require (leb 1 day && leb day (days_in_month year month))
  some (record { year = year; month = month; day = day })

-- `_calendar_date`: eight digits, of which the first four are the year.
unfoldable pub calendar_date : ℕ → Option Date
calendar_date value = do
  require (leb 10000000 value && ltb value 100000000)
  new_date (value / 10000) (value / 100 % 100) (value % 100)

unfoldable pub calendar_days_between : ℕ → ℕ → Option ℤ
calendar_days_between later earlier = do
  after ← calendar_date later
  before ← calendar_date earlier
  some (sub_ℕ (ordinal after) (ordinal before))
