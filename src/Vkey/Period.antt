-- ===== src/Vkey/Period.antt =====
-- crates/router-core/src/vkey.rs, `period_ordinal` and `civil_from_days`. The days since the epoch are
-- never negative here, so that the source's signed divisions are those of natural numbers.
use rapidrouter.Prelude.{ℕ, ◌+◌, ◌-◌, ◌*◌, ◌/◌, ltb, leb, if◌then◌else◌}

pub data BudgetPeriod : Type 0 where
  daily weekly monthly : BudgetPeriod

-- The day of an era of 400 years, and the year, day and month of that era that hold it.
year_of_era : ℕ → ℕ
year_of_era doe = (doe - doe / 1460 + doe / 36524 - doe / 146096) / 365

day_of_year : ℕ → ℕ → ℕ
day_of_year doe yoe = doe - (365 * yoe + yoe / 4 - yoe / 100)

month_place : ℕ → ℕ
month_place doy = (5 * doy + 2) / 153

month_of : ℕ → ℕ
month_of mp = if ltb mp 10 then mp + 3 else mp - 9

unfoldable pub civil_from_days : ℕ → ℕ × ℕ × ℕ
unfolding year_of_era day_of_year month_place month_of
civil_from_days days =
    let z = days + 719468 in
    let era = z / 146097 in
    let doe = z - era * 146097 in
    let yoe = year_of_era doe in
    let y = yoe + era * 400 in
    let doy = day_of_year doe yoe in
    let mp = month_place doy in
    let d = doy - (153 * mp + 2) / 5 + 1 in
    let m = month_of mp in (if leb m 2 then y + 1 else y, m, d)

unfoldable pub period_ordinal : BudgetPeriod → ℕ → ℕ
unfolding civil_from_days
period_ordinal daily unix_ms = unix_ms / 86400000
period_ordinal weekly unix_ms = unix_ms / 86400000 / 7
period_ordinal monthly unix_ms =
    let (year, month, day) = civil_from_days (unix_ms / 86400000) in year * 12 + (month - 1)
