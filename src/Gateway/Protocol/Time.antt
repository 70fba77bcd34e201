-- ===== src/Gateway/Protocol/Time.antt =====
-- rust/gateway-protocol/src/time.rs: milliseconds since 1970 as a date and time of RFC 3339.
pub mod Dates
use slight.Base.{ℕ, zero, suc, ◌+◌, ◌-◌, ◌*◌, ◌/◌, ◌%◌, String, if◌then◌else◌, ltb, leb}
use slight.Base.Int.{
  ℤ, pos, negsuc, add_ℕ, take_ℕ, mul_ℕ, div_ℕ, sub_ℤ, div_euclid, rem_euclid, as_u64, leb_ℤ,
}
use slight.Base.Text.{◌++◌, decimal, length_chars}

-- `{n:0w}`: zeros up to the width, a sign counted.
zeros : ℕ → String
zeros zero = ""
zeros (suc n) = "0" ++ zeros n

unfoldable pub padded : ℕ → ℕ → String
unfolding zeros
padded width n = let s = decimal n in zeros (width - length_chars s) ++ s

unfoldable pub padded_ℤ : ℕ → ℤ → String
padded_ℤ width (pos n) = padded width n
padded_ℤ width (negsuc n) = "-" ++ padded (width - 1) (n + 1)

pub record Civil : Type 0 where
  pub year : ℤ
  pub month : ℕ
  pub day : ℕ

unfoldable pub era_of : ℤ → ℤ
era_of z = div_ℕ (if leb_ℤ (pos 0) z then z else take_ℕ z 146096) 146097

unfoldable pub year_of_era : ℕ → ℕ
year_of_era doe = (doe - doe / 1460 + doe / 36524 - doe / 146096) / 365

unfoldable pub day_of_year : ℕ → ℕ → ℕ
day_of_year doe yoe = doe - (365 * yoe + yoe / 4 - yoe / 100)

unfoldable pub month_of : ℕ → ℕ
month_of mp = if ltb mp 10 then mp + 3 else mp - 9

-- The date of a day within its era, whose first day is the 1st of March of the year `first`.
unfoldable pub civil_of_era : ℤ → ℕ → Civil
civil_of_era first doe =
    let yoe = year_of_era doe in
    let year = add_ℕ first yoe in
    let doy = day_of_year doe yoe in
    let mp = (5 * doy + 2) / 153 in
    let day = doy - (153 * mp + 2) / 5 + 1 in
    let month = month_of mp in
    record { year = if leb month 2 then add_ℕ year 1 else year; month = month; day = day }

unfoldable pub civil_from_days : ℤ → Civil
civil_from_days days =
    let z = add_ℕ days 719468 in
    let era = era_of z in civil_of_era (mul_ℕ era 400) (as_u64 (sub_ℤ z (mul_ℕ era 146097)))

unfoldable pub time_text : Civil → ℕ → ℕ → String
time_text date seconds_of_day millis =
    let hour = seconds_of_day / 3600 in
    let minute = seconds_of_day % 3600 / 60 in
    let second = seconds_of_day % 60 in
    let fraction = if ltb 0 millis then "." ++ padded 3 millis else "" in
    padded_ℤ 4 date.year
    ++ ("-"
        ++ (padded 2 date.month
            ++ ("-"
                ++ (padded 2 date.day
                    ++ ("T"
                        ++ (padded 2 hour
                            ++ (":"
                                ++ (padded 2 minute
                                    ++ (":" ++ (padded 2 second ++ (fraction ++ "Z")))))))))))

unfoldable pub rfc3339_from_ms : ℤ → String
rfc3339_from_ms ms =
    let seconds = div_euclid ms 1000 in
    time_text (civil_from_days (div_euclid seconds 86400)) (rem_euclid seconds 86400)
      (rem_euclid ms 1000)
