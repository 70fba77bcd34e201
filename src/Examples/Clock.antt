-- ===== src/Examples/Clock.antt =====
-- Dates and times at days that are known.
use slight.Base.{ℕ, ◌+◌, ◌≤◌, ◌<◌, ◌≡◌, refl, if◌then◌else◌, leb}
use slight.Base.Int.{pos, negsuc, add_ℕ, mul_ℕ, sub_ℤ}
use slight.Base.Text.{length_chars, decimal}
use slight.Gateway.Protocol.Time.{
  civil_from_days, civil_of_era, era_of, year_of_era, day_of_year, month_of, rfc3339_from_ms,
  time_text, padded, padded_ℤ,
}
use slight.Gateway.Protocol.Time.Dates.{
  day_number, is_leap, month_length, civil_from_days-day_number,
}

-- The 29th of February 2024, which is day 19782.
civil_from_days-day_number_example :
    let c = civil_from_days (pos 19782) in
    let z = add_ℕ (pos 19782) 719468 in
    (1 ≤ c.month)
    × (c.month ≤ 12)
    × (1 ≤ c.day)
    × ((year : ℕ) × (year < 400)
        × (c.day ≤ month_length (is_leap (year + 1)) c.month)
        × (c.year ≡ (
            if leb c.month 2
            then add_ℕ (add_ℕ (mul_ℕ (era_of z) 400) year) 1
            else add_ℕ (mul_ℕ (era_of z) 400) year))
        × (sub_ℤ z (mul_ℕ (era_of z) 146097) ≡ pos (day_number year c.month c.day)))
civil_from_days-day_number_example = civil_from_days-day_number (pos 19782)

leap_day : civil_from_days (pos 19782) ≡ record { year = pos 2024; month = 2; day = 29 }
unfolding civil_from_days civil_of_era era_of year_of_era day_of_year month_of
leap_day = refl

before_the_epoch : civil_from_days (negsuc 0) ≡ record { year = pos 1969; month = 12; day = 31 }
unfolding civil_from_days civil_of_era era_of year_of_era day_of_year month_of
before_the_epoch = refl

epoch : rfc3339_from_ms (pos 0) ≡ "1970-01-01T00:00:00Z"
unfolding rfc3339_from_ms time_text padded_ℤ padded civil_from_days civil_of_era era_of year_of_era
    day_of_year month_of length_chars decimal
epoch = refl
