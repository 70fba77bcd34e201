-- ===== src/Gateway/Protocol/Time/Dates.antt =====
-- rust/gateway-protocol/src/time.rs: the date of a day is a date, and gives the day back.
use slight.Base.{
  ℕ, zero, suc, ap, sym, ◌+◌, ◌-◌, ◌*◌, ◌/◌, ◌%◌, ◌≤◌, ◌<◌, ◌≡◌, refl, arith, leb, ltb, eqb, Bool,
  true, false, ◌&&◌, ◌||◌, if◌then◌else◌,
}
use slight.Base.Int.{ℤ, pos, negsuc, add_ℕ, sub_ℤ, mul_ℕ, neg_ℕ, as_u64}
use slight.Gateway.Protocol.Time.{
  year_of_era, day_of_year, month_of, civil_of_era, era_of, civil_from_days,
}

-- The days from the 1st of March that opens an era to a date in a year that starts in March.
unfoldable pub day_number : ℕ → ℕ → ℕ → ℕ
day_number year month day =
    let mp = if leb month 2 then month + 9 else month - 3 in
    365 * year + year / 4 - year / 100 + (153 * mp + 2) / 5 + day - 1

-- The Gregorian rule.
unfoldable pub is_leap : ℕ → Bool
is_leap year = eqb (year % 4) 0 && (ltb 0 (year % 100) || eqb (year % 400) 0)

-- The length of a month; the flag says whether its year is a leap year.
unfoldable pub month_length : Bool → ℕ → ℕ
month_length leap month =
    if eqb month 2
    then (if leap then 29 else 28)
    else if eqb month 4 || (eqb month 6 || (eqb month 9 || eqb month 11))
    then 30
    else 31

month_bounds :
    (doy : ℕ) → doy ≤ 365 → let mp = (5 * doy + 2) / 153 in (mp ≤ 11) × ((153 * mp + 2) / 5 ≤ doy)
month_bounds doy h = (omega arith, omega arith)

-- Each month of a year that starts in March ends at its length.
month_fits :
    (leap : Bool) (doy mp : ℕ)
    → doy ≤ (if leap then 365 else 364)
    → mp ≤ 11
    → mp ≡ (5 * doy + 2) / 153
    → doy - (153 * mp + 2) / 5 + 1 ≤ month_length leap (month_of mp)
unfolding month_length month_of
month_fits true doy mp h top e = ground (arith, h, top, e)
month_fits false doy mp h top e = ground (arith, h, top, e)

-- The days before a year that starts in March, within its era.
year_start : ℕ → ℕ
year_start yoe = 365 * yoe + yoe / 4 - yoe / 100

year_start-suc :
    (yoe : ℕ)
    → yoe < 400
    → year_start (yoe + 1) + (yoe + 1) / 400
      ≤ year_start yoe + (if is_leap (yoe + 1) then 366 else 365)
unfolding year_start is_leap
year_start-suc yoe h = ground (arith, h)

year_before :
    (doe : ℕ)
    → doe < 146097
    → let yoe = year_of_era doe in
      (yoe < 400) × (year_start yoe ≤ doe) × (doe < year_start (yoe + 1) + (yoe + 1) / 400)
unfolding year_of_era year_start
year_before doe h = (omega arith, omega arith, omega arith)

within_year :
    (leap : Bool) (doe start next : ℕ)
    → start ≤ doe
    → doe < next
    → next ≤ start + (if leap then 366 else 365)
    → doe - start ≤ (if leap then 365 else 364)
within_year true doe start next h k l = omega arith
within_year false doe start next h k l = omega arith

year_bounds :
    (doe : ℕ)
    → doe < 146097
    → let yoe = year_of_era doe in
      (yoe < 400)
      × (365 * yoe + yoe / 4 - yoe / 100 ≤ doe)
      × (day_of_year doe yoe ≤ (if is_leap (yoe + 1) then 365 else 364))
unfolding day_of_year year_start
year_bounds doe h =
    let yoe = year_of_era doe in
    let (small, starts, ends) = year_before doe h in
    (
      small,
      starts,
      within_year (is_leap (yoe + 1)) doe (year_start yoe) (year_start (yoe + 1) + (yoe + 1) / 400)
          starts ends (year_start-suc yoe small),
    )

at_most_365 : (leap : Bool) (doy : ℕ) → doy ≤ (if leap then 365 else 364) → doy ≤ 365
at_most_365 true doy h = h
at_most_365 false doy h = omega arith

month_of-mp :
    (mp : ℕ)
    → mp ≤ 11
    → (1 ≤ month_of mp)
      × (month_of mp ≤ 12)
      × ((if leb (month_of mp) 2 then month_of mp + 9 else month_of mp - 3) ≡ mp)
unfolding month_of
month_of-mp mp h = (ground arith, ground arith, ground arith)

civil_of_era-day_number :
    (first : ℤ) (doe : ℕ)
    → doe < 146097
    → let c = civil_of_era first doe in
      (1 ≤ c.month)
      × (c.month ≤ 12)
      × (1 ≤ c.day)
      × ((year : ℕ) × (year < 400)
          × (c.day ≤ month_length (is_leap (year + 1)) c.month)
          × (c.year ≡ (if leb c.month 2 then add_ℕ (add_ℕ first year) 1 else add_ℕ first year))
          × (day_number year c.month c.day ≡ doe))
unfolding civil_of_era day_number
civil_of_era-day_number first doe h =
    let year = year_of_era doe in
    let doy = day_of_year doe year in
    let (small, within, days) = year_bounds doe h in
    let leap = is_leap (year + 1) in
    let (mp_small, starts) = month_bounds doy (at_most_365 leap doy days) in
    let fits = month_fits leap doy ((5 * doy + 2) / 153) days mp_small refl in
    let (from_1, to_12, back) = month_of-mp ((5 * doy + 2) / 153) mp_small in
    let total : 365 * year + year / 4 - year / 100 + doy ≡ doe =
      unfold day_of_year in omega (arith, within) in
    (from_1, to_12, omega arith, (year, small, fits, refl, rw back (omega (arith, starts, total))))

sub_ℤ-neg_ℕ : (n m : ℕ) → n < m → sub_ℤ (negsuc n) (neg_ℕ m) ≡ pos (m - (n + 1))
sub_ℤ-neg_ℕ n zero h = absurd (omega arith)
sub_ℤ-neg_ℕ n (suc m) h = ground arith

mul_ℕ-neg_ℕ : (q : ℕ) → mul_ℕ (neg_ℕ q) 146097 ≡ neg_ℕ (q * 146097)
mul_ℕ-neg_ℕ zero = refl
mul_ℕ-neg_ℕ (suc q) = ap neg_ℕ (omega arith)

-- The day within its era, of any day.
era_day : (z : ℤ) → (doe : ℕ) × (sub_ℤ z (mul_ℕ (era_of z) 146097) ≡ pos doe) × (doe < 146097)
unfolding era_of
era_day (pos n) = (n % 146097, ground arith, omega arith)
era_day (negsuc n) =
    let q = (n + 146096 + 1) / 146097 in
    (
      q * 146097 - (n + 1),
      rw (mul_ℕ-neg_ℕ q) (sub_ℤ-neg_ℕ n (q * 146097) (omega arith)),
      omega arith,
    )

-- The date of any day, before or after 1970, is one that exists: its month is from 1 to 12, and
-- its day from 1 to the length of that month, by the rule of leap years for the year's place in
-- its era of 400 years; counted back from its year, month and day, by the number of the days since
-- the 1st of March that opens the era, it is the same day.
pub civil_from_days-day_number :
    (days : ℤ)
    → let c = civil_from_days days in
      let z = add_ℕ days 719468 in
      let first = mul_ℕ (era_of z) 400 in
      (1 ≤ c.month)
      × (c.month ≤ 12)
      × (1 ≤ c.day)
      × ((year : ℕ) × (year < 400)
          × (c.day ≤ month_length (is_leap (year + 1)) c.month)
          × (c.year ≡ (if leb c.month 2 then add_ℕ (add_ℕ first year) 1 else add_ℕ first year))
          × (sub_ℤ z (mul_ℕ (era_of z) 146097) ≡ pos (day_number year c.month c.day)))
unfolding civil_from_days
civil_from_days-day_number days =
    let z = add_ℕ days 719468 in
    let first = mul_ℕ (era_of z) 400 in
    let (doe, here, small) = era_day z in
    let whole : as_u64 (pos doe) ≡ doe = omega (arith, small) in
    let (from_1, to_12, from_1st, (year, in_era, fits, named, back)) =
      civil_of_era-day_number first doe small in
    rw (here, whole) (from_1, to_12, from_1st, (year, in_era, fits, named, ap pos (sym back)))
