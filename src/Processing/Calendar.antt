-- ===== src/Processing/Calendar.antt =====
-- Python's `datetime.date` and the calendar of the exchange as processing/session.py of
-- archive/python-legacy/backend/app has them: a date is its ordinal, as `date.toordinal` counts it.
use ffllowwgreeks.Prelude.{
  ℕ, ◌+◌, ◌-◌, ◌*◌, ◌/◌, ◌%◌, Bool, false, ◌&&◌, ◌||◌, not, List, [], ◌∷◌, leb, ◌==◌, if◌then◌else◌,
  Option, none, some, take,
}

abbrev sum : List ℕ → ℕ
sum [] = 0
sum (n ∷ ns) = n + sum ns

abbrev is_leap : ℕ → Bool
is_leap y = y % 4 == 0 && (not (y % 100 == 0) || y % 400 == 0)

abbrev days_before_year : ℕ → ℕ
days_before_year y = let p = y - 1 in p * 365 + p / 4 - p / 100 + p / 400

abbrev days_before_month : ℕ → ℕ → ℕ
days_before_month y m =
    sum (take (m - 1) (31 ∷ 28 ∷ 31 ∷ 30 ∷ 31 ∷ 30 ∷ 31 ∷ 31 ∷ 30 ∷ 31 ∷ 30 ∷ []))
    + (if is_leap y && leb 3 m then 1 else 0)

-- date(y, m, d)
abbrev pub date : ℕ → ℕ → ℕ → ℕ
date y m d = days_before_year y + days_before_month y m + d

-- Monday is 0.
abbrev pub weekday : ℕ → ℕ
weekday d = (d + 6) % 7

abbrev pub is_in : ℕ → List ℕ → Bool
is_in d [] = false
is_in d (e ∷ es) = e == d || is_in d es

-- `_NYSE_HOLIDAYS_HARDCODED`: full closures, 2025 to 2028.
abbrev pub nyse_holidays_hardcoded : List ℕ
nyse_holidays_hardcoded =
    date 2025 1 1
    ∷ date 2025 1 20
    ∷ date 2025 2 17
    ∷ date 2025 4 18
    ∷ date 2025 5 26
    ∷ date 2025 6 19
    ∷ date 2025 7 4
    ∷ date 2025 9 1
    ∷ date 2025 11 27
    ∷ date 2025 12 25
    ∷ date 2026 1 1
    ∷ date 2026 1 19
    ∷ date 2026 2 16
    ∷ date 2026 4 3
    ∷ date 2026 5 25
    ∷ date 2026 6 19
    ∷ date 2026 7 3
    ∷ date 2026 9 7
    ∷ date 2026 11 26
    ∷ date 2026 12 25
    ∷ date 2027 1 1
    ∷ date 2027 1 18
    ∷ date 2027 2 15
    ∷ date 2027 3 26
    ∷ date 2027 5 31
    ∷ date 2027 6 18
    ∷ date 2027 7 5
    ∷ date 2027 9 6
    ∷ date 2027 11 25
    ∷ date 2027 12 24
    ∷ date 2028 1 17
    ∷ date 2028 2 21
    ∷ date 2028 4 14
    ∷ date 2028 5 29
    ∷ date 2028 6 19
    ∷ date 2028 7 4
    ∷ date 2028 9 4
    ∷ date 2028 11 23
    ∷ date 2028 12 25
    ∷ []

-- `_NYSE_HALF_DAYS_HARDCODED`: early closes, 2024 to 2030.
abbrev pub nyse_half_days_hardcoded : List ℕ
nyse_half_days_hardcoded =
    date 2024 7 3
    ∷ date 2024 11 29
    ∷ date 2024 12 24
    ∷ date 2025 7 3
    ∷ date 2025 11 28
    ∷ date 2025 12 24
    ∷ date 2026 11 27
    ∷ date 2026 12 24
    ∷ date 2027 11 26
    ∷ date 2028 7 3
    ∷ date 2028 11 24
    ∷ date 2029 7 3
    ∷ date 2029 11 23
    ∷ date 2029 12 24
    ∷ date 2030 7 3
    ∷ date 2030 11 29
    ∷ date 2030 12 24
    ∷ []

-- `_us_market_holidays`: the NYSE calendar of the `holidays` package, if it has one.
unfoldable pub is_market_holiday : Option (ℕ → Bool) → ℕ → Bool
is_market_holiday (some nyse) d = nyse d
is_market_holiday none d = is_in d nyse_holidays_hardcoded

unfoldable pub is_business_day : Option (ℕ → Bool) → ℕ → Bool
unfolding is_market_holiday
is_business_day nyse d = not (leb 5 (weekday d)) && not (is_market_holiday nyse d)
