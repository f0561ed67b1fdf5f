-- ===== src/Examples/Days.antt =====
-- The session of session.py on the days around Thanksgiving 2026.
use ffllowwgreeks.Prelude.{
  ℕ, ◌+◌, ◌*◌, ◌≡◌, ◌↔◌, ◌⊎◌, ◌<◌, ◌≤◌, refl, true, ◌&&◌, none, some, List, [], ◌∷◌, codes, same,
  upper, if◌then◌else◌, arith,
}
use ffllowwgreeks.Prelude.Dict
use ffllowwgreeks.Processing.Calendar.{date, is_in, is_market_holiday, is_business_day}
use ffllowwgreeks.Processing.Session.{
  Settings, Moment, is_rth_now, session_open_today, session_close_today, time_to_expiry_0dte,
  effective_rth_close, early_close_at_eastern, is_expiration_day, set_available_expirations,
  has_index_options, next_business_day, microseconds_per_minute,
}
use ffllowwgreeks.Processing.Session.Clock.{time_to_expiry_0dte_antitone, time_to_expiry_0dte_iff}
use ffllowwgreeks.Processing.Session.Search.{IsFirst, next_business_day-IsFirst}
use ffllowwgreeks.Processing.Session.Listed.{set-is_expiration_day}

abbrev settings : Settings
settings = record {
  rth_open_time = 570;
  rth_close_time = 975;
  override_half_days = [];
  nyse = none;
}

-- Friday after Thanksgiving, 12:00 and 12:59.
abbrev noon : Moment
noon = record { day = date 2026 11 27; time = 720 * microseconds_per_minute }

abbrev last_minute : Moment
last_minute = record { day = date 2026 11 27; time = 779 * microseconds_per_minute }

abbrev at_close : Moment
at_close = record { day = date 2026 11 27; time = 780 * microseconds_per_minute }

-- At the very close the session still counts as open, with no time left.
open_without_time :
    (is_rth_now settings at_close ≡ true) × (time_to_expiry_0dte settings at_close ≡ 0)
unfolding is_rth_now time_to_expiry_0dte session_open_today session_close_today effective_rth_close
    early_close_at_eastern is_business_day is_market_holiday
open_without_time = (refl, refl)

time_to_expiry_0dte_antitone_example :
    time_to_expiry_0dte settings last_minute ≤ time_to_expiry_0dte settings noon
time_to_expiry_0dte_antitone_example =
    time_to_expiry_0dte_antitone settings noon last_minute refl (omega arith)

time_to_expiry_0dte_iff_example : (0 < time_to_expiry_0dte settings noon) ↔ (
    ((is_rth_now settings noon ≡ true) × (noon.time < (session_close_today settings noon).time))
    ⊎ ((is_business_day settings.nyse noon.day ≡ true)
        × (noon.time < (session_open_today settings noon).time)
        × ((session_open_today settings noon).time < (session_close_today settings noon).time)))
time_to_expiry_0dte_iff_example = time_to_expiry_0dte_iff settings noon

next_business_day-IsFirst_example :
    (n : ℕ) × (next_business_day none 7 (date 2026 11 25) ≡ some n)
    × IsFirst none (date 2026 11 25 + 1) n
next_business_day-IsFirst_example = next_business_day-IsFirst (date 2026 11 25)

abbrev friday : ℕ
friday = date 2026 11 27

abbrev spx : List ℕ
spx = codes "SPX"

set-is_expiration_day_example :
    is_expiration_day settings
      (set_available_expirations spx (friday ∷ []) Dict.empty)
      spx
      friday
      none
    ≡ (if same (upper spx) (upper spx)
        then is_business_day none friday
          && has_index_options (upper spx)
          && is_in friday (friday ∷ [])
        else is_expiration_day settings Dict.empty spx friday none)
set-is_expiration_day_example =
    set-is_expiration_day settings Dict.empty spx spx (friday ∷ []) friday
