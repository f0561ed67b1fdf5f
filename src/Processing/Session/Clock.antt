-- ===== src/Processing/Session/Clock.antt =====
-- How the predicates of session.py on the clock fit together.
use ffllowwgreeks.Prelude.{◌≤◌, ◌<◌, ◌≡◌, ◌↔◌, ◌⊎◌, true, arith}
use ffllowwgreeks.Processing.Calendar.{is_business_day}
use ffllowwgreeks.Processing.Session.{
  Settings, Moment, is_rth_now, session_open_today, session_close_today, time_to_expiry_0dte,
}

-- The time left never grows in the course of a day.
pub time_to_expiry_0dte_antitone :
    (s : Settings) (now later : Moment)
    → now.day ≡ later.day
    → now.time ≤ later.time
    → time_to_expiry_0dte s later ≤ time_to_expiry_0dte s now
unfolding time_to_expiry_0dte session_open_today session_close_today
time_to_expiry_0dte_antitone s now later e h = rw (← e) (ground arith)

-- Time is left exactly in regular hours before the close, or before an opening that is itself
-- before the close, on a business day.
pub time_to_expiry_0dte_iff :
    (s : Settings) (now : Moment)
    → (0 < time_to_expiry_0dte s now) ↔ (
        ((is_rth_now s now ≡ true) × (now.time < (session_close_today s now).time))
        ⊎ ((is_business_day s.nyse now.day ≡ true)
            × (now.time < (session_open_today s now).time)
            × ((session_open_today s now).time < (session_close_today s now).time)))
unfolding time_to_expiry_0dte session_open_today session_close_today is_rth_now
time_to_expiry_0dte_iff s now = ground arith
