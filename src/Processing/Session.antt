-- ===== src/Processing/Session.antt =====
-- archive/python-legacy/backend/app/processing/session.py: the state of the trading session. A moment
-- is a day and the microseconds of the wall clock in New York since midnight (the source subtracts
-- such moments without regard to a change of the clock); the settings hold times in minutes.
pub mod Clock
pub mod Search
pub mod Listed
use ffllowwgreeks.Prelude.{
  ℕ, zero, suc, ◌+◌, ◌-◌, ◌*◌, Bool, true, false, ◌&&◌, ◌||◌, not, Option, none, some, List, [],
  ◌∷◌, map, ltb, leb, ◌==◌, if◌then◌else◌, Text, codes, upper, same, max,
}
use ffllowwgreeks.Prelude.Dict
use ffllowwgreeks.Prelude.Dict.{Dict}
use ffllowwgreeks.Processing.Calendar.{weekday, is_in, nyse_half_days_hardcoded, is_business_day}

-- `RTH_OPEN_TIME`, `RTH_CLOSE_TIME`, the parsed `OPERATOR_OVERRIDE_HALF_DAYS`, and the calendar of
-- the `holidays` package, if it has one.
pub record Settings : Type 0 where
  pub rth_open_time : ℕ
  pub rth_close_time : ℕ
  pub override_half_days : List ℕ
  pub nyse : Option (ℕ → Bool)

pub record Moment : Type 0 where
  pub day : ℕ
  pub time : ℕ

abbrev pub microseconds_per_minute : ℕ
microseconds_per_minute = 60_000_000

-- 13:00.
abbrev pub half_day_close_time : ℕ
half_day_close_time = 780

unfoldable pub early_close_at_eastern : Settings → ℕ → Option ℕ
early_close_at_eastern s today =
    if is_in today s.override_half_days
    then some half_day_close_time
    else if is_in today nyse_half_days_hardcoded
    then some half_day_close_time
    else none

unfoldable pub is_half_day : Settings → ℕ → Bool
is_half_day s today =
    if is_in today s.override_half_days then true else is_in today nyse_half_days_hardcoded

unfoldable pub effective_rth_close : Settings → ℕ → ℕ
unfolding early_close_at_eastern
effective_rth_close s today = elim (early_close_at_eastern s today) [
  | some early ↦ early
  | none ↦ s.rth_close_time
]

unfoldable pub is_rth_now : Settings → Moment → Bool
unfolding effective_rth_close is_business_day
is_rth_now s now =
    if is_business_day s.nyse now.day
    then leb (s.rth_open_time * microseconds_per_minute) now.time
      && leb now.time (effective_rth_close s now.day * microseconds_per_minute)
    else false

unfoldable pub session_open_today : Settings → Moment → Moment
session_open_today s now = record {
  day = now.day;
  time = s.rth_open_time * microseconds_per_minute;
}

unfoldable pub session_close_today : Settings → Moment → Moment
unfolding effective_rth_close
session_close_today s now = record {
  day = now.day;
  time = effective_rth_close s now.day * microseconds_per_minute;
}

-- A difference of two times of day: microseconds left (`pos`), or past (`neg`).
pub data Difference : Type 0 where
  pos neg : ℕ → Difference

-- `minutes_to_close`, in microseconds.
unfoldable pub time_to_close : Settings → Moment → Difference
unfolding session_close_today
time_to_close s now =
    let close = session_close_today s now in
    if leb now.time close.time then pos (close.time - now.time) else neg (now.time - close.time)

-- `time_to_expiry_0dte_years`, in microseconds: `max(0, ...)` is the subtraction of ℕ.
unfoldable pub time_to_expiry_0dte : Settings → Moment → ℕ
unfolding session_open_today session_close_today is_business_day
time_to_expiry_0dte s now =
    let open_time = (session_open_today s now).time in
    let close_time = (session_close_today s now).time in
    if not (is_business_day s.nyse now.day)
    then 0
    else if leb close_time now.time
    then 0
    else if ltb now.time open_time
    then close_time - open_time
    else close_time - now.time

-- One value of `calendar_tau_years`, times 365; `none` is an expiration that does not parse.
unfoldable pub calendar_tau_days : ℕ → ℕ → Option ℕ → ℕ
calendar_tau_days floor_days today none = 0
calendar_tau_days floor_days today (some d) = if ltb d today then 0 else max (d - today) floor_days

-- `_AVAILABLE_EXPIRATIONS`
abbrev pub Expirations : Type 0
Expirations = Dict (List ℕ)

unfoldable pub set_available_expirations : Text → List ℕ → Expirations → Expirations
set_available_expirations symbol expirations cache = Dict.put cache (upper symbol) expirations

unfoldable pub clear_available_expirations : Option Text → Expirations → Expirations
clear_available_expirations none cache = Dict.empty
clear_available_expirations (some symbol) cache = Dict.remove cache (upper symbol)

abbrev pub has_index_options : Text → Bool
has_index_options sym =
    same sym (codes "SPX")
    || same sym (codes "SPXW")
    || same sym (codes "NDX")
    || same sym (codes "NDXP")

-- The fallback set of Monday, Wednesday and Friday.
abbrev pub is_default_expiry : ℕ → Bool
is_default_expiry day = is_in (weekday day) (0 ∷ 2 ∷ 4 ∷ [])

-- The days that count: those of the argument, or else of the cache, or else the fallback.
unfoldable pub is_listed : Option (List ℕ) → Option (List ℕ) → ℕ → Bool
is_listed (some available) cached today = is_in today available
is_listed none (some cached) today = is_in today cached
is_listed none none today = is_default_expiry today

unfoldable pub is_expiration_day : Settings → Expirations → Text → ℕ → Option (List ℕ) → Bool
unfolding is_listed is_business_day
is_expiration_day s cache symbol today available =
    if not (is_business_day s.nyse today)
    then false
    else if has_index_options (upper symbol)
    then is_listed available (Dict.get cache (upper symbol)) today
    else false

-- The loop of `next_business_day` from `cur` on; `none` is a loop that needs more steps.
unfoldable pub search_business_day : Option (ℕ → Bool) → ℕ → ℕ → Option ℕ
unfolding is_business_day
search_business_day nyse zero cur = none
search_business_day nyse (suc fuel) cur =
    let rest = search_business_day nyse fuel (cur + 1) in
    if is_business_day nyse cur then some cur else rest

unfoldable pub next_business_day : Option (ℕ → Bool) → ℕ → ℕ → Option ℕ
unfolding search_business_day
next_business_day nyse fuel from_day = search_business_day nyse fuel (from_day + 1)

pub record Snapshot : Type 0 where
  pub is_rth : Bool
  pub to_close : Difference
  pub to_expiry_0dte : ℕ
  pub session_open : Moment
  pub session_close : Moment
  pub now_eastern : Moment
  pub expires : Option Bool

unfoldable pub session_snapshot : Settings → Expirations → Moment → Option Text → Snapshot
unfolding is_rth_now time_to_close time_to_expiry_0dte is_expiration_day
session_snapshot s cache now symbol = record {
  is_rth = is_rth_now s now;
  to_close = time_to_close s now;
  to_expiry_0dte = time_to_expiry_0dte s now;
  session_open = session_open_today s now;
  session_close = session_close_today s now;
  now_eastern = now;
  expires = elim symbol [
    | none ↦ none
    | some sym ↦ some (is_expiration_day s cache sym now.day none)
  ];
}
