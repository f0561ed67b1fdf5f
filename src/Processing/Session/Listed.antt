-- ===== src/Processing/Session/Listed.antt =====
-- Which days session.py takes for expiration days, after changes of the cache.
use ffllowwgreeks.Prelude.{ℕ, ◌≡◌, ◌&&◌, none, some, List, arith, if◌then◌else◌, Text, same, upper}
use ffllowwgreeks.Prelude.Dict.{get-put, get-remove, get-empty}
use ffllowwgreeks.Processing.Calendar.{is_in, is_business_day}
use ffllowwgreeks.Processing.Session.{
  Settings, Expirations, set_available_expirations, clear_available_expirations, is_expiration_day,
  is_listed, has_index_options, is_default_expiry,
}

-- After the expirations of a symbol are registered, a day is an expiration day of that symbol, in any
-- spelling, exactly if it is a business day among them and the symbol is one of the four index
-- symbols; the answers for other symbols are unchanged.
pub set-is_expiration_day :
    (s : Settings) (cache : Expirations) (symbol other : Text) (listed : List ℕ) (today : ℕ)
    → is_expiration_day s (set_available_expirations symbol listed cache) other today none ≡ (
        if same (upper symbol) (upper other)
        then is_business_day s.nyse today && has_index_options (upper other) && is_in today listed
        else is_expiration_day s cache other today none)
unfolding is_expiration_day is_listed set_available_expirations
set-is_expiration_day s cache symbol other listed today =
    ground (arith, get-put cache (upper symbol) (upper other) listed)

-- Clearing a symbol brings back the fallback of Monday, Wednesday and Friday for it, and changes the
-- answer for no other symbol; clearing all brings it back for every symbol.
pub clear-is_expiration_day :
    (s : Settings) (cache : Expirations) (symbol other : Text) (today : ℕ)
    → let fallback =
        is_business_day s.nyse today
        && has_index_options (upper other)
        && is_default_expiry today in
      (is_expiration_day s (clear_available_expirations (some symbol) cache) other today none ≡ (
        if same (upper symbol) (upper other)
        then fallback
        else is_expiration_day s cache other today none))
      × (is_expiration_day s (clear_available_expirations none cache) other today none ≡ fallback)
unfolding is_expiration_day is_listed clear_available_expirations
clear-is_expiration_day s cache symbol other today = (
  ground (arith, get-remove cache (upper symbol) (upper other)),
  ground (arith, get-empty {V = List ℕ} (upper other)),
)
