-- ===== src/Processing/OpenPrices.antt =====
-- The registry of session-open prices of archive/python-legacy/backend/app/processing/
-- move_tracker.py, and its recovery from the audit rows. Prices are whole multiples of a millionth,
-- and what the database answers is an argument.
pub mod Hydration
use ffllowwgreeks.Prelude.{
  ℕ, zero, suc, Bool, true, false, ◌||◌, Option, none, some, List, [], ◌∷◌, if◌then◌else◌, Text,
  upper, same, codes,
}
use ffllowwgreeks.Prelude.Dict
use ffllowwgreeks.Prelude.Dict.{Dict}
use ffllowwgreeks.Processing.Json.{
  Number, pos, neg, Json, null, boolean, number, string, array, object,
}

-- A float argument: a finite number, or none.
pub data Float : Type 0 where
  nan infinite : Float
  finite : Number → Float

-- `_SESSION_OPEN_PRICES`
abbrev pub OpenPrices : Type 0
OpenPrices = Dict ℕ

-- A price that is finite and positive.
unfoldable pub usable : Float → Option ℕ
usable (finite (pos (suc n))) = some (suc n)
usable (finite (pos zero)) = none
usable (finite (neg n)) = none
usable nan = none
usable infinite = none

unfoldable pub register : Text → Option ℕ → OpenPrices → OpenPrices
register symbol none prices = prices
register symbol (some p) prices = Dict.put prices (upper symbol) p

unfoldable pub set_session_open_price : Option Text → Option Float → OpenPrices → OpenPrices
unfolding usable register
set_session_open_price none price prices = prices
set_session_open_price (some symbol) none prices = prices
set_session_open_price (some symbol) (some price) prices = register symbol (usable price) prices

unfoldable pub get_session_open_price : Option Text → OpenPrices → Option ℕ
get_session_open_price none prices = none
get_session_open_price (some symbol) prices = Dict.get prices (upper symbol)

unfoldable pub reset_session_open_prices : OpenPrices → OpenPrices
reset_session_open_prices prices = Dict.empty

-- The query for the latest audit row of the day: an exception, no row, or a row with what stands
-- under `session_open_price` (null if nothing does).
pub data Answer : Type 0 where
  query_failed no_row : Answer
  row : Json → Answer

-- `isinstance(price, (int, float))`, which takes Booleans too, and `float(price)`.
unfoldable pub price_of : Json → Option Float
price_of (number n) = some (finite n)
price_of (boolean true) = some (finite (pos 1_000_000))
price_of (boolean false) = some (finite (pos 0))
price_of null = none
price_of (string s) = none
price_of (array items) = none
price_of (object fs) = none

unfoldable pub hydrated_price : Answer → Option ℕ
unfolding price_of usable
hydrated_price query_failed = none
hydrated_price no_row = none
hydrated_price (row j) = elim (price_of j) [ none ↦ none | some price ↦ usable price ]

-- The body of the loop for one symbol: the registry and the report.
unfoldable pub hydrate_one :
    Text → Option ℕ → OpenPrices → Dict (Option ℕ) → OpenPrices × Dict (Option ℕ)
unfolding set_session_open_price
hydrate_one sym none prices out = (prices, Dict.put out sym none)
hydrate_one sym (some p) prices out =
    (set_session_open_price (some sym) (some (finite (pos p))) prices, Dict.put out sym (some p))

unfoldable pub hydrate :
    (Text → Answer) → List Text → OpenPrices → Dict (Option ℕ) → OpenPrices × Dict (Option ℕ)
unfolding hydrate_one hydrated_price
hydrate query [] prices out = (prices, out)
hydrate query (raw_sym ∷ symbols) prices out =
    let sym = upper raw_sym in
    let (prices', out') = hydrate_one sym (hydrated_price (query sym)) prices out in
    hydrate query symbols prices' out'

unfoldable pub hydrate_session_open_prices_from_db :
    (Text → Answer) → List Text → OpenPrices → OpenPrices × Dict (Option ℕ)
unfolding hydrate
hydrate_session_open_prices_from_db query symbols prices = hydrate query symbols prices Dict.empty
