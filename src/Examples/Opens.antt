-- ===== src/Examples/Opens.antt =====
-- A recovery of one of two symbols in move_tracker.py.
use ffllowwgreeks.Prelude.{Text, [], ◌∷◌, codes, same, if◌then◌else◌}
use ffllowwgreeks.Prelude.Dict
use ffllowwgreeks.Processing.Json.{pos, number}
use ffllowwgreeks.Processing.OpenPrices.{Answer, row, no_row, hydrate_session_open_prices_from_db}
use ffllowwgreeks.Processing.OpenPrices.Hydration.{After, hydrate_session_open_prices_from_db_lem}

abbrev audit : Text → Answer
audit sym = if same sym (codes "SPX") then row (number (pos 5_000)) else no_row

hydrate_session_open_prices_from_db_lem_example :
    After audit
      (codes "spx" ∷ codes "NDX" ∷ [])
      Dict.empty
      Dict.empty
      (codes "SPX")
      (hydrate_session_open_prices_from_db audit (codes "spx" ∷ codes "NDX" ∷ []) Dict.empty)
hydrate_session_open_prices_from_db_lem_example =
    hydrate_session_open_prices_from_db_lem audit (codes "spx" ∷ codes "NDX" ∷ []) Dict.empty
      (codes "SPX")
