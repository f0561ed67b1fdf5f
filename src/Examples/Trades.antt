-- ===== src/Examples/Trades.antt =====
-- A tape of three trades in lee_ready.py: prices 10, 11 and 11 with no quotes.
use ffllowwgreeks.Prelude.{ℕ, suc, ◌≡◌, refl, false, some, List, [], ◌∷◌, ◌++◌, length, drop}
use ffllowwgreeks.Prelude.{none}
use ffllowwgreeks.Processing.LeeReady.{
  nan, num, Side, unclassified, Trade, quote_of, quote_side, sides,
}
use ffllowwgreeks.Processing.LeeReady.OnePass.{one_pass, sides-one_pass}
use ffllowwgreeks.Processing.LeeReady.TickRule.{zero_tick-unclassified}

abbrev trade : ℕ → ℕ → Trade
trade ts price = record { ts = some ts; price = num price; bid = nan; ask = nan; size = some 1 }

sides-one_pass_example :
    sides false 60 (trade 1 10 ∷ trade 2 11 ∷ trade 3 11 ∷ [])
    ≡ one_pass false 60 none nan (trade 1 10 ∷ trade 2 11 ∷ trade 3 11 ∷ [])
sides-one_pass_example = sides-one_pass false 60 (trade 1 10 ∷ trade 2 11 ∷ trade 3 11 ∷ [])

-- The last different price before the third trade is 10, so its tick is an uptick.
zero_tick-unclassified_example :
    (after : List Side) × (drop
        (suc (length (trade 1 10 ∷ [])))
        (sides false 60 ((trade 1 10 ∷ []) ++ trade 2 11 ∷ trade 3 11 ∷ []))
      ≡ unclassified ∷ after)
unfolding quote_of quote_side
zero_tick-unclassified_example =
    zero_tick-unclassified false 60 (trade 1 10 ∷ []) (trade 2 11) (trade 3 11) [] 11 refl refl refl
