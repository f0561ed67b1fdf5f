-- ===== src/Examples/Prints.antt =====
-- Three prints on two venues within a second, fed twice.
use ffllowwgreeks.Prelude.{ℕ, ◌≡◌, refl, true, none, some, List, [], ◌∷◌, ◌++◌, codes}
use ffllowwgreeks.Processing.FlowEvents.{Contract, Row, Print, buy, clean, default_config}
use ffllowwgreeks.Processing.FlowEvents.Detect.{
  Pandas, Reference, clusters, prepare, detect_on, detect_sweeps, detect_blocks,
}
use ffllowwgreeks.Processing.FlowEvents.Sweeps.{Scan, clusters-Scan}
use ffllowwgreeks.Processing.FlowEvents.Tape.{occurrences, occurrences-prepare-append}
use ffllowwgreeks.Processing.FlowEvents.Residual.{IsSplit, detect_on-IsSplit}

abbrev call : Contract
call = record {
  symbol = codes "SPX";
  expiration = codes "2026-01-16";
  strike = 5_000;
  option_type = codes "c";
}

abbrev trade : ℕ → ℕ → Row
trade t venue = record {
  ts = some t;
  contract = call;
  price = some 40_000_000;
  size = some 10;
  side = some buy;
  exchange = some (venue ∷ []);
  seq = none;
}

abbrev trades : List Row
trades = trade 0 b'A' ∷ trade 100 b'B' ∷ trade 200 b'A' ∷ []

abbrev as_given : Pandas
as_given = record { sort_values = λ ps. ps; sort_groups = λ cs. cs }

abbrev no_tables : Reference
no_tables = record { contract_adv = λ c. none; contract_oi = λ c. none }

abbrev first_print : Print
first_print = record {
  ts = 0;
  contract = call;
  price = some 40_000_000;
  size = 10;
  side = buy;
  exchange = some (codes "A");
  seq = none;
}

clusters-Scan_example :
    Scan default_config (clean trades) (clusters default_config 0 (clean trades))
clusters-Scan_example = clusters-Scan default_config (clean trades)

occurrences-prepare-append_example :
    occurrences first_print (prepare as_given (trades ++ trades))
    ≡ occurrences first_print (prepare as_given trades)
occurrences-prepare-append_example =
    occurrences-prepare-append as_given first_print trades trades (λ p ps. refl) (λ q h. h)

detect_on-IsSplit_example :
    IsSplit default_config no_tables
      (clean trades)
      (detect_sweeps as_given.sort_values default_config (clean trades)
        ++ detect_blocks default_config (clean trades))
      (detect_on as_given default_config no_tables true (clean trades))
detect_on-IsSplit_example = detect_on-IsSplit as_given default_config no_tables true (clean trades)
