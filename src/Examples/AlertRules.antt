-- ===== src/Examples/AlertRules.antt =====
-- One rule with a cooldown of ten seconds in alert_pipeline.py, by an evaluator that always fires.
use ffllowwgreeks.Prelude.{ℕ, ◌≡◌, refl, none, some, [], ◌∷◌, true, Text, codes, same, arith}
use ffllowwgreeks.Prelude.Dict
use ffllowwgreeks.Processing.AlertPipeline.{
  Pipeline, Evaluator, rules_for, is_cooling, event_of, try_rule, fired_events, store,
  evaluate_rules, run_alert_pipeline,
}
use ffllowwgreeks.Processing.AlertPipeline.Cooldown.{Tick, count, run, run-silent}

abbrev always : Evaluator ℕ ℕ
always rule payload previous = some (true, [])

abbrev ndx : Text
ndx = codes "NDX"

abbrev pipeline : Pipeline ℕ ℕ
pipeline = record {
  rules =
      record {
        id = 3;
        symbol = ndx;
        enabled = true;
        rule = 0;
        cooldown_seconds = some 10;
        last_fired_at = none;
      }
      ∷ [];
  events = [];
  last_payload = Dict.empty;
}

abbrev later : Tick ℕ
later = record { symbol = ndx; now = 9_000_000; payload = [] }

run-silent_example :
    count 3 (run always (later ∷ []) (run_alert_pipeline always ndx 0 [] pipeline).0).events
    ≡ count 3 (run_alert_pipeline always ndx 0 [] pipeline).0.events
unfolding run_alert_pipeline rules_for evaluate_rules fired_events try_rule is_cooling event_of
    store same
run-silent_example =
    run-silent always 3 10_000_000 ndx 0 [] (later ∷ []) pipeline ((λ e. refl), tt) (omega arith)
      (omega arith, tt)
