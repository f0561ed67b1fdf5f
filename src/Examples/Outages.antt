-- ===== src/Examples/Outages.antt =====
-- A key whose streams fail, end, or lack a schema.
use ffllowwgreeks.Prelude.{
  ◌+◌, ◌≡◌, ◌≢◌, refl, false, List, [], ◌∷◌, lower, codes, ltb, if◌then◌else◌, arith,
}
use ffllowwgreeks.Ingestion.KeyPool.{env}
use ffllowwgreeks.Ingestion.Live.Dispatch.{contains, starts_with}
use ffllowwgreeks.Ingestion.Reconnect.{
  Config, max_reconnects, Outcome, stream_raised, closed, Round, trying, cooling, start, run,
  drop_unsupported_schema, names,
}
use ffllowwgreeks.Ingestion.Reconnect.Budget.{run-ends, left}
use ffllowwgreeks.Ingestion.Reconnect.Spending.{IsPlain, IsFailing, run-plain}
use ffllowwgreeks.Ingestion.Reconnect.Sleeps.{sleeps-run, sleeps_after}
use ffllowwgreeks.Ingestion.Reconnect.Schemas.{IsSound}
use ffllowwgreeks.Ingestion.Reconnect.Runs
use ffllowwgreeks.Ingestion.Reconnect.Runs.{run-start-IsSound}

abbrev twice : Config
twice = record { ingestion_max_reconnects = 2; backoff_cap = 60_000 }

abbrev round : Outcome → Round
round o = record {
  stopped = false;
  candidates =
      record {
        candidate = record { label = codes "env"; api_key = codes "k"; source = env };
        stopped = false;
        outcome = o;
      }
      ∷ [];
}

abbrev timeout : Outcome
timeout = stream_raised (codes "timeout")

abbrev no_trades : Outcome
no_trades = stream_raised (codes "Not authorized for trades")

abbrev tries : List Round
tries =
    round no_trades ∷ round closed ∷ round timeout ∷ round closed ∷ round closed ∷ round closed ∷ []

run-ends_example : (run twice tries start).phase ≢ trying
unfolding start max_reconnects left
run-ends_example = run-ends twice tries start refl (omega arith) (omega arith)

-- Two streams that were up, and the loop cools down.
run-plain_example :
    (run twice (round closed ∷ round closed ∷ []) start).phase
    ≡ (if ltb (0 + 2) (max_reconnects twice) then trying else cooling)
unfolding start max_reconnects IsPlain
run-plain_example =
    run-plain twice (round closed ∷ round closed ∷ []) start refl
      (
        (refl, (λ e. ground (arith, e)), ((refl, tt), tt)),
        ((refl, (λ e. ground (arith, e)), ((refl, tt), tt)), tt),
      )
      (omega arith) (omega arith)

sleeps-run_example : (run twice (round timeout ∷ []) start).sleeps ≡ sleeps_after twice 1
unfolding max_reconnects IsFailing drop_unsupported_schema lower names contains starts_with
sleeps-run_example =
    sleeps-run twice (round timeout ∷ [])
      (((refl, (λ e. ground (arith, e)), ((refl, refl), tt)), (tt, tt)), tt) (omega arith)

run-start-IsSound_example : IsSound twice (
    Runs.run twice
      (Runs.an_attempt (round no_trades)
        ∷ Runs.an_attempt (round closed)
        ∷ Runs.end_of_cooldown false
        ∷ [])
      start)
run-start-IsSound_example = run-start-IsSound twice (
    Runs.an_attempt (round no_trades)
    ∷ Runs.an_attempt (round closed)
    ∷ Runs.end_of_cooldown false
    ∷ [])

-- The message names the second schema, in another case.
drops_trades : (run twice (round no_trades ∷ []) start).dropped_schemas ≡ codes "trades" ∷ []
unfolding run start max_reconnects names
drops_trades = refl
