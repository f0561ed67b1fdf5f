-- ===== src/Ingestion/Live/Runs.antt =====
-- The invariant of the live ingester, archive/python-legacy/backend/app/ingestion/databento_live.py,
-- through any records, refreshes and resets.
use ffllowwgreeks.Prelude.{
  ℕ, ◌+◌, refl, Bool, false, Option, List, [], ◌∷◌, ◌++◌, arith, if-cases, ltb, take,
}
use ffllowwgreeks.Ingestion.Live.{Record, Contract, Settings, Live, create}
use ffllowwgreeks.Ingestion.Live.Handlers.{handle_trade, reset_session_volume_state}
use ffllowwgreeks.Ingestion.Live.Dispatch.{
  handle_error, handle_system, Kind, definition, cmbp, mbp, trade, statistics, error, system,
  ignored, kind_of, or_text, note_record, maybe_log_telemetry, dispatch, handle_record,
}
use ffllowwgreeks.Ingestion.Live.Refresh.{
  Fetch, failed, skipped, fetched, bootstrap_registry, swap_registry, refresh_begin, refresh_end,
  replay, drain, is_known, load_all, any_loaded, nothing_known, on_cooldown,
}
use ffllowwgreeks.Ingestion.Live.Sound.{IsGood, Alike-IsGood, length-keep_last}
use ffllowwgreeks.Ingestion.Live.Kept.{
  handle_trade-IsGood, handle_mbp-IsGood, handle_cmbp-IsGood, handle_statistics-IsGood,
  handle_definition-IsGood, reset-IsGood,
}

handle_error-IsGood : (r : Record) (l : Live) → IsGood l → IsGood (handle_error r l)
unfolding handle_error
handle_error-IsGood r l g = record {
  known = g.known;
  parked = g.parked;
  errors =
      length-keep_last 10
        (l.error_messages ++ (take 300 (or_text r.err (or_text r.msg r.shown)) ∷ []));
  systems = g.systems;
  honest = g.honest;
}

handle_system-IsGood : (r : Record) (l : Live) → IsGood l → IsGood (handle_system r l)
unfolding handle_system
handle_system-IsGood r l g = record {
  known = g.known;
  parked = g.parked;
  errors = g.errors;
  systems = length-keep_last 10 (l.system_messages ++ (take 300 (or_text r.msg r.shown) ∷ []));
  honest = g.honest;
}

note_record-IsGood : (now : ℕ) (r : Record) (l : Live) → IsGood l → IsGood (note_record now r l)
unfolding note_record
note_record-IsGood now r l g =
    Alike-IsGood l (note_record now r l)
      (record {
        registry = refl;
        state = refl;
        parked = refl;
        error_messages = refl;
        system_messages = refl;
      })
      g.honest g

maybe_log_telemetry-IsGood :
    (clock : ℕ) (l : Live) → IsGood l → IsGood (maybe_log_telemetry clock l)
unfolding maybe_log_telemetry
maybe_log_telemetry-IsGood clock l g =
    if-cases IsGood (ltb clock (l.last_telemetry_at + 30_000_000_000)) l _ (λ early. g)
      (λ due. record {
        known = g.known;
        parked = g.parked;
        errors = g.errors;
        systems = g.systems;
        honest = g.honest;
      })

dispatch-IsGood :
    (k : Kind) (s : Settings) (now : ℕ) (r : Record) (l : Live)
    → IsGood l
    → IsGood (dispatch k s now r l)
unfolding dispatch
dispatch-IsGood definition s now r l g = handle_definition-IsGood s r l g
dispatch-IsGood cmbp s now r l g = handle_cmbp-IsGood now r l g
dispatch-IsGood mbp s now r l g = handle_mbp-IsGood now r l g
dispatch-IsGood trade s now r l g = handle_trade-IsGood s r l g
dispatch-IsGood statistics s now r l g = handle_statistics-IsGood r l g
dispatch-IsGood error s now r l g = handle_error-IsGood r l g
dispatch-IsGood system s now r l g = handle_system-IsGood r l g
dispatch-IsGood ignored s now r l g = g

handle_record-IsGood :
    (s : Settings) (now clock : ℕ) (r : Record) (l : Live)
    → IsGood l
    → IsGood (handle_record s now clock r l)
unfolding handle_record
handle_record-IsGood s now clock r l g =
    dispatch-IsGood (kind_of r.rtype) s now r _
      (maybe_log_telemetry-IsGood clock _ (note_record-IsGood now r l g))

swap_registry-IsGood :
    (registry : ℕ → Option Contract) (l : Live) → IsGood l → IsGood (swap_registry registry l)
unfolding swap_registry
swap_registry-IsGood registry l g = record {
  known = λ i e. rw e;
  parked = g.parked;
  errors = g.errors;
  systems = g.systems;
  honest = g.honest;
}

bootstrap_registry-IsGood : (f : Fetch) (l : Live) → IsGood l → IsGood (bootstrap_registry f l)
unfolding bootstrap_registry
bootstrap_registry-IsGood failed l g = g
bootstrap_registry-IsGood skipped l g = g
bootstrap_registry-IsGood (fetched ds) l g =
    if-cases IsGood (any_loaded ds) (swap_registry (load_all ds nothing_known) l) l
      (λ some_loaded. swap_registry-IsGood _ l g) (λ none_loaded. g)

replay-IsGood :
    (s : Settings) (parked : List (ℕ × Record)) (l : Live) → IsGood l → IsGood (replay s parked l)
unfolding replay
replay-IsGood s [] l g = g
replay-IsGood s ((i, r) ∷ parked) l g = replay-IsGood s parked _ (
    if-cases IsGood (is_known (l.registry i)) (handle_trade s r l) l
      (λ e. handle_trade-IsGood s r l g) (λ e. g))

drain-IsGood : (s : Settings) (l : Live) → IsGood l → IsGood (drain s l)
unfolding drain
drain-IsGood s l g = replay-IsGood s l.parked _ (record {
  known = g.known;
  parked = omega arith;
  errors = g.errors;
  systems = g.systems;
  honest = g.honest;
})

refresh_end-IsGood : (s : Settings) (f : Fetch) (l : Live) → IsGood l → IsGood (refresh_end s f l)
unfolding refresh_end
refresh_end-IsGood s failed l g = g
refresh_end-IsGood s skipped l g = drain-IsGood s l g
refresh_end-IsGood s (fetched ds) l g =
    drain-IsGood s _ (bootstrap_registry-IsGood (fetched ds) l g)

refresh_begin-IsGood : (now : ℕ) (l : Live) → IsGood l → IsGood (refresh_begin now l).1
unfolding refresh_begin
refresh_begin-IsGood now l g =
    if-cases (λ (out : Bool × Live). IsGood out.1) (on_cooldown l.last_unmatched_bootstrap_at now)
      (false, l) _ (λ early. g)
      (λ due. record {
        known = g.known;
        parked = g.parked;
        errors = g.errors;
        systems = g.systems;
        honest = g.honest;
      })

-- What happens to an ingester: a record, the two halves of a refresh for the misses, a bootstrap of
-- the periodic loop or of a connection, and the reset when a session opens.
pub data Act : Type 0 where
  a_record : (now clock : ℕ) → Record → Act
  begin_refresh : (now : ℕ) → Act
  end_refresh : Fetch → Act
  bootstrap : Fetch → Act
  session_reset : Act

pub step : Settings → Act → Live → Live
step s (a_record now clock r) l = handle_record s now clock r l
step s (begin_refresh now) l = (refresh_begin now l).1
step s (end_refresh f) l = refresh_end s f l
step s (bootstrap f) l = bootstrap_registry f l
step s session_reset l = reset_session_volume_state l

unfoldable pub run : Settings → List Act → Live → Live
unfolding step
run s [] l = l
run s (a ∷ acts) l = run s acts (step s a l)

step-IsGood : (s : Settings) (a : Act) (l : Live) → IsGood l → IsGood (step s a l)
unfolding step
step-IsGood s (a_record now clock r) l g = handle_record-IsGood s now clock r l g
step-IsGood s (begin_refresh now) l g = refresh_begin-IsGood now l g
step-IsGood s (end_refresh f) l g = refresh_end-IsGood s f l g
step-IsGood s (bootstrap f) l g = bootstrap_registry-IsGood f l g
step-IsGood s session_reset l g = reset-IsGood l g

run_from-IsGood : (s : Settings) (acts : List Act) (l : Live) → IsGood l → IsGood (run s acts l)
unfolding run
run_from-IsGood s [] l g = g
run_from-IsGood s (a ∷ acts) l g = run_from-IsGood s acts (step s a l) (step-IsGood s a l g)

pub create-IsGood : IsGood create
unfolding create
create-IsGood = record {
  known = λ i e. refl;
  parked = omega arith;
  errors = omega arith;
  systems = omega arith;
  honest = tt;
}

-- From a new ingester, after any records, refreshes, bootstraps and resets, nothing is kept of an
-- instrument that is not registered, at most 1,000 trades are parked and ten messages of each kind
-- kept, and each row handed to the trade tape either has neither a side nor a premium, or carries
-- two positive quotes more than 1,000 nanodollars apart, the side on which its price lies of their
-- midpoint, and the premium of the opposite sign (none at the midpoint).
pub run-create-IsGood : (s : Settings) (acts : List Act) → IsGood (run s acts create)
run-create-IsGood s acts = run_from-IsGood s acts create create-IsGood
