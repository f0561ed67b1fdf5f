-- ===== src/Ingestion/Reconnect.antt =====
-- The reconnections of archive/python-legacy/backend/app/ingestion/databento_live.py. What happens to
-- an attempt, whether a stop is signalled before it included, is an argument; durations are in
-- milliseconds. The key pool's table and the log are left out, but for the errors recorded of a key.
pub mod Budget
pub mod Spending
pub mod Sleeps
pub mod Schemas
pub mod Runs
use ffllowwgreeks.Prelude.{
  ℕ, ◌+◌, ◌-◌, ◌*◌, Bool, true, false, ◌&&◌, ◌||◌, Option, none, some, List, [], ◌∷◌, ◌++◌, map,
  min, max, leb, ltb, take, if◌then◌else◌, Text, codes, same, lower,
}
use ffllowwgreeks.Ingestion.KeyPool.{KeyCandidate, Source, env, db}
use ffllowwgreeks.Ingestion.Live.Dispatch.{contains}

abbrev pub initial_backoff : ℕ
initial_backoff = 2000

abbrev pub default_schemas : List Text
default_schemas = codes "definition" ∷ codes "trades" ∷ codes "statistics" ∷ codes "cmbp-1" ∷ []

-- `settings.ingestion_max_reconnects` and `ingestion_reconnect_max_backoff_seconds`.
pub record Config : Type 0 where
  pub ingestion_max_reconnects : ℕ
  pub backoff_cap : ℕ

-- At least one attempt.
unfoldable pub max_reconnects : Config → ℕ
max_reconnects c = max 1 c.ingestion_max_reconnects

-- What a candidate does: the bootstrap raises, the stream raises, or the stream ends.
pub data Outcome : Type 0 where
  bootstrap_raised stream_raised : Text → Outcome
  closed : Outcome

-- A candidate that is up, and whether a stop was signalled before.
pub record Try : Type 0 where
  pub candidate : KeyCandidate
  pub stopped : Bool
  pub outcome : Outcome

-- An attempt: whether a stop was signalled before, and the candidates.
pub record Round : Type 0 where
  pub stopped : Bool
  pub candidates : List Try

-- Inside the loop of attempts, in the cooldown before a cold restart, or returned.
pub data Phase : Type 0 where
  trying cooling returned : Phase

pub record Loop : Type 0 where
  pub phase : Phase
  pub attempt : ℕ
  pub backoff : ℕ
  pub sleeps : List ℕ
  pub schemas : List Text
  pub dropped_schemas : List Text
  pub connection_attempts : ℕ
  pub last_error : Option Text
  pub active_key_label : Option Text
  pub dead : Bool
  pub key_errors : List (ℕ × Text)

unfoldable pub start : Loop
start = record {
  phase = trying;
  attempt = 0;
  backoff = initial_backoff;
  sleeps = [];
  schemas = default_schemas;
  dropped_schemas = [];
  connection_attempts = 0;
  last_error = none;
  active_key_label = none;
  dead = false;
  key_errors = [];
}

-- Whether a message in lower case says that the schema is not to be had; the source's pattern
-- "not authorized for s schema" is a case of "not authorized for s".
unfoldable pub names : Text → Text → Bool
unfolding contains lower
names msg schema =
    let s = lower schema in
    contains (s ++ codes " schema not supported") msg
    || contains (codes "not authorized for " ++ s) msg
    || contains (codes "unauthorized for " ++ s) msg

-- The first schema that the message names, and those that stay.
unfoldable pub drop_named : Text → List Text → Option (Text × List Text)
unfolding names
drop_named msg [] = none
drop_named msg (s ∷ ss) =
    let rest = drop_named msg ss in
    if names msg s
    then some (s, ss)
    else elim rest [ none ↦ none | some (t, ts) ↦ some (t, s ∷ ts) ]

unfoldable pub drop_unsupported_schema : Text → List Text → Option (Text × List Text)
unfolding drop_named lower
drop_unsupported_schema error_message schemas = drop_named (lower error_message) schemas

-- How the loop over the candidates ends.
pub data Verdict : Type 0 where
  stop connected no_schemas exhausted : Verdict

-- Only a key of the database has its error recorded.
abbrev pub record_candidate_error : KeyCandidate → Text → List (ℕ × Text) → List (ℕ × Text)
record_candidate_error c msg errors = elim c.source [
  | env ↦ errors
  | db id ↦ errors ++ ((id, msg) ∷ [])
]

-- A schema is dropped: the attempt is taken back, unless no schema is left.
unfoldable pub without_schema : Text → List Text → Loop → Verdict × Loop
without_schema dropped [] l = (
  no_schemas,
  record l { schemas = []; dropped_schemas = l.dropped_schemas ++ (dropped ∷ []); dead = true },
)
without_schema dropped (s ∷ ss) l = (
  connected,
  record l {
    schemas = s ∷ ss;
    dropped_schemas = l.dropped_schemas ++ (dropped ∷ []);
    attempt = l.attempt - 1;
  },
)

-- What an outcome makes of the loop, and the message if it raised.
abbrev pub noted : KeyCandidate → Outcome → Loop → Option Text × Loop
noted c (bootstrap_raised msg) l = (some msg, record l { last_error = some (take 500 msg) })
noted c (stream_raised msg) l =
    (some msg, record l { last_error = some (take 500 msg); active_key_label = some c.label })
noted c closed l = (none, record l { active_key_label = some c.label; backoff = initial_backoff })

-- The loop over the candidates.
unfoldable pub try_candidates : List Try → Loop → Verdict × Loop
unfolding without_schema drop_unsupported_schema
try_candidates [] l = (exhausted, l)
try_candidates (t ∷ ts) l = elim t.stopped [
  | true ↦ (stop, l)
  | false ↦
      let l' = (noted t.candidate t.outcome l).1 in
      elim (noted t.candidate t.outcome l).0 [
        | none ↦ (connected, l')
        | some msg ↦ elim (drop_unsupported_schema msg l'.schemas) [
          | some (dropped, remaining) ↦ without_schema dropped remaining l'
          | none ↦
              try_candidates ts
                (record l' { key_errors = record_candidate_error t.candidate msg l'.key_errors })
        ]
      ]
]

-- The test of the loop of attempts.
unfoldable pub go_on : Config → Loop → Loop
unfolding max_reconnects
go_on c l = if ltb l.attempt (max_reconnects c) then l else record l { phase = cooling }

-- After the candidates; a sleep ends an attempt that failed, but for the last one.
unfoldable pub conclude : Config → Verdict × Loop → Loop
unfolding go_on max_reconnects
conclude c (stop, l) = record l { phase = returned }
conclude c (no_schemas, l) = record l { phase = returned }
conclude c (connected, l) = go_on c l
conclude c (exhausted, l) =
    if leb (max_reconnects c) l.attempt then record l { phase = cooling } else record l {
      sleeps = l.sleeps ++ (l.backoff ∷ []);
      backoff = min (l.backoff * 2) c.backoff_cap;
    }

-- The body of the loop of attempts; without a candidate the ingester is dead until an operator acts.
unfoldable pub try_all : Config → List Try → Loop → Loop
unfolding conclude try_candidates
try_all c [] l = record l { phase = returned; dead = true }
try_all c (t ∷ ts) l = conclude c (try_candidates (t ∷ ts) l)

unfoldable pub make_attempt : Config → Round → Loop → Loop
unfolding try_all
make_attempt c r l =
    if r.stopped
    then record l { phase = returned }
    else try_all c r.candidates
        (record l { attempt = l.attempt + 1; connection_attempts = l.attempt + 1 })

-- The end of the cooldown: a stop, or the cold restart.
unfoldable pub cold_restart : Bool → Loop → Loop
cold_restart true l = record l { phase = returned }
cold_restart false l = record l {
  phase = trying;
  attempt = 0;
  backoff = initial_backoff;
  connection_attempts = 0;
  last_error = none;
  dead = false;
}

-- The attempts that the loop makes of those that the rounds offer.
unfoldable pub run : Config → List Round → Loop → Loop
unfolding make_attempt
run c [] l = l
run c (r ∷ rs) l = elim l.phase [
  | trying ↦ run c rs (make_attempt c r l)
  | cooling ↦ l
  | returned ↦ l
]
