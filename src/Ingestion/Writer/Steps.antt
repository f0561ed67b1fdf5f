-- ===== src/Ingestion/Writer/Steps.antt =====
-- The calls of archive/python-legacy/backend/app/ingestion/writer.py: what adding and flushing change.
use ffllowwgreeks.Prelude.{
  ℕ, ◌+◌, Bool, true, false, not, ◌&&◌, Option, none, some, List, [], ◌∷◌, ◌++◌, leb, length,
  if◌then◌else◌, codes,
}
use ffllowwgreeks.Prelude.Dict
use ffllowwgreeks.Prelude.Dict.{Dict}
use ffllowwgreeks.Ingestion.Writer.{Value, text, moment, Row, field, dedup, upsert_all}

-- What is recorded in the dead-letter queue: a row that was shed, or a batch that failed.
pub data Letter : Type 0 where
  backpressure_overflow : Row → Letter
  flush_failed : List Row → Letter

-- The writer, the flush tasks it has started, the batch in flight, the table and the dead letters.
pub record Writer : Type 0 where
  pub buffer : List Row
  pub batch_size : ℕ
  pub max_pending_rows : ℕ
  pub flushing : Bool
  pub background_tasks : ℕ
  pub last_flush_ts : ℕ
  pub last_event_ts : Option Value
  pub row_counts : Dict ℕ
  pub shed_rows : ℕ
  pub in_flight : List Row
  pub table : List Row
  pub letters : List Letter

unfoldable pub create : ℕ → ℕ → ℕ → List Row → Writer
create batch_size max_pending_rows now table = record {
  buffer = [];
  batch_size = batch_size;
  max_pending_rows = max_pending_rows;
  flushing = false;
  background_tasks = 0;
  last_flush_ts = now;
  last_event_ts = none;
  row_counts = Dict.empty;
  shed_rows = 0;
  in_flight = [];
  table = table;
  letters = [];
}

abbrev pub pending : Writer → ℕ
pending w = length w.buffer

-- `row.get("ts") or datetime.now(UTC)`
abbrev pub event_ts : ℕ → Option Value → Option Value
event_ts now none = some (moment now)
event_ts now (some v) = some v

-- Symbols are texts; an empty one is not counted.
abbrev pub count_symbol : Option Value → Dict ℕ → Dict ℕ
count_symbol (some (text (c ∷ cs))) counts =
    Dict.put counts (c ∷ cs) (Dict.get_default counts (c ∷ cs) 0 + 1)
count_symbol other counts = counts

unfoldable pub overflows : Writer → Bool
overflows w = leb w.max_pending_rows (pending w)

unfoldable pub shed : Row → Writer → Writer
shed row w = record w {
  shed_rows = w.shed_rows + 1;
  letters = w.letters ++ (backpressure_overflow row ∷ []);
}

unfoldable pub append : ℕ → Row → Writer → Writer
unfolding field
append now row w = record w {
  buffer = w.buffer ++ (row ∷ []);
  last_event_ts = event_ts now (field (codes "ts") row);
  row_counts = count_symbol (field (codes "symbol") row) w.row_counts;
}

unfoldable pub start_flush : Writer → Writer
start_flush w = record w { background_tasks = w.background_tasks + 1 }

unfoldable pub should_flush : Writer → Bool
should_flush w = leb w.batch_size (pending w)

unfoldable pub add : ℕ → Row → Writer → Writer
add now row w =
    if overflows w
    then if w.flushing then shed row w else start_flush (shed row w)
    else (let w' = append now row w in
        if should_flush w' && not w'.flushing then start_flush w' else w')

-- The loop of `add_many` under the lock, and whether it shed a row.
unfoldable pub add_rows : ℕ → List Row → Writer → Bool × Writer
add_rows now [] w = (false, w)
add_rows now (row ∷ rows) w =
    if overflows w
    then (true, (add_rows now rows (shed row w)).1)
    else add_rows now rows (append now row w)

-- `idle` is whether no flush runs when the shed rows have been recorded.
unfoldable pub add_many : ℕ → Bool → List Row → Writer → Writer
add_many now idle [] w = w
add_many now idle (row ∷ rows) w =
    let done = add_rows now (row ∷ rows) w in
    let kicked = if done.0 && not w.flushing then start_flush done.1 else done.1 in
    if should_flush kicked && idle then start_flush kicked else kicked

-- The swap of a buffer that is not empty.
unfoldable pub take_batch : ℕ → List Row → Writer → Writer
take_batch now [] w = w
take_batch now (row ∷ rows) w = record w {
  buffer = [];
  flushing = true;
  last_flush_ts = now;
  in_flight = row ∷ rows;
}

-- A flush that has the lock, up to the database; with another one under way it waits.
unfoldable pub flush_begin : ℕ → Writer → Writer
flush_begin now w = if w.flushing then w else take_batch now w.buffer w

-- The end of the flush under way, with what it returns; `committed` is what the database did.
unfoldable pub flush_end : Bool → Writer → ℕ × Writer
unfolding dedup upsert_all
flush_end committed w =
    let batch = dedup w.in_flight in
    if not w.flushing
    then (0, w)
    else if committed
    then (
      length batch,
      record w {
        flushing = false;
        in_flight = [];
        row_counts = Dict.empty;
        table = upsert_all batch w.table;
      },
    )
    else (
      0,
      record w {
        flushing = false;
        in_flight = [];
        letters = w.letters ++ (flush_failed batch ∷ []);
      },
    )
