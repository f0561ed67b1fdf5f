-- ===== src/Ingestion/Dlq.antt =====
-- DeadLetterQueue of archive/python-legacy/backend/app/ingestion/dlq.py. A flush gives up the lock
-- while the database works, so it is two steps: `flush_begin` drains, `flush_end` takes the outcome.
pub mod Accounting
pub mod Order
use ffllowwgreeks.Prelude.{
  ℕ, zero, suc, ◌+◌, ◌-◌, ◌*◌, Bool, true, false, Option, none, some, List, [], ◌∷◌, ◌++◌, ltb,
  ◌==◌, if◌then◌else◌, length, drop,
}
use ffllowwgreeks.Broker.Queue.{append_bounded}

-- One record of the queue: its time, source, reason and payload.
pub record Entry {ℓ} (P : Type ℓ) : Type ℓ where
  pub ts : ℕ
  pub source : List ℕ
  pub reason : List ℕ
  pub payload : Option P

pub record Dlq {ℓ} (P : Type ℓ) : Type ℓ where
  -- `_max_capacity`, which is also the `maxlen` of `_buffer`
  pub max_capacity : ℕ
  pub buffer : List (Entry P)
  pub evicted : ℕ
  -- `_pending_retry`
  pub retry : List (Entry P)

-- `max_size or settings.ingestion_dlq_max_size`
abbrev pub capacity_of : Option ℕ → ℕ → ℕ
capacity_of none setting = setting
capacity_of (some zero) setting = setting
capacity_of (some (suc n)) setting = suc n

abbrev pub microseconds_per_day : ℕ
microseconds_per_day = 86_400_000_000

module _ {ℓ} {P : Type ℓ} where
  unfoldable pub create : Option ℕ → ℕ → Dlq P
  create max_size setting = record {
    max_capacity = capacity_of max_size setting;
    buffer = [];
    evicted = 0;
    retry = [];
  }

  unfoldable pub pending : Dlq P → ℕ
  pending d = length d.buffer + length d.retry

  unfoldable pub evicted_count : Dlq P → ℕ
  evicted_count d = d.evicted

  unfoldable pub add : Entry P → Dlq P → Dlq P
  unfolding append_bounded
  add e d = record d {
    evicted = if length d.buffer == d.max_capacity then d.evicted + 1 else d.evicted;
    buffer = append_bounded d.max_capacity d.buffer e;
  }

  -- Under the lock: the retry slot first, then the buffer; both are left empty.
  unfoldable pub flush_begin : Dlq P → List (Entry P) × Dlq P
  flush_begin d = (d.retry ++ d.buffer, record d { retry = []; buffer = [] })

  -- The `except` branch: the batch goes before what is parked, and the oldest overflow is dropped.
  unfoldable pub park : List (Entry P) → Dlq P → Dlq P
  park batch d =
      let parked = batch ++ d.retry in
      if ltb d.max_capacity (length parked)
      then record d {
        retry = drop (length parked - d.max_capacity) parked;
        evicted = d.evicted + (length parked - d.max_capacity);
      }
      else record d { retry = parked }

  -- What follows the database call, and the result of `flush`.
  unfoldable pub flush_end : Bool → List (Entry P) → Dlq P → Dlq P × ℕ
  unfolding park
  flush_end true batch d = (d, length batch)
  flush_end false batch d = (park batch d, 0)

  abbrev pub written : Bool → List (Entry P) → List (Entry P)
  written true batch = batch
  written false batch = []

  unfoldable pub flush_of : Bool → List (Entry P) → Dlq P → Dlq P × ℕ
  unfolding flush_end
  flush_of stored [] d = (d, 0)
  flush_of stored (e ∷ batch) d = flush_end stored (e ∷ batch) d

  -- A flush that nothing interrupts; `stored` says whether the database took the batch.
  unfoldable pub flush : Bool → Dlq P → Dlq P × ℕ
  unfolding flush_begin flush_of
  flush stored d = let (batch, d') = flush_begin d in flush_of stored batch d'

  rows_from : ℕ → List (Entry P) → List (Entry P)
  rows_from cutoff [] = []
  rows_from cutoff (r ∷ rows) =
      let rest = rows_from cutoff rows in if ltb r.ts cutoff then rest else r ∷ rest

  -- The rows that `cleanup_dlq_older_than` leaves and its result. `none` for the retention stands
  -- for an argument that is not positive.
  unfoldable pub cleanup_dlq_older_than : Bool → Option ℕ → ℕ → List (Entry P) → List (Entry P) × ℕ
  unfolding rows_from
  cleanup_dlq_older_than reachable none now rows = (rows, 0)
  cleanup_dlq_older_than false (some retention_days) now rows = (rows, 0)
  cleanup_dlq_older_than true (some retention_days) now rows =
      let kept = rows_from (now - retention_days * microseconds_per_day) rows in
      (kept, length rows - length kept)
