-- ===== src/Ingestion/Writer/Accounting.antt =====
-- Where each row given to the writer, archive/python-legacy/backend/app/ingestion/writer.py, ends up.
use ffllowwgreeks.Prelude.{
  ℕ, ◌+◌, ◌≡◌, refl, sym, ap, ◌∙◌, Bool, true, false, not, List, [], ◌∷◌, ◌++◌, length,
  if◌then◌else◌, arith, if-cases,
}
use ffllowwgreeks.Prelude.Dict
use ffllowwgreeks.Ingestion.Writer.{Row, dedup, upsert_all}
use ffllowwgreeks.Ingestion.Writer.Steps.{
  Writer, create, add, add_many, take_batch, flush_begin, flush_end, Letter, flush_failed,
  backpressure_overflow,
}
use ffllowwgreeks.Ingestion.Writer.Backpressure.{
  count, held, shed_of, IsSound, Takes, add-Takes, add_many-Takes, count-append,
}

pub data Act : Type 0 where
  add_row : ℕ → Row → Act
  add_rows : ℕ → Bool → List Row → Act
  begin : ℕ → Act
  end : Bool → Act

-- The writer, the rows it was given, and the rows of the batches that were flushed or failed.
pub record Ledger : Type 0 where
  pub writer : Writer
  pub given : List Row
  pub closed : List Row

pub step : Act → Ledger → Ledger
step (add_row now row) l = record l { writer = add now row l.writer; given = l.given ++ (row ∷ []) }
step (add_rows now idle rows) l = record l {
  writer = add_many now idle rows l.writer;
  given = l.given ++ rows;
}
step (begin now) l = record l { writer = flush_begin now l.writer }
step (end committed) l = record l {
  writer = (flush_end committed l.writer).1;
  closed = l.closed ++ l.writer.in_flight;
}

unfoldable pub run : List Act → Ledger → Ledger
unfolding step
run [] l = l
run (a ∷ acts) l = run acts (step a l)

-- The writer is sound, and every row that was given is once in the batches that were closed, in
-- the batch in flight, in the buffer or among the rows that were shed.
unfoldable pub IsAccounted : Ledger → Type 0
unfolding IsSound
IsAccounted l =
    IsSound l.writer × ((p : Row → Bool) → count p l.given ≡ count p l.closed + held p l.writer)

-- A sound writer that holds what another one does.
Keeps : Writer → Writer → Type 0
Keeps w v = IsSound v × ((p : Row → Bool) → held p v ≡ held p w)

take_batch-Keeps :
    (now : ℕ) (w : Writer) (rows : List Row)
    → w.buffer ≡ rows
    → w.flushing ≡ false
    → IsSound w
    → Keeps w (take_batch now rows w)
unfolding Keeps IsSound take_batch
take_batch-Keeps now w [] e idle h = (h, λ p. refl)
take_batch-Keeps now w (row ∷ rows) e idle h = (
  (omega arith, (h.1.0, λ f. absurd (ground (arith, f)))),
  λ p. ground (arith, ap (count p) e, ap (count p) (h.1.1 idle)),
)

flush_begin-Keeps : (now : ℕ) (w : Writer) → IsSound w → Keeps w (flush_begin now w)
unfolding flush_begin Keeps
flush_begin-Keeps now w h =
    if-cases (Keeps w) w.flushing w (take_batch now w.buffer w) (λ e. (h, λ p. refl))
      (λ e. take_batch-Keeps now w w.buffer refl e h)

-- The end of a flush gives the batch in flight away.
Closes : Writer → ℕ × Writer → Type 0
Closes w out = IsSound out.1 × ((p : Row → Bool) → count p w.in_flight + held p out.1 ≡ held p w)

shed_of-failed :
    (letters : List Letter) (batch : List Row)
    → shed_of (letters ++ (flush_failed batch ∷ [])) ≡ shed_of letters
shed_of-failed [] batch = refl
shed_of-failed (backpressure_overflow row ∷ letters) batch =
    ap (λ l. row ∷ l) (shed_of-failed letters batch)
shed_of-failed (flush_failed b ∷ letters) batch = shed_of-failed letters batch

flush_end-Closes : (committed : Bool) (w : Writer) → IsSound w → Closes w (flush_end committed w)
unfolding flush_end Closes IsSound
flush_end-Closes committed w h =
    let batch = dedup w.in_flight in
    let done : ℕ × Writer = (
      length batch,
      record w {
        flushing = false;
        in_flight = [];
        row_counts = Dict.empty;
        table = upsert_all batch w.table;
      },
    ) in
    let failed : ℕ × Writer = (
      0,
      record w {
        flushing = false;
        in_flight = [];
        letters = w.letters ++ (flush_failed batch ∷ []);
      },
    ) in
    if-cases (Closes w) (not w.flushing) (0, w) (if committed then done else failed)
      (λ e. (h, λ p. ground (arith, ap (count p) (h.1.1 (ground (arith, e))))))
      (λ e.
        if-cases (Closes w) committed done failed
          (λ f. ((h.0, (h.1.0, λ g. refl)), λ p. omega arith))
          (λ f.
            let letters = shed_of-failed w.letters batch in
            (
              (h.0, (h.1.0 ∙ ap length (sym letters), λ g. refl)),
              λ p. omega (arith, ap (count p) letters),
            )))

step-IsAccounted : (a : Act) (l : Ledger) → IsAccounted l → IsAccounted (step a l)
unfolding IsAccounted step Takes Keeps Closes
step-IsAccounted (add_row now row) l h = (
  (add-Takes (λ r. true) now row l.writer h.0).0,
  λ p.
      omega (arith, h.1 p, count-append p l.given (row ∷ []), (add-Takes p now row l.writer h.0).1),
)
step-IsAccounted (add_rows now idle rows) l h = (
  (add_many-Takes (λ r. true) now idle rows l.writer h.0).0,
  λ p.
      omega (
        arith,
        h.1 p,
        count-append p l.given rows,
        (add_many-Takes p now idle rows l.writer h.0).1,
      ),
)
step-IsAccounted (begin now) l h =
    let kept = flush_begin-Keeps now l.writer h.0 in (kept.0, λ p. omega (arith, h.1 p, kept.1 p))
step-IsAccounted (end committed) l h =
    let closed = flush_end-Closes committed l.writer h.0 in
    (closed.0, λ p. omega (arith, h.1 p, closed.1 p, count-append p l.closed l.writer.in_flight))

pub run-IsAccounted : (acts : List Act) (l : Ledger) → IsAccounted l → IsAccounted (run acts l)
unfolding run
run-IsAccounted [] l h = h
run-IsAccounted (a ∷ acts) l h = run-IsAccounted acts (step a l) (step-IsAccounted a l h)

unfoldable pub opened : ℕ → ℕ → ℕ → List Row → Ledger
opened batch_size max_pending_rows now table = record {
  writer = create batch_size max_pending_rows now table;
  given = [];
  closed = [];
}

-- However additions and the beginnings and ends of flushes follow on a new writer, the buffer never
-- exceeds its bound, the counter is the number of rows that were shed, and every row given is once
-- in the batches that were closed, in the batch in flight, in the buffer or among the rows shed.
pub run-opened-IsAccounted :
    (batch_size max_pending_rows now : ℕ) (table : List Row) (acts : List Act)
    → IsAccounted (run acts (opened batch_size max_pending_rows now table))
unfolding IsAccounted opened create
run-opened-IsAccounted batch_size max_pending_rows now table acts =
    run-IsAccounted acts (opened batch_size max_pending_rows now table)
      ((omega arith, (refl, λ e. refl)), λ p. refl)
