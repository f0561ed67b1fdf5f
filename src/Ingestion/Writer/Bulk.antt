-- ===== src/Ingestion/Writer/Bulk.antt =====
-- add_many of archive/python-legacy/backend/app/ingestion/writer.py against a series of calls of add.
use ffllowwgreeks.Prelude.{
  ℕ, ◌≡◌, refl, sym, ap, ◌∙◌, Bool, not, ◌&&◌, List, [], ◌∷◌, if◌then◌else◌, if-cases, arith,
}
use ffllowwgreeks.Ingestion.Writer.{Row}
use ffllowwgreeks.Ingestion.Writer.Steps.{
  Writer, overflows, shed, append, start_flush, should_flush, add, add_rows, add_many,
}

pub add_each : ℕ → List Row → Writer → Writer
add_each now [] w = w
add_each now (row ∷ rows) w = add_each now rows (add now row w)

-- The writer but for the number of flush tasks that it started.
unfoldable pub but_tasks : Writer → Writer
but_tasks w = record w { background_tasks = 0 }

put : ℕ → Row → Writer → Writer
put now row w = if overflows w then shed row w else append now row w

start_flush-but_tasks : (w : Writer) → but_tasks (start_flush w) ≡ but_tasks w
unfolding but_tasks start_flush
start_flush-but_tasks w = refl

add-put : (now : ℕ) (row : Row) (w : Writer) → but_tasks (add now row w) ≡ but_tasks (put now row w)
unfolding add put
add-put now row w =
    ground (arith, start_flush-but_tasks (shed row w), start_flush-but_tasks (append now row w))

overflows-but_tasks : (w : Writer) → overflows (but_tasks w) ≡ overflows w
unfolding but_tasks overflows
overflows-but_tasks w = refl

shed-but_tasks : (row : Row) (w : Writer) → shed row (but_tasks w) ≡ but_tasks (shed row w)
unfolding but_tasks shed
shed-but_tasks row w = refl

append-but_tasks :
    (now : ℕ) (row : Row) (w : Writer) → append now row (but_tasks w) ≡ but_tasks (append now row w)
unfolding but_tasks append
append-but_tasks now row w = refl

put-but_tasks :
    (now : ℕ) (row : Row) (w : Writer) → put now row (but_tasks w) ≡ but_tasks (put now row w)
unfolding put
put-but_tasks now row w =
    ground (arith, overflows-but_tasks w, shed-but_tasks row w, append-but_tasks now row w)

put_each : ℕ → List Row → Writer → Writer
put_each now [] w = w
put_each now (row ∷ rows) w = put_each now rows (put now row w)

put_each-but_tasks :
    (now : ℕ) (rows : List Row) (w : Writer)
    → put_each now rows (but_tasks w) ≡ but_tasks (put_each now rows w)
unfolding put_each
put_each-but_tasks now [] w = refl
put_each-but_tasks now (row ∷ rows) w =
    ap (put_each now rows) (put-but_tasks now row w) ∙ put_each-but_tasks now rows (put now row w)

add_rows-put_each :
    (now : ℕ) (rows : List Row) (w : Writer) → (add_rows now rows w).1 ≡ put_each now rows w
unfolding add_rows put_each put
add_rows-put_each now [] w = refl
add_rows-put_each now (row ∷ rows) w =
    ground (
      arith,
      add_rows-put_each now rows (shed row w),
      add_rows-put_each now rows (append now row w),
    )

add_each-put_each :
    (now : ℕ) (rows : List Row) (w : Writer)
    → but_tasks (add_each now rows w) ≡ but_tasks (put_each now rows w)
unfolding add_each put_each
add_each-put_each now [] w = refl
add_each-put_each now (row ∷ rows) w =
    add_each-put_each now rows (add now row w)
    ∙ sym (put_each-but_tasks now rows (add now row w))
    ∙ ap (put_each now rows) (add-put now row w)
    ∙ put_each-but_tasks now rows (put now row w)

add_many-add_rows :
    (now : ℕ) (idle : Bool) (rows : List Row) (w : Writer)
    → but_tasks (add_many now idle rows w) ≡ but_tasks (add_rows now rows w).1
unfolding add_many put_each
add_many-add_rows now idle [] w = ap but_tasks (sym (add_rows-put_each now [] w))
add_many-add_rows now idle (row ∷ rows) w =
    let done = add_rows now (row ∷ rows) w in
    let Like : Writer → Type 0 = λ v. but_tasks v ≡ but_tasks done.1 in
    let kicked = if done.0 && not w.flushing then start_flush done.1 else done.1 in
    let same_kicked : but_tasks kicked ≡ but_tasks done.1 =
      if-cases Like (done.0 && not w.flushing) (start_flush done.1) done.1
        (λ e. start_flush-but_tasks done.1) (λ e. refl) in
    if-cases Like (should_flush kicked && idle) (start_flush kicked) kicked
      (λ e. start_flush-but_tasks kicked ∙ same_kicked) (λ e. same_kicked)

-- A call of add_many leaves the same buffer, counters, dead letters and last event as one call of
-- add per row at the same moment; the two differ at most in the flush tasks that they start.
pub add_many-add_each :
    (now : ℕ) (idle : Bool) (rows : List Row) (w : Writer)
    → but_tasks (add_many now idle rows w) ≡ but_tasks (add_each now rows w)
add_many-add_each now idle rows w =
    add_many-add_rows now idle rows w
    ∙ ap but_tasks (add_rows-put_each now rows w)
    ∙ sym (add_each-put_each now rows w)
