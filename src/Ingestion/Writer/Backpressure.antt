-- ===== src/Ingestion/Writer/Backpressure.antt =====
-- Runs of the writer, archive/python-legacy/backend/app/ingestion/writer.py: additions, and flushes
-- that begin and end at any time.
use ffllowwgreeks.Prelude.{
  ℕ, suc, ◌+◌, ◌≤◌, ◌≡◌, refl, ap, inl, inr, Bool, false, not, ◌&&◌, List, [], ◌∷◌, ◌++◌, length,
  length-append, if◌then◌else◌, arith, Bool-cases, if-cases,
}
use ffllowwgreeks.Ingestion.Writer.{Row}
use ffllowwgreeks.Ingestion.Writer.Steps.{
  Letter, backpressure_overflow, flush_failed, Writer, pending, overflows, shed, append,
  start_flush, should_flush, add, add_rows, add_many,
}

-- The rows that were shed, from the dead letters.
abbrev pub shed_of : List Letter → List Row
shed_of [] = []
shed_of (backpressure_overflow row ∷ letters) = row ∷ shed_of letters
shed_of (flush_failed batch ∷ letters) = shed_of letters

abbrev pub count : (Row → Bool) → List Row → ℕ
count p [] = 0
count p (row ∷ rows) = let n = count p rows in if p row then suc n else n

-- The rows in the writer's hands and the rows it shed, as far as they pass a test.
abbrev pub held : (Row → Bool) → Writer → ℕ
held p w = count p w.in_flight + count p w.buffer + count p (shed_of w.letters)

-- The buffer is bounded, the counter is right, and there is a batch only during a flush.
unfoldable pub IsSound : Writer → Type 0
IsSound w =
    (pending w ≤ w.max_pending_rows)
    × ((w.shed_rows ≡ length (shed_of w.letters)) × (w.flushing ≡ false → w.in_flight ≡ []))

pub count-append :
    (p : Row → Bool) (xs ys : List Row) → count p (xs ++ ys) ≡ count p xs + count p ys
count-append p [] ys = omega arith
count-append p (x ∷ xs) ys = ground (arith, count-append p xs ys)

pub shed_of-append : (xs ys : List Letter) → shed_of (xs ++ ys) ≡ shed_of xs ++ shed_of ys
shed_of-append [] ys = refl
shed_of-append (backpressure_overflow row ∷ xs) ys = ap (λ l. row ∷ l) (shed_of-append xs ys)
shed_of-append (flush_failed batch ∷ xs) ys = shed_of-append xs ys

length-snoc : (xs : List Row) (row : Row) → length (xs ++ (row ∷ [])) ≡ suc (length xs)
length-snoc xs row = omega (arith, length-append xs (row ∷ []))

shed-IsSound : (row : Row) (w : Writer) → IsSound w → IsSound (shed row w)
unfolding IsSound shed
shed-IsSound row w h = (
  h.0,
  (
    omega (
      arith,
      h.1.0,
      ap length (shed_of-append w.letters (backpressure_overflow row ∷ [])),
      length-snoc (shed_of w.letters) row,
    ),
    h.1.1,
  ),
)

held-shed :
    (p : Row → Bool) (row : Row) (w : Writer) → held p (shed row w) ≡ held p w + count p (row ∷ [])
unfolding shed
held-shed p row w = ground (
  arith,
  ap (count p) (shed_of-append w.letters (backpressure_overflow row ∷ [])),
  count-append p (shed_of w.letters) (row ∷ []),
)

append-IsSound :
    (now : ℕ) (row : Row) (w : Writer)
    → overflows w ≡ false
    → IsSound w
    → IsSound (append now row w)
unfolding IsSound append overflows
append-IsSound now row w free h = (ground (arith, free, length-snoc w.buffer row), h.1)

held-append :
    (p : Row → Bool) (now : ℕ) (row : Row) (w : Writer)
    → held p (append now row w) ≡ held p w + count p (row ∷ [])
unfolding append
held-append p now row w = ground (arith, count-append p w.buffer (row ∷ []))

-- A writer that keeps the test's count of rows, up to `n` more, and is sound.
unfoldable pub Takes : (Row → Bool) → ℕ → Writer → Writer → Type 0
Takes p n w v = IsSound v × (held p v ≡ held p w + n)

start_flush-Takes :
    (p : Row → Bool) (n : ℕ) (w v : Writer) → Takes p n w v → Takes p n w (start_flush v)
unfolding Takes IsSound start_flush
start_flush-Takes p n w v h = h

shed-Takes :
    (p : Row → Bool) (row : Row) (w : Writer)
    → IsSound w
    → Takes p (count p (row ∷ [])) w (shed row w)
unfolding Takes
shed-Takes p row w h = (shed-IsSound row w h, held-shed p row w)

append-Takes :
    (p : Row → Bool) (now : ℕ) (row : Row) (w : Writer)
    → overflows w ≡ false
    → IsSound w
    → Takes p (count p (row ∷ [])) w (append now row w)
unfolding Takes
append-Takes p now row w free h = (append-IsSound now row w free h, held-append p now row w)

pub add-Takes :
    (p : Row → Bool) (now : ℕ) (row : Row) (w : Writer)
    → IsSound w
    → Takes p (count p (row ∷ [])) w (add now row w)
unfolding add
add-Takes p now row w h =
    let n = count p (row ∷ []) in
    let shed_it = shed-Takes p row w h in
    let put = append now row w in
    if-cases (Takes p n w) (overflows w)
      (if w.flushing then shed row w else start_flush (shed row w))
      (if should_flush put && not put.flushing then start_flush put else put)
      (λ e.
        if-cases (Takes p n w) w.flushing (shed row w) (start_flush (shed row w)) (λ f. shed_it)
          (λ f. start_flush-Takes p n w (shed row w) shed_it))
      (λ e.
        let put_it = append-Takes p now row w e h in
        if-cases (Takes p n w) (should_flush put && not put.flushing) (start_flush put) put
          (λ f. start_flush-Takes p n w put put_it) (λ f. put_it))

then-Takes :
    (p : Row → Bool) (row : Row) (rows : List Row) (u v w : Writer)
    → Takes p (count p (row ∷ [])) u v
    → Takes p (count p rows) v w
    → Takes p (count p (row ∷ rows)) u w
unfolding Takes
then-Takes p row rows u v w h g = (g.0, ground (arith, h.1, g.1))

add_rows-Takes :
    (p : Row → Bool) (now : ℕ) (rows : List Row) (w : Writer)
    → IsSound w
    → Takes p (count p rows) w (add_rows now rows w).1
unfolding add_rows Takes
add_rows-Takes p now [] w h = (h, omega arith)
add_rows-Takes p now (row ∷ rows) w h = elim (Bool-cases (overflows w)) [
  | inl e ↦
      let first = shed-Takes p row w h in
      rw (e) (
        then-Takes p row rows w (shed row w) (add_rows now rows (shed row w)).1 first
          (add_rows-Takes p now rows (shed row w) first.0))
  | inr e ↦
      let first = append-Takes p now row w e h in
      rw (e) (
        then-Takes p row rows w (append now row w) (add_rows now rows (append now row w)).1 first
          (add_rows-Takes p now rows (append now row w) first.0))
]

pub add_many-Takes :
    (p : Row → Bool) (now : ℕ) (idle : Bool) (rows : List Row) (w : Writer)
    → IsSound w
    → Takes p (count p rows) w (add_many now idle rows w)
unfolding add_many add_rows
add_many-Takes p now idle [] w h = add_rows-Takes p now [] w h
add_many-Takes p now idle (row ∷ rows) w h =
    let n = count p (row ∷ rows) in
    let done = add_rows now (row ∷ rows) w in
    let kicked = if done.0 && not w.flushing then start_flush done.1 else done.1 in
    let taken = add_rows-Takes p now (row ∷ rows) w h in
    let kicked_too =
      if-cases (Takes p n w) (done.0 && not w.flushing) (start_flush done.1) done.1
        (λ f. start_flush-Takes p n w done.1 taken) (λ f. taken) in
    if-cases (Takes p n w) (should_flush kicked && idle) (start_flush kicked) kicked
      (λ f. start_flush-Takes p n w kicked kicked_too) (λ f. kicked_too)
