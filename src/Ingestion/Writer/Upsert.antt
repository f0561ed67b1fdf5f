-- ===== src/Ingestion/Writer/Upsert.antt =====
-- The statement of a flush, archive/python-legacy/backend/app/ingestion/writer.py, on the table.
use ffllowwgreeks.Prelude.{
  ℕ, ◌≡◌, refl, sym, ap, ◌∙◌, inl, inr, Bool, true, false, not, ◌&&◌, Option, List, [], ◌∷◌, All,
  if◌then◌else◌, Text, same, same_iff, arith, Bool-cases,
}
use ffllowwgreeks.Prelude.Dict
use ffllowwgreeks.Ingestion.Writer.{
  Value, Row, field, same_key, primary_key, dedup, updated, set_columns, upsert, upsert_all,
}
use ffllowwgreeks.Ingestion.Writer.Merge.{
  mem, value, latest, same_key_sym, same_key_trans, same_key-other, same_key-fields,
}
use ffllowwgreeks.Ingestion.Writer.Table.{
  value-cons, value-dedup, Distinct, dedup-Distinct, occurs, occurs-dedup, other-key,
}
use ffllowwgreeks.Ingestion.Writer.Steps.{Writer, flush_begin, take_batch, flush_end}

abbrev disjoint : List Text → List Text → Bool
disjoint [] bs = true
disjoint (a ∷ as') bs = not (mem a bs) && disjoint as' bs

mem-disjoint :
    (n : Text) (as' bs : List Text) → mem n as' ≡ true → disjoint as' bs ≡ true → mem n bs ≡ false
mem-disjoint n [] bs m d = absurd (ground arith)
mem-disjoint n (a ∷ as') bs m d = ground (
  arith,
  m,
  d,
  mem-disjoint n as' bs,
  λ (e : same a n ≡ true). ap (λ x. mem x bs) ((same_iff a n).0 e),
)

field-put :
    (n k : Text) (v : Option Value) (e : Row)
    → field n (Dict.put e k v) ≡ (if same k n then v else field n e)
unfolding field
field-put n k v e = ground (arith, Dict.get-put e k n v)

disjoint_lem : disjoint primary_key updated ≡ true
unfolding same
disjoint_lem = refl

field-set_columns :
    (n : Text) (names : List Text) (row e : Row)
    → field n (set_columns names row e) ≡ (if mem n names then field n row else field n e)
unfolding set_columns
field-set_columns n [] row e = refl
field-set_columns n (k ∷ names) row e = ground (
  arith,
  field-put n k (field k row) (set_columns names row e),
  field-set_columns n names row e,
  λ (h : same k n ≡ true). ap (λ x. field x row) ((same_iff k n).0 h),
)

-- A conflict does not touch the key.
same_key-set_columns : (row e : Row) → same_key e (set_columns updated row e) ≡ true
same_key-set_columns row e = same_key-fields e (set_columns updated row e) (λ n m.
    ground
      (arith, field-set_columns n updated row e, mem-disjoint n primary_key updated m disjoint_lem))

value-upsert :
    (n : Text) (k row : Row) (table : List Row)
    → mem n updated ≡ true
    → value n k (upsert row table) ≡ (if same_key row k then field n row else value n k table)
unfolding upsert
value-upsert n k row [] m = value-cons n k row []
value-upsert n k row (e ∷ rest) m = elim (Bool-cases (same_key e row)) [
  | inl c ↦
      rw
        (
          c,
          value-cons n k (set_columns updated row e) rest,
          value-cons n k e rest,
          sym (same_key-other e (set_columns updated row e) k (same_key-set_columns row e)),
          sym (same_key-other e row k c),
          field-set_columns n updated row e,
          m,
        )
        (ground arith)
  | inr c ↦
      let apart = other-key e row k c in
      rw (c, value-cons n k e (upsert row rest), value-cons n k e rest, value-upsert n k row rest m)
        (ground (arith, apart))
]

occurs-Distinct :
    (row k : Row) (rows : List Row)
    → All (λ s. same_key row s ≡ false) rows
    → same_key row k ≡ true
    → occurs k rows ≡ false
occurs-Distinct row k [] a h = refl
occurs-Distinct row k (s ∷ rows) a h = elim (Bool-cases (same_key s k)) [
  | inl c ↦ absurd (ground (arith, a.0, same_key_trans row k s h (same_key_sym s k c)))
  | inr c ↦ rw (c) (occurs-Distinct row k rows a.1 h)
]

value-upsert_all :
    (n : Text) (k : Row) (rows table : List Row)
    → mem n updated ≡ true
    → Distinct rows
    → value n k (upsert_all rows table)
      ≡ (if occurs k rows then value n k rows else value n k table)
unfolding upsert_all
value-upsert_all n k [] table m d = refl
value-upsert_all n k (row ∷ rows) table m d =
    rw
      (
        value-upsert_all n k rows (upsert row table) m d.1,
        value-upsert n k row table m,
        value-cons n k row rows,
      )
      (ground (arith, occurs-Distinct row k rows d.0))

flush_begin_idle :
    (now : ℕ) (w : Writer) → w.flushing ≡ false → flush_begin now w ≡ take_batch now w.buffer w
unfolding flush_begin
flush_begin_idle now w idle = ap (λ b. if b then w else take_batch now w.buffer w) idle

value-take_batch :
    (n : Text) (k : Row) (now : ℕ) (rows : List Row) (w : Writer)
    → mem n updated ≡ true
    → w.flushing ≡ false
    → value n k (flush_end true (take_batch now rows w)).1.table
      ≡ (if occurs k rows then latest n k rows else value n k w.table)
unfolding take_batch flush_end
value-take_batch n k now [] w m idle = rw (idle, flush_end) refl
value-take_batch n k now (row ∷ rows) w m idle =
    value-upsert_all n k (dedup (row ∷ rows)) w.table m (dedup-Distinct (row ∷ rows))
    ∙ rw (occurs-dedup k (row ∷ rows), value-dedup n k (row ∷ rows)) refl

-- After a flush that is committed, an updated column of a key in the buffer holds the last value
-- that any buffered row with the key gave, or none if no such row gave one, whatever the table
-- held; the rows of other keys keep the column.
pub value-flush :
    (n : Text) (k : Row) (now : ℕ) (w : Writer)
    → mem n updated ≡ true
    → w.flushing ≡ false
    → value n k (flush_end true (flush_begin now w)).1.table
      ≡ (if occurs k w.buffer then latest n k w.buffer else value n k w.table)
value-flush n k now w m idle =
    ap (λ v. value n k (flush_end true v).1.table) (flush_begin_idle now w idle)
    ∙ value-take_batch n k now w.buffer w m idle
