-- ===== src/Ingestion/Writer/Table.antt =====
-- What a flush of archive/python-legacy/backend/app/ingestion/writer.py leaves in the table.
use ffllowwgreeks.Prelude.{
  ◌≡◌, refl, sym, ap, ◌∙◌, inl, inr, Bool, true, false, ◌||◌, Option, none, some, List, [], ◌∷◌,
  if◌then◌else◌, Text, arith, Bool-cases, All,
}
use ffllowwgreeks.Ingestion.Writer.{
  Value, Row, field, same_key, merge, dedup_into, dedup_onto, dedup,
}
use ffllowwgreeks.Ingestion.Writer.Merge.{
  or_else, find_row, value, latest, same_key_sym, same_key_trans, same_key-other, same_key-merge,
  field-merge,
}

pub value-cons :
    (n : Text) (k row : Row) (rows : List Row)
    → value n k (row ∷ rows) ≡ (if same_key row k then field n row else value n k rows)
unfolding value find_row
value-cons n k row rows = elim (Bool-cases (same_key row k)) [
  | inl e ↦ rw (e, value, find_row) refl
  | inr e ↦ rw (e, value, find_row) refl
]

pub value-nil : (n : Text) (k : Row) → value n k [] ≡ none
unfolding value find_row
value-nil n k = refl

or_else-none : (v : Option Value) → or_else v none ≡ v
or_else-none none = refl
or_else-none (some v) = refl

or_else_assoc : (u v w : Option Value) → or_else (or_else u v) w ≡ or_else u (or_else v w)
or_else_assoc none v w = refl
or_else_assoc (some u) v w = refl

or_else-if :
    (u v w : Option Value) (b : Bool)
    → or_else u (if b then or_else v w else w) ≡ or_else (or_else u (if b then v else none)) w
or_else-if u v w true = sym (or_else_assoc u v w)
or_else-if u v w false = ap (λ x. or_else x w) (sym (or_else-none u))

pub other-key :
    (e row k : Row) → same_key e row ≡ false → same_key row k ≡ true → same_key e k ≡ false
other-key e row k h g = elim (Bool-cases (same_key e k)) [
  | inl c ↦ absurd (ground (arith, h, same_key_trans e k row c (same_key_sym row k g)))
  | inr c ↦ c
]

value-dedup_into :
    (n : Text) (k row : Row) (rows : List Row)
    → value n k (dedup_into row rows)
      ≡ (if same_key row k then or_else (field n row) (value n k rows) else value n k rows)
unfolding dedup_into
value-dedup_into n k row [] =
    rw (value-cons n k row [], value-nil n k, or_else-none (field n row)) refl
value-dedup_into n k row (e ∷ rest) = elim (Bool-cases (same_key e row)) [
  | inl h ↦
      rw
        (
          h,
          value-cons n k (merge e row) rest,
          value-cons n k e rest,
          sym (same_key-other e (merge e row) k (same_key-merge e row h)),
          sym (same_key-other e row k h),
          field-merge n e row,
        )
        (ground arith)
  | inr h ↦
      let apart = other-key e row k h in
      rw
        (
          h,
          value-cons n k e (dedup_into row rest),
          value-cons n k e rest,
          value-dedup_into n k row rest,
        )
        (ground (arith, apart))
]

value-dedup_onto :
    (n : Text) (k : Row) (batch rows : List Row)
    → value n k (dedup_onto batch rows) ≡ or_else (latest n k batch) (value n k rows)
unfolding dedup_onto latest
value-dedup_onto n k [] rows = refl
value-dedup_onto n k (row ∷ batch) rows =
    rw (value-dedup_onto n k batch (dedup_into row rows), value-dedup_into n k row rows)
      (or_else-if (latest n k batch) (field n row) (value n k rows) (same_key row k))

-- The row of a key in a merged batch has, for every field, the last value that any row with the
-- key gave.
pub value-dedup :
    (n : Text) (k : Row) (batch : List Row) → value n k (dedup batch) ≡ latest n k batch
unfolding dedup
value-dedup n k batch =
    value-dedup_onto n k batch [] ∙ rw (value-nil n k) (or_else-none (latest n k batch))

-- No two rows of a batch have the same key, as a statement that updates on conflict requires.
abbrev pub Distinct : List Row → Type 0
Distinct [] = Unit
Distinct (r ∷ rs) = All (λ s. same_key r s ≡ false) rs × Distinct rs

Avoids-merge :
    (e f row : Row)
    → same_key f row ≡ true
    → same_key e f ≡ false
    → same_key e (merge f row) ≡ false
Avoids-merge e f row h g = elim (Bool-cases (same_key e (merge f row))) [
  | inl c ↦ absurd (
      ground (
        arith,
        g,
        same_key_trans e (merge f row) f c (same_key_sym f (merge f row) (same_key-merge f row h)),
      ))
  | inr c ↦ c
]

All-dedup_into :
    (e row : Row) (rows : List Row)
    → same_key e row ≡ false
    → All (λ s. same_key e s ≡ false) rows
    → All (λ s. same_key e s ≡ false) (dedup_into row rows)
unfolding dedup_into
All-dedup_into e row [] h a = (h, tt)
All-dedup_into e row (f ∷ rest) h a = elim (Bool-cases (same_key f row)) [
  | inl c ↦ rw (c) (Avoids-merge e f row c a.0, a.1)
  | inr c ↦ rw (c) (a.0, All-dedup_into e row rest h a.1)
]

All-merge :
    (e row : Row) (rows : List Row)
    → same_key e row ≡ true
    → All (λ s. same_key e s ≡ false) rows
    → All (λ s. same_key (merge e row) s ≡ false) rows
All-merge e row [] h a = tt
All-merge e row (s ∷ rows) h a = (
  sym (same_key-other e (merge e row) s (same_key-merge e row h)) ∙ a.0,
  All-merge e row rows h a.1,
)

dedup_into-Distinct : (row : Row) (rows : List Row) → Distinct rows → Distinct (dedup_into row rows)
unfolding dedup_into
dedup_into-Distinct row [] d = (tt, tt)
dedup_into-Distinct row (e ∷ rest) d = elim (Bool-cases (same_key e row)) [
  | inl c ↦ rw (c) (All-merge e row rest c d.0, d.1)
  | inr c ↦ rw (c) (All-dedup_into e row rest c d.0, dedup_into-Distinct row rest d.1)
]

dedup_onto-Distinct : (batch rows : List Row) → Distinct rows → Distinct (dedup_onto batch rows)
unfolding dedup_onto
dedup_onto-Distinct [] rows d = d
dedup_onto-Distinct (row ∷ batch) rows d =
    dedup_onto-Distinct batch (dedup_into row rows) (dedup_into-Distinct row rows d)

pub dedup-Distinct : (batch : List Row) → Distinct (dedup batch)
unfolding dedup
dedup-Distinct batch = dedup_onto-Distinct batch [] tt

-- Whether some row has the key.
abbrev pub occurs : Row → List Row → Bool
occurs k [] = false
occurs k (row ∷ rows) = same_key row k || occurs k rows

occurs-dedup_into :
    (k row : Row) (rows : List Row)
    → occurs k (dedup_into row rows) ≡ (same_key row k || occurs k rows)
unfolding dedup_into
occurs-dedup_into k row [] = refl
occurs-dedup_into k row (e ∷ rest) = elim (Bool-cases (same_key e row)) [
  | inl c ↦
      rw
        (
          c,
          sym (same_key-other e (merge e row) k (same_key-merge e row c)),
          sym (same_key-other e row k c),
        )
        (ground arith)
  | inr c ↦ rw (c, occurs-dedup_into k row rest) (ground arith)
]

occurs-dedup_onto :
    (k : Row) (batch rows : List Row)
    → occurs k (dedup_onto batch rows) ≡ (occurs k batch || occurs k rows)
unfolding dedup_onto
occurs-dedup_onto k [] rows = refl
occurs-dedup_onto k (row ∷ batch) rows =
    rw (occurs-dedup_onto k batch (dedup_into row rows), occurs-dedup_into k row rows)
      (ground arith)

pub occurs-dedup : (k : Row) (batch : List Row) → occurs k (dedup batch) ≡ occurs k batch
unfolding dedup
occurs-dedup k batch = rw (occurs-dedup_onto k batch []) (ground arith)
