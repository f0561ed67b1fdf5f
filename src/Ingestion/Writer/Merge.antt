-- ===== src/Ingestion/Writer/Merge.antt =====
-- The batch that archive/python-legacy/backend/app/ingestion/writer.py hands to the database, against
-- the rows it was made of.
use ffllowwgreeks.Prelude.{
  ◌≡◌, refl, ap, ◌↔◌, inl, inr, Bool, true, false, Option, none, some, List, [], ◌∷◌, ◌++◌, ◌||◌,
  if◌then◌else◌, Text, same, same_iff, same_refl, ==_iff, arith, Option-cases,
}
use ffllowwgreeks.Prelude.Dict
use ffllowwgreeks.Prelude.Dict.{Dict}
use ffllowwgreeks.Ingestion.Writer.{
  Value, text, number, moment, same_value, Row, field, same_field, all_fields, primary_key,
  same_key, put_some, merge_names, merge,
}

same_value_iff : (v w : Value) → (same_value v w ≡ true) ↔ (v ≡ w)
unfolding same_value
same_value_iff (text s) (text t) = ground (arith, same_iff s t)
same_value_iff (text s) (number b n) = ground arith
same_value_iff (text s) (moment n) = ground arith
same_value_iff (number b m) (text t) = ground arith
same_value_iff (number true m) (number true n) = ground (arith, ==_iff m n)
same_value_iff (number true m) (number false n) = ground (arith, ==_iff m n)
same_value_iff (number false m) (number true n) = ground (arith, ==_iff m n)
same_value_iff (number false m) (number false n) = ground (arith, ==_iff m n)
same_value_iff (number b m) (moment n) = ground arith
same_value_iff (moment m) (text t) = ground arith
same_value_iff (moment m) (number b n) = ground arith
same_value_iff (moment m) (moment n) = ground (arith, ==_iff m n)

same_field_iff : (v w : Option Value) → (same_field v w ≡ true) ↔ (v ≡ w)
same_field_iff none none = ground arith
same_field_iff none (some v) = ground arith
same_field_iff (some v) none = ground arith
same_field_iff (some v) (some w) = ground (arith, same_value_iff v w)

abbrev agree : List Text → Row → Row → Bool
agree names r s = all_fields names (λ name. same_field (field name r) (field name s))

agree_self : (names : List Text) (r : Row) → agree names r r ≡ true
agree_self [] r = refl
agree_self (n ∷ names) r =
    ground (arith, agree_self names r, same_field_iff (field n r) (field n r))

agree_trans :
    (names : List Text) (r s t : Row)
    → agree names r s ≡ true
    → agree names s t ≡ true
    → agree names r t ≡ true
agree_trans [] r s t h g = refl
agree_trans (n ∷ names) r s t h g = ground (
  arith,
  h,
  g,
  agree_trans names r s t,
  same_field_iff (field n r) (field n s),
  same_field_iff (field n s) (field n t),
  same_field_iff (field n r) (field n t),
)

agree_sym : (names : List Text) (r s : Row) → agree names r s ≡ true → agree names s r ≡ true
agree_sym [] r s h = refl
agree_sym (n ∷ names) r s h = ground (
  arith,
  h,
  agree_sym names r s,
  same_field_iff (field n r) (field n s),
  same_field_iff (field n s) (field n r),
)

pub same_key_refl : (r : Row) → same_key r r ≡ true
unfolding same_key
same_key_refl r = agree_self primary_key r

pub same_key_sym : (r s : Row) → same_key r s ≡ true → same_key s r ≡ true
unfolding same_key
same_key_sym r s h = agree_sym primary_key r s h

pub same_key_trans : (r s t : Row) → same_key r s ≡ true → same_key s t ≡ true → same_key r t ≡ true
unfolding same_key
same_key_trans r s t h g = agree_trans primary_key r s t h g

abbrev pub or_else : Option Value → Option Value → Option Value
or_else (some v) w = some v
or_else none w = w

field-put_some :
    (n k : Text) (v : Option Value) (e : Row)
    → field n (put_some k v e) ≡ (if same k n then or_else v (field n e) else field n e)
unfolding field
field-put_some n k none e = ground arith
field-put_some n k (some v) e = ground (arith, Dict.get-put e k n (some v))

abbrev pub mem : Text → List Text → Bool
mem n [] = false
mem n (k ∷ ks) = same k n || mem n ks

field-merge_names :
    (n : Text) (names : List Text) (row e : Row)
    → field n (merge_names names row e)
      ≡ (if mem n names then or_else (field n row) (field n e) else field n e)
unfolding merge_names
field-merge_names n [] row e = refl
field-merge_names n (k ∷ names) row e = ground (
  arith,
  field-put_some n k (field k row) (merge_names names row e),
  field-merge_names n names row e,
  λ (h : same k n ≡ true). ap (λ x. field x row) ((same_iff k n).0 h),
)

mem-split : (n : Text) (before after : List Text) → mem n (before ++ (n ∷ after)) ≡ true
mem-split n [] after = ground (arith, same_refl n)
mem-split n (k ∷ before) after = ground (arith, mem-split n before after)

mem-keys : (n : Text) (row : Row) → mem n (Dict.keys row) ≡ false → field n row ≡ none
unfolding field
mem-keys n row h = elim (Option-cases (Dict.get row n)) [
  | inl gone ↦ rw (gone) refl
  | inr (v, found) ↦
      let split = Dict.keys-split row n v found in
      absurd (ground (arith, h, ap (mem n) split.1.1, mem-split n split.0 split.1.0))
]

-- A merge takes the new row's value, if there is one.
pub field-merge :
    (n : Text) (e row : Row) → field n (merge e row) ≡ or_else (field n row) (field n e)
unfolding merge
field-merge n e row = ground (arith, field-merge_names n (Dict.keys row) row e, mem-keys n row)

-- The first row with the key of `k`, and a field of it.
unfoldable pub find_row : Row → List Row → Option Row
find_row k [] = none
find_row k (row ∷ rows) = if same_key row k then some row else find_row k rows

unfoldable pub value : Text → Row → List Row → Option Value
unfolding find_row
value n k rows = elim (find_row k rows) [ none ↦ none | some row ↦ field n row ]

-- The last value of a field, of those that are there, in the rows with the key of `k`.
unfoldable pub latest : Text → Row → List Row → Option Value
latest n k [] = none
latest n k (row ∷ rows) = or_else (latest n k rows) (if same_key row k then field n row else none)

same_field-agree :
    (names : List Text) (n : Text) (r s : Row)
    → mem n names ≡ true
    → agree names r s ≡ true
    → field n r ≡ field n s
same_field-agree [] n r s m h = absurd (ground arith)
same_field-agree (k ∷ names) n r s m h = ground (
  arith,
  h,
  m,
  same_field-agree names n r s,
  same_field_iff (field k r) (field k s),
  λ (e : same k n ≡ true). ap (λ x. field x r) ((same_iff k n).0 e),
  λ (e : same k n ≡ true). ap (λ x. field x s) ((same_iff k n).0 e),
)

-- Rows whose fields of some names are the same agree on them.
agree-fields :
    (names : List Text) (r s : Row)
    → ((n : Text) → mem n names ≡ true → field n r ≡ field n s)
    → agree names r s ≡ true
agree-fields [] r s h = refl
agree-fields (k ∷ names) r s h = ground (
  arith,
  h k (ground (arith, same_refl k)),
  agree-fields names r s (λ n m. h n (ground (arith, m))),
  same_field_iff (field k r) (field k s),
)

pub same_key-fields :
    (r s : Row)
    → ((n : Text) → mem n primary_key ≡ true → field n r ≡ field n s)
    → same_key r s ≡ true
unfolding same_key
same_key-fields r s h = agree-fields primary_key r s h

-- A merge of rows with the same key keeps the key.
pub same_key-merge : (e row : Row) → same_key e row ≡ true → same_key e (merge e row) ≡ true
unfolding same_key
same_key-merge e row h =
    agree-fields primary_key e (merge e row)
      (λ n m. ground (arith, field-merge n e row, same_field-agree primary_key n e row m h))

-- One row has the key of another one's keys.
pub same_key-other : (r s k : Row) → same_key r s ≡ true → same_key r k ≡ same_key s k
same_key-other r s k h =
    ground (arith, h, same_key_trans r s k h, same_key_sym r s h, same_key_trans s r k)
