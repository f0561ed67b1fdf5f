-- ===== src/Ingestion/Writer.antt =====
-- The buffered writer of option rows, archive/python-legacy/backend/app/ingestion/writer.py. Its two
-- locks guard sections that do not suspend, but for a flush: that one is a beginning, which swaps the
-- buffer, and an end, with the outcome of the database.
pub mod Steps
pub mod Merge
pub mod Table
pub mod Upsert
pub mod Backpressure
pub mod Accounting
pub mod Bulk
use ffllowwgreeks.Prelude.{
  ℕ, ◌+◌, Bool, true, false, not, ◌&&◌, ◌||◌, Option, none, some, List, [], ◌∷◌, ◌++◌, map, leb,
  ◌==◌, length, if◌then◌else◌, Text, codes, same,
}
use ffllowwgreeks.Prelude.Dict
use ffllowwgreeks.Prelude.Dict.{Dict}

-- What a field holds: a text, a number by sign and millionths, or a moment.
pub data Value : Type 0 where
  text : Text → Value
  number : Bool → ℕ → Value
  moment : ℕ → Value

abbrev pub same_sign : Bool → Bool → Bool
same_sign true b = b
same_sign false b = not b

unfoldable pub same_value : Value → Value → Bool
same_value (text s) (text t) = same s t
same_value (text s) (number b n) = false
same_value (text s) (moment n) = false
same_value (number b m) (text t) = false
same_value (number b m) (number c n) = same_sign b c && (m == n)
same_value (number b m) (moment n) = false
same_value (moment m) (text t) = false
same_value (moment m) (number b n) = false
same_value (moment m) (moment n) = m == n

-- A row maps names of columns to values, or to none.
abbrev pub Row : Type 0
Row = Dict (Option Value)

abbrev pub join : Option (Option Value) → Option Value
join none = none
join (some v) = v

-- row.get(name)
unfoldable pub field : Text → Row → Option Value
field name row = join (Dict.get row name)

abbrev pub same_field : Option Value → Option Value → Bool
same_field none none = true
same_field none (some v) = false
same_field (some v) none = false
same_field (some v) (some w) = same_value v w

abbrev pub all_fields : List Text → (Text → Bool) → Bool
all_fields [] test = true
all_fields (name ∷ names) test = test name && all_fields names test

abbrev pub primary_key : List Text
primary_key =
    codes "ts" ∷ codes "symbol" ∷ codes "expiration" ∷ codes "strike" ∷ codes "option_type" ∷ []

-- Whether two rows have the same tuple of keys.
unfoldable pub same_key : Row → Row → Bool
unfolding field same_value
same_key r s = all_fields primary_key (λ name. same_field (field name r) (field name s))

abbrev pub put_some : Text → Option Value → Row → Row
put_some name none row = row
put_some name (some v) row = Dict.put row name (some v)

-- The loop over `row.items()`, by names.
unfoldable pub merge_names : List Text → Row → Row → Row
unfolding field
merge_names [] row existing = existing
merge_names (name ∷ names) row existing =
    put_some name (field name row) (merge_names names row existing)

-- The new row's values that are not none, over the row that is there.
unfoldable pub merge : Row → Row → Row
unfolding merge_names
merge existing row = merge_names (Dict.keys row) row existing

-- `deduped`, in the order of the keys' first rows.
unfoldable pub dedup_into : Row → List Row → List Row
dedup_into row [] = row ∷ []
dedup_into row (existing ∷ rest) =
    let others = dedup_into row rest in
    if same_key existing row then merge existing row ∷ rest else existing ∷ others

unfoldable pub dedup_onto : List Row → List Row → List Row
unfolding dedup_into
dedup_onto [] deduped = deduped
dedup_onto (row ∷ rows) deduped = dedup_onto rows (dedup_into row deduped)

unfoldable pub dedup : List Row → List Row
unfolding dedup_onto
dedup batch = dedup_onto batch []

-- The columns that a conflict updates.
abbrev pub updated : List Text
updated =
    codes "oi"
    ∷ codes "volume"
    ∷ codes "iv"
    ∷ codes "delta"
    ∷ codes "gamma"
    ∷ codes "last_price"
    ∷ codes "bid"
    ∷ codes "ask"
    ∷ codes "underlying_price"
    ∷ []

unfoldable pub set_columns : List Text → Row → Row → Row
unfolding field
set_columns [] excluded existing = existing
set_columns (name ∷ names) excluded existing =
    Dict.put (set_columns names excluded existing) name (field name excluded)

-- INSERT ... ON CONFLICT (the primary key) DO UPDATE, for one row.
unfoldable pub upsert : Row → List Row → List Row
upsert row [] = row ∷ []
upsert row (existing ∷ rest) =
    let others = upsert row rest in
    if same_key existing row then set_columns updated row existing ∷ rest else existing ∷ others

unfoldable pub upsert_all : List Row → List Row → List Row
unfolding upsert
upsert_all [] table = table
upsert_all (row ∷ rows) table = upsert_all rows (upsert row table)
