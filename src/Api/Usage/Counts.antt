-- ===== src/Api/Usage/Counts.antt =====
-- What a flush of archive/python-legacy/backend/app/api/deps.py takes from the buffer and adds to the
-- table, key by key.
use ffllowwgreeks.Prelude.{
  ℕ, zero, suc, ◌+◌, ◌*◌, ◌≤◌, ◌≡◌, refl, ap, ◌∙◌, Bool, true, false, List, [], ◌∷◌, if◌then◌else◌,
  if-cases, Text, same, same_iff, arith, Bool-cases, inl, inr,
}
use ffllowwgreeks.Prelude.Dict
use ffllowwgreeks.Prelude.Dict.{
  Dict, occurs, occurs-keys-put, get-unless_occurs, occurs-keys-empty, get_default-put, get-empty,
}
use ffllowwgreeks.Api.ApiKeys.{ApiKey, Server, update_rows, record_api_key_usage}
use ffllowwgreeks.Api.Usage.{Delta, deltas_of, flush_begin, add_uses, update_all}

-- Whether a key has a row, and the uses its first row counts.
unfoldable pub has_row : Text → List ApiKey → Bool
has_row k [] = false
has_row k (row ∷ rows) = if same row.id k then true else has_row k rows

unfoldable pub uses : Text → List ApiKey → ℕ
uses k [] = 0
uses k (row ∷ rows) = if same row.id k then row.usage_count else uses k rows

-- The uses in the buffer, and in what a flush has taken.
abbrev pub buffered : Text → Server → ℕ
buffered k s = Dict.get_default s.usage_delta k 0

unfoldable pub taken_of : Text → List Delta → ℕ
taken_of k [] = 0
taken_of k (d ∷ ds) = (if same d.key_id k then d.delta else 0) + taken_of k ds

-- The uses of the updates that fail.
unfoldable pub failed_of : Text → (Text → Bool) → List Delta → ℕ
failed_of k succeeds [] = 0
failed_of k succeeds (d ∷ ds) =
    (if succeeds d.key_id then 0 else if same d.key_id k then d.delta else 0)
    + failed_of k succeeds ds

one_more : (n b t : ℕ) → t ≡ n * b → b + t ≡ (1 + n) * b
one_more n b t h = grind arith

none_more : (n b t : ℕ) → t ≡ n * b → 0 + t ≡ (0 + n) * b
none_more n b t h = grind arith

taken_of-deltas_of :
    (k : Text) (ids : List Text) (s : Server)
    → taken_of k (deltas_of ids s) ≡ occurs k ids * buffered k s
unfolding taken_of deltas_of occurs
taken_of-deltas_of k [] s = omega arith
taken_of-deltas_of k (i ∷ ids) s = elim (Bool-cases (same i k)) [
  | inl e ↦
      rw (e, ap (λ j. buffered j s) ((same_iff i k).0 e))
        (one_more (occurs k ids) (buffered k s) (taken_of k (deltas_of ids s))
          (taken_of-deltas_of k ids s))
  | inr e ↦ rw e (
      none_more (occurs k ids) (buffered k s) (taken_of k (deltas_of ids s))
        (taken_of-deltas_of k ids s))
]

has_row-update_rows :
    (k i : Text) (now : ℕ) (d : Delta) (rows : List ApiKey)
    → has_row k (update_rows i (add_uses now d) rows) ≡ has_row k rows
unfolding has_row update_rows
has_row-update_rows k i now d [] = refl
has_row-update_rows k i now d (row ∷ rows) = ground (arith, has_row-update_rows k i now d rows)

uses-update_rows :
    (k i : Text) (now : ℕ) (d : Delta) (rows : List ApiKey)
    → has_row k rows ≡ true
    → uses k (update_rows i (add_uses now d) rows) ≡ uses k rows + (if same i k then d.delta else 0)
unfolding uses has_row update_rows
uses-update_rows k i now d [] h = absurd (ground arith)
uses-update_rows k i now d (row ∷ rows) h =
    ground
      (arith, uses-update_rows k i now d rows, same_iff row.id k, same_iff row.id i, same_iff i k)

module _ (k : Text) (now : ℕ) (succeeds : Text → Bool) where
  pub has_row-update_all :
      (ds : List Delta) (rows : List ApiKey)
      → has_row k (update_all now succeeds ds rows) ≡ has_row k rows
  unfolding update_all
  has_row-update_all [] rows = refl
  has_row-update_all (d ∷ ds) rows =
      has_row-update_all ds _
      ∙ if-cases (λ rs. has_row k rs ≡ has_row k rows) (succeeds d.key_id) _ rows
          (λ e. has_row-update_rows k d.key_id now d rows) (λ e. refl)

  pub uses-update_all :
      (ds : List Delta) (rows : List ApiKey)
      → has_row k rows ≡ true
      → uses k (update_all now succeeds ds rows) + failed_of k succeeds ds
        ≡ uses k rows + taken_of k ds
  unfolding update_all failed_of taken_of
  uses-update_all [] rows h = refl
  uses-update_all (d ∷ ds) rows h = elim (Bool-cases (succeeds d.key_id)) [
    | inl e ↦
        let rows' = update_rows d.key_id (add_uses now d) rows in
        rw e (
          omega (
            arith,
            uses-update_all ds rows' (has_row-update_rows k d.key_id now d rows ∙ h),
            uses-update_rows k d.key_id now d rows h,
          ))
    | inr e ↦ rw e (omega (arith, uses-update_all ds rows h))
  ]

pub buffered-record :
    (k i : Text) (now : ℕ) (s : Server)
    → buffered k (record_api_key_usage now i s) ≡ buffered k s + (if same i k then 1 else 0)
unfolding record_api_key_usage
buffered-record k i now s =
    get_default-put s.usage_delta i k (buffered i s + 1) 0
    ∙ if-cases (λ n. n ≡ buffered k s + (if same i k then 1 else 0)) (same i k) (buffered i s + 1)
        (buffered k s) (λ e. rw (e, ap (λ j. buffered j s) ((same_iff i k).0 e)))
        (λ e. rw e (omega arith))

times_once : (n b : ℕ) → n ≤ 1 → (n ≡ 0 → b ≡ 0) → n * b ≡ b
times_once zero b h e = omega (arith, e refl)
times_once (suc zero) b h e = omega arith
times_once (suc (suc n)) b h e = absurd (omega arith)

-- A flush takes all that is in the buffer.
pub taken_of-flush_begin :
    (k : Text) (s : Server)
    → occurs k (Dict.keys s.usage_delta) ≤ 1
    → taken_of k (flush_begin s).taken ≡ buffered k s
unfolding flush_begin
taken_of-flush_begin k s h =
    taken_of-deltas_of k (Dict.keys s.usage_delta) s
    ∙ times_once (occurs k (Dict.keys s.usage_delta)) (buffered k s) h
        (λ e. ground (arith, get-unless_occurs s.usage_delta k e))
