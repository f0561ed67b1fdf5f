-- ===== src/Processing/Walls.antt =====
-- The strikes with the most weight, archive/python-legacy/backend/app/processing/walls.py. Strikes and
-- weights are in whole millionths and not negative; a field that is no finite number, and one whose
-- column is missing, is none. How pandas sorts the strikes is an argument.
pub mod Top
use ffllowwgreeks.Prelude.{
  ℕ, zero, suc, ◌+◌, ◌*◌, Bool, true, false, not, ◌&&◌, Option, none, some, List, [], ◌∷◌, take,
  ltb, ◌==◌, if◌then◌else◌, Text, codes, same, upper,
}

pub record Row : Type 0 where
  pub strike : Option ℕ
  pub option_type : Text
  pub oi : Option ℕ
  pub volume : Option ℕ
  pub bid : Option ℕ
  pub ask : Option ℕ

-- `weight_source`
pub data Source : Type 0 where
  by_column volume_fallback premium_fallback uniform_fallback : Source

-- A strike with its total weight.
abbrev pub Wall : Type 0
Wall = ℕ × ℕ

pub record Walls : Type 0 where
  pub call_wall : List Wall
  pub put_wall : List Wall
  pub weight_source : Source

pub record WallsSummary : Type 0 where
  pub by_oi : Option Walls
  pub by_volume : Option Walls

-- `_coerce_numeric_col`
abbrev pub coerce : Option ℕ → ℕ
coerce none = 0
coerce (some n) = n

abbrev pub oi_of : Row → ℕ
oi_of r = coerce r.oi

abbrev pub volume_of : Row → ℕ
volume_of r = coerce r.volume

abbrev pub premium_of : Row → ℕ
premium_of r = (coerce r.bid + coerce r.ask) * 100

abbrev pub uniform : Row → ℕ
uniform r = 1_000_000

unfoldable pub sum_of : (Row → ℕ) → List Row → ℕ
sum_of weight [] = 0
sum_of weight (r ∷ rows) = weight r + sum_of weight rows

abbrev pub premium_or_uniform : (Row → ℕ) → List Row → (Row → ℕ) × Source
premium_or_uniform primary [] = (primary, by_column)
premium_or_uniform primary (r ∷ rows) =
    if ltb 0 (sum_of premium_of (r ∷ rows))
    then (premium_of, premium_fallback)
    else (uniform, uniform_fallback)

-- `is_volume` is whether the caller asked for the volume.
unfoldable pub resolve_fallback_weight : Bool → (Row → ℕ) → List Row → (Row → ℕ) × Source
unfolding sum_of
resolve_fallback_weight is_volume primary rows =
    if ltb 0 (sum_of primary rows)
    then (primary, by_column)
    else if not is_volume && ltb 0 (sum_of volume_of rows)
    then (volume_of, volume_fallback)
    else premium_or_uniform primary rows

-- The strikes of one type, each with the sum of its weights.
abbrev pub is_at : Text → ℕ → Row → Bool
is_at kind k r = elim r.strike [
  | none ↦ false
  | some s ↦ (s == k) && same (upper r.option_type) kind
]

unfoldable pub total_at : (Row → ℕ) → Text → ℕ → List Row → ℕ
total_at weight kind k [] = 0
total_at weight kind k (r ∷ rows) =
    let rest = total_at weight kind k rows in if is_at kind k r then weight r + rest else rest

unfoldable pub strikes_of : Text → List Row → List ℕ
strikes_of kind [] = []
strikes_of kind (r ∷ rows) =
    let rest = strikes_of kind rows in
    elim r.strike [
      | none ↦ rest
      | some s ↦ if same (upper r.option_type) kind then s ∷ rest else rest
    ]

abbrev pub has : ℕ → List ℕ → Bool
has k [] = false
has k (s ∷ ss) = let rest = has k ss in if s == k then true else rest

unfoldable pub grouped_by : (ℕ → ℕ) → List ℕ → List Wall
grouped_by total [] = []
grouped_by total (k ∷ ks) =
    let rest = grouped_by total ks in if has k ks then rest else (k, total k) ∷ rest

unfoldable pub grouped : (Row → ℕ) → Text → List Row → List Wall
grouped weight kind rows = grouped_by (λ k. total_at weight kind k rows) (strikes_of kind rows)

unfoldable pub positive : List Wall → List Wall
positive [] = []
positive (w ∷ ws) = let rest = positive ws in if ltb 0 w.1 then w ∷ rest else rest

module _ (sort_values : List Wall → List Wall) where
  unfoldable pub top_strikes : (Row → ℕ) → Text → ℕ → List Row → List Wall
  top_strikes weight kind top_n rows =
      take top_n (positive (sort_values (grouped weight kind rows)))

  abbrev pub walls_by : (Row → ℕ) × Source → ℕ → List Row → Walls
  walls_by chosen top_n rows = record {
    call_wall = top_strikes chosen.0 (codes "C") top_n rows;
    put_wall = top_strikes chosen.0 (codes "P") top_n rows;
    weight_source = chosen.1;
  }

  -- `has_types` is whether there is a column of option types.
  unfoldable pub compute_walls : Bool → ℕ → Bool → List Row → WallsSummary
  unfolding resolve_fallback_weight top_strikes
  compute_walls has_types top_n enable_fallback [] = record { by_oi = none; by_volume = none }
  compute_walls has_types top_n enable_fallback (r ∷ rows) =
      let by_oi =
        if enable_fallback
        then resolve_fallback_weight false oi_of (r ∷ rows)
        else (oi_of, by_column) in
      let by_volume =
        if enable_fallback
        then resolve_fallback_weight true volume_of (r ∷ rows)
        else (volume_of, by_column) in
      if has_types
      then record {
        by_oi = some (walls_by by_oi top_n (r ∷ rows));
        by_volume = some (walls_by by_volume top_n (r ∷ rows));
      }
      else record { by_oi = none; by_volume = none }
