-- ===== src/Processing/MaxPain.antt =====
-- archive/python-legacy/backend/app/processing/max_pain.py. Strikes are in thousandths of a dollar
-- and open interest in contracts, both natural numbers; expirations are days. The model's pains are
-- in thousandths of a dollar too.
pub mod Loss
pub mod Strikes
pub mod Least
pub mod Optimal
pub mod Expiries
pub mod Entries
use ffllowwgreeks.Prelude.{
  ℕ, zero, suc, ◌+◌, ◌-◌, ◌*◌, Bool, true, false, not, ◌&&◌, ◌||◌, Option, none, some, List, [],
  ◌∷◌, map, ltb, leb, ◌==◌, if◌then◌else◌, Text, codes, upper, same, take,
}

abbrev pub contract_multiplier : ℕ
contract_multiplier = 100

-- A cell of the `expiration` column: NA, a value that does not parse, or a day.
pub data Expiration : Type 0 where
  missing unparseable : Expiration
  day : ℕ → Expiration

-- A row of the chain; `none` is a cell that is not a finite number.
pub record Row : Type 0 where
  pub strike : Option ℕ
  pub option_type : Text
  pub oi : Option ℕ
  pub expiration : Expiration

-- The data frame, with the columns that it may lack.
pub record Chain : Type 0 where
  pub has_strike : Bool
  pub has_option_type : Bool
  pub has_oi : Bool
  pub has_expiration : Bool
  pub rows : List Row

-- A row after `_clean`.
pub record Contract : Type 0 where
  pub strike : ℕ
  pub is_call : Bool
  pub oi : ℕ
  pub expiration : Expiration

unfoldable pub clean_oi : Bool → Option ℕ → ℕ
clean_oi false oi = 0
clean_oi true none = 0
clean_oi true (some n) = n

unfoldable pub clean_rows : Bool → List Row → List Contract
unfolding clean_oi
clean_rows has_oi [] = []
clean_rows has_oi (r ∷ rows) = elim r.strike [
  | none ↦ clean_rows has_oi rows
  | some strike ↦
      record {
        strike = strike;
        is_call = same (upper r.option_type) (codes "C");
        oi = clean_oi has_oi r.oi;
        expiration = r.expiration;
      }
      ∷ clean_rows has_oi rows
]

unfoldable pub clean : Chain → List Contract
unfolding clean_rows
clean df = if df.has_strike && df.has_option_type then clean_rows df.has_oi df.rows else []

-- `np.sort(unique)`: a strike is put in its place in an ascending list, once.
unfoldable pub insert_unique : ℕ → List ℕ → List ℕ
insert_unique k [] = k ∷ []
insert_unique k (s ∷ ss) =
    if ltb k s then k ∷ s ∷ ss else if k == s then s ∷ ss else s ∷ insert_unique k ss

unfoldable pub sorted_unique : List ℕ → List ℕ
unfolding insert_unique
sorted_unique [] = []
sorted_unique (k ∷ ks) = insert_unique k (sorted_unique ks)

abbrev strike_of : Contract → ℕ
strike_of c = c.strike

-- `np.maximum(S - cs, 0) @ co`, over the calls of the rows.
unfoldable pub call_loss : List Contract → ℕ → ℕ
call_loss [] price = 0
call_loss (c ∷ cs) price = (if c.is_call then (price - c.strike) * c.oi else 0) + call_loss cs price

-- `np.maximum(ps - S, 0) @ po`, over the rows that are no calls.
unfoldable pub put_loss : List Contract → ℕ → ℕ
put_loss [] price = 0
put_loss (c ∷ cs) price = (if c.is_call then 0 else (c.strike - price) * c.oi) + put_loss cs price

unfoldable pub pain_at : List Contract → ℕ → ℕ
unfolding call_loss put_loss
pain_at sub price = (call_loss sub price + put_loss sub price) * contract_multiplier

-- `np.argmin` over a curve that is not empty: the first point of least pain.
unfoldable pub least : ℕ × ℕ → List (ℕ × ℕ) → ℕ × ℕ
least best [] = best
least best (p ∷ ps) = least (if ltb p.1 best.1 then p else best) ps

pub record Pain : Type 0 where
  pub strike : ℕ
  pub pain : ℕ
  pub curve : List (ℕ × ℕ)

pain_of_curve : List (ℕ × ℕ) → Option Pain
unfolding least
pain_of_curve [] = none
pain_of_curve (p ∷ ps) =
    some (record { strike = (least p ps).0; pain = (least p ps).1; curve = p ∷ ps })

unfoldable pub expiry_max_pain : List Contract → Option Pain
unfolding pain_of_curve
expiry_max_pain sub =
    pain_of_curve (map (λ s. (s, pain_at sub s)) (sorted_unique (map strike_of sub)))

-- `_expiry_max_pain` for one expiration; `none` as expiration stands for "all".
pub record ExpiryEntry : Type 0 where
  pub expiration : Option ℕ
  pub result : Option Pain

-- `aggregate` stands for the pair `aggregate_strike`, `aggregate_value`.
pub record MaxPainSummary : Type 0 where
  pub per_expiry : List ExpiryEntry
  pub aggregate : Option Pain

abbrev pub empty_summary : MaxPainSummary
empty_summary = record { per_expiry = []; aggregate = none }

-- `df["expiration"].isna().all()`
unfoldable pub all_missing : List Contract → Bool
all_missing [] = true
all_missing (c ∷ cs) = elim c.expiration [ Expiration.missing ↦ all_missing cs | _ ↦ false ]

unfoldable pub is_active : ℕ → Expiration → Bool
is_active today (day d) = leb today d
is_active today _ = false

-- `df.loc[active_mask]`
unfoldable pub active_rows : ℕ → List Contract → List Contract
unfolding is_active
active_rows today [] = []
active_rows today (c ∷ cs) =
    let rest = active_rows today cs in if is_active today c.expiration then c ∷ rest else rest

is_on : ℕ → Expiration → Bool
is_on d (day e) = e == d
is_on d _ = false

-- `df[parsed_all == d]`
unfoldable pub rows_on : ℕ → List Contract → List Contract
unfolding is_on
rows_on d [] = []
rows_on d (c ∷ cs) = let rest = rows_on d cs in if is_on d c.expiration then c ∷ rest else rest

one_of : List ℕ → Expiration → Bool
unfolding is_on
one_of [] e = false
one_of (d ∷ ds) e = is_on d e || one_of ds e

-- `df[parsed_all.isin(ds)]`
unfoldable pub rows_in : List ℕ → List Contract → List Contract
unfolding one_of
rows_in ds [] = []
rows_in ds (c ∷ cs) = let rest = rows_in ds cs in if one_of ds c.expiration then c ∷ rest else rest

unfoldable pub days_of : List Contract → List ℕ
days_of [] = []
days_of (c ∷ cs) = elim c.expiration [ day d ↦ d ∷ days_of cs | _ ↦ days_of cs ]

-- `expiries_sorted`
unfoldable pub expiries_of : ℕ → List Contract → List ℕ
unfolding active_rows days_of sorted_unique
expiries_of today cs = sorted_unique (days_of (active_rows today cs))

listed_if : Option ℕ → Option Pain → List ExpiryEntry
listed_if e none = []
listed_if e (some p) = record { expiration = e; result = some p } ∷ []

-- A single distribution, under the name of its expiration.
summary_of : Option ℕ → List Contract → MaxPainSummary
unfolding expiry_max_pain listed_if
summary_of e sub =
    let result = expiry_max_pain sub in
    record { per_expiry = listed_if e result; aggregate = result }

-- The first argument says whether `has_expiration`.
fold_summary : Bool → ℕ → List Contract → MaxPainSummary
unfolding summary_of active_rows
fold_summary true today df = summary_of none (active_rows today df)
fold_summary false today df = summary_of none df

default_summary : ℕ → ℕ → List Contract → MaxPainSummary
unfolding expiries_of rows_on rows_in expiry_max_pain
default_summary aggregate_n today df = record {
  per_expiry =
      map (λ d. record { expiration = some d; result = expiry_max_pain (rows_on d df) })
        (expiries_of today df);
  aggregate = expiry_max_pain (rows_in (take aggregate_n (expiries_of today df)) df);
}

-- The `expiry` argument: none given, one that is no timestamp, or a day.
pub data ExpiryArg : Type 0 where
  any_expiry bad_expiry : ExpiryArg
  on_day : ℕ → ExpiryArg

summary_from : Bool → ℕ → ExpiryArg → Bool → ℕ → List Contract → MaxPainSummary
unfolding summary_of fold_summary default_summary
summary_from has_expiration n (on_day d) fold_all today df =
    if has_expiration then summary_of (some d) (rows_on d df) else empty_summary
summary_from has_expiration n bad_expiry fold_all today df = empty_summary
summary_from has_expiration n any_expiry fold_all today df =
    if fold_all || not has_expiration
    then fold_summary has_expiration today df
    else default_summary n today df

compute_from : Bool → ℕ → ExpiryArg → Bool → ℕ → List Contract → MaxPainSummary
unfolding summary_from all_missing
compute_from column n expiry fold_all today [] = empty_summary
compute_from column n expiry fold_all today (c ∷ cs) =
    summary_from (column && not (all_missing (c ∷ cs))) n expiry fold_all today (c ∷ cs)

unfoldable pub compute_max_pain : ℕ → ExpiryArg → Bool → ℕ → Chain → MaxPainSummary
unfolding clean compute_from
compute_max_pain aggregate_n expiry fold_all today df =
    compute_from df.has_expiration aggregate_n expiry fold_all today (clean df)
