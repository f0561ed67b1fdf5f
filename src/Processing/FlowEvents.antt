-- ===== src/Processing/FlowEvents.antt =====
-- Sweeps, blocks and unusual activity on a tape of option prints,
-- archive/python-legacy/backend/app/processing/flow_events.py. Moments are in microseconds, prices,
-- volumes of the reference tables and thresholds in whole millionths; a quotient is its two parts. The
-- orders in which pandas sorts rows and groups are arguments.
pub mod Detect
pub mod Sweeps
pub mod Tape
pub mod Residual
use ffllowwgreeks.Prelude.{
  ℕ, zero, suc, ◌+◌, ◌*◌, Bool, true, false, not, ◌&&◌, ◌||◌, Option, none, some, List, [], ◌∷◌,
  ◌++◌, map, ltb, leb, ◌==◌, length, if◌then◌else◌, Text, codes, same, upper,
}

pub data Side : Type 0 where
  buy sell neither : Side

pub record Contract : Type 0 where
  pub symbol : Text
  pub expiration : Text
  pub strike : ℕ
  pub option_type : Text

-- A row of the input, where a field that is no number, or no moment, is none.
pub record Row : Type 0 where
  pub ts : Option ℕ
  pub contract : Contract
  pub price : Option ℕ
  pub size : Option ℕ
  pub side : Option Side
  pub exchange : Option Text
  pub seq : Option ℕ

-- A row of `work`.
pub record Print : Type 0 where
  pub ts : ℕ
  pub contract : Contract
  pub price : Option ℕ
  pub size : ℕ
  pub side : Side
  pub exchange : Option Text
  pub seq : Option ℕ

pub record FlowEventConfig : Type 0 where
  pub sweep_window_ms : ℕ
  pub sweep_min_legs : ℕ
  pub sweep_min_premium : ℕ
  pub block_min_size : ℕ
  pub uoa_volume_multiplier : ℕ
  pub uoa_min_absolute_volume : ℕ
  pub uoa_vol_oi_ratio : ℕ

pub data EventType : Type 0 where
  sweep block uoa : EventType

pub record Event : Type 0 where
  pub event_type : EventType
  pub ts : ℕ
  pub contract : Contract
  pub side : Side
  pub size : ℕ
  pub price : Option (ℕ × ℕ)
  pub legs : ℕ
  pub venues : List Text

abbrev pub default_config : FlowEventConfig
default_config = record {
  sweep_window_ms = 1_000;
  sweep_min_legs = 3;
  sweep_min_premium = 50_000 * 1_000_000;
  block_min_size = 100;
  uoa_volume_multiplier = 5_000_000;
  uoa_min_absolute_volume = 5_000;
  uoa_vol_oi_ratio = 2_000_000;
}

abbrev pub or_zero : Option ℕ → ℕ
or_zero none = 0
or_zero (some n) = n

abbrev pub or_neither : Option Side → Side
or_neither none = neither
or_neither (some s) = s

-- The rows with a moment, with their sizes and sides filled in.
unfoldable pub clean : List Row → List Print
clean [] = []
clean (r ∷ rows) =
    let rest = clean rows in
    elim r.ts [
      | none ↦ rest
      | some t ↦
          record {
            ts = t;
            contract = r.contract;
            price = r.price;
            size = or_zero r.size;
            side = or_neither r.side;
            exchange = r.exchange;
            seq = r.seq;
          }
          ∷ rest
    ]

abbrev pub same_number : Option ℕ → Option ℕ → Bool
same_number none none = true
same_number none (some n) = false
same_number (some m) none = false
same_number (some m) (some n) = m == n

abbrev pub same_text : Option Text → Option Text → Bool
same_text none none = true
same_text none (some t) = false
same_text (some s) none = false
same_text (some s) (some t) = same s t

abbrev pub same_side : Side → Side → Bool
same_side buy buy = true
same_side sell sell = true
same_side neither neither = true
same_side s t = false

unfoldable pub same_contract : Contract → Contract → Bool
same_contract c d =
    same c.symbol d.symbol
    && same c.expiration d.expiration
    && (c.strike == d.strike)
    && same c.option_type d.option_type

-- Equality on the columns `dedup_cols`; a column that the input lacks is none throughout.
unfoldable pub same_print : Print → Print → Bool
unfolding same_contract
same_print p q =
    (p.ts == q.ts)
    && same_contract p.contract q.contract
    && same_number p.price q.price
    && (p.size == q.size)
    && same_side p.side q.side
    && same_text p.exchange q.exchange
    && same_number p.seq q.seq

abbrev pub seen : Print → List Print → Bool
seen p [] = false
seen p (q ∷ qs) = same_print q p || seen p qs

-- drop_duplicates: a row goes if one of the rows before it is the same.
unfoldable pub drop_seen : List Print → List Print → List Print
drop_seen before [] = []
drop_seen before (p ∷ ps) =
    let rest = drop_seen (p ∷ before) ps in if seen p before then rest else p ∷ rest

unfoldable pub drop_duplicates : List Print → List Print
unfolding drop_seen
drop_duplicates ps = drop_seen [] ps

abbrev pub any_contract : Contract → List Contract → Bool
any_contract c [] = false
any_contract c (d ∷ ds) = same_contract d c || any_contract c ds

-- The contracts, by their first rows, and the rows of one.
unfoldable pub contracts_of : List Contract → List Print → List Contract
contracts_of before [] = []
contracts_of before (p ∷ ps) =
    let rest = contracts_of (p.contract ∷ before) ps in
    if any_contract p.contract before then rest else p.contract ∷ rest

unfoldable pub rows_of : Contract → List Print → List Print
rows_of c [] = []
rows_of c (p ∷ ps) =
    let rest = rows_of c ps in if same_contract p.contract c then p ∷ rest else rest
