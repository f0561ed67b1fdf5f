-- ===== src/Processing/LeeReady.antt =====
-- archive/python-legacy/backend/app/processing/lee_ready.py. Prices and quotes are in nanodollars,
-- so the source's eps of 1e-9 is one unit, and a comparison with the midpoint is made on doubled
-- values; times are in microseconds. pandas' sort is an argument.
pub mod OnePass
pub mod TickRule
use ffllowwgreeks.Prelude.{
  ℕ, zero, suc, ◌+◌, ◌*◌, Bool, true, false, ◌&&◌, Option, none, some, List, [], ◌∷◌, map, ltb,
  ◌==◌, if◌then◌else◌, ℤ, pos, negsuc,
}

pub data Price : Type 0 where
  nan neg_inf pos_inf : Price
  num : ℕ → Price

pub data Side : Type 0 where
  buy sell unclassified : Side

-- A row of the tape; `none` is a time or a size that does not parse.
pub record Trade : Type 0 where
  pub ts : Option ℕ
  pub price : Price
  pub bid : Price
  pub ask : Price
  pub size : Option ℕ

-- The tape, with the columns that it may lack.
pub record Tape : Type 0 where
  pub has_ts : Bool
  pub has_size : Bool
  pub trades : List Trade

pub record Classified : Type 0 where
  pub trade : Trade
  pub doubled_mid : Price
  pub side : Side
  pub signed_qty : ℤ

abbrev pub microseconds : ℕ
microseconds = 1_000_000

-- The quote rule for a price and the sum of the two quotes, which is twice the midpoint.
above_or_below : ℕ → Price → Side
above_or_below sum nan = unclassified
above_or_below sum pos_inf = buy
above_or_below sum neg_inf = sell
above_or_below sum (num p) =
    if ltb (sum + 2) (2 * p) then buy else if ltb (2 * p + 2) sum then sell else unclassified

-- `quote_eligible` wants two finite quotes with a spread above eps.
unfoldable pub quote_side : Price → Price → Price → Side
unfolding above_or_below
quote_side (num b) (num a) p = if ltb (b + 1) a then above_or_below (b + a) p else unclassified
quote_side (num b) _ p = unclassified
quote_side _ a p = unclassified

unfoldable pub quote_of : Trade → Side
quote_of t = quote_side t.bid t.ask t.price

-- `not prices.diff().ne(0)`: the difference to the row above is the number 0.
unfoldable pub is_dup : Price → Price → Bool
is_dup (num p) (num q) = p == q
is_dup (num p) _ = false
is_dup _ q = false

-- `prices.where(not_dup)`, given the price of the row above (NaN above the first).
unfoldable pub mask_dups : Price → List Price → List Price
unfolding is_dup
mask_dups above [] = []
mask_dups above (p ∷ ps) = (if is_dup above p then nan else p) ∷ mask_dups p ps

-- `.ffill()`, given the last value so far.
unfoldable pub ffill : Price → List Price → List Price
ffill last [] = []
ffill last (nan ∷ ps) = last ∷ ffill last ps
ffill last (p ∷ ps) = p ∷ ffill p ps

-- `.shift(1)`, given the value that moves in.
unfoldable pub shift : Price → List Price → List Price
shift first [] = []
shift first (p ∷ ps) = first ∷ shift p ps

unfoldable pub last_diff_price : List Price → List Price
unfolding mask_dups ffill shift
last_diff_price prices = shift nan (ffill nan (mask_dups nan prices))

-- The gap to the row above is known and exceeds the threshold.
unfoldable pub halted : ℕ → Option ℕ → Option ℕ → Bool
halted threshold (some before) (some now) = ltb (before + threshold * microseconds) now
halted threshold (some before) none = false
halted threshold none now = false

-- The references with those behind a halt wiped.
unfoldable pub break_halts : ℕ → Option ℕ → List Trade → List Price → List Price
unfolding halted
break_halts threshold above [] refs = []
break_halts threshold above (t ∷ ts) [] = []
break_halts threshold above (t ∷ ts) (r ∷ refs) =
    (if halted threshold above t.ts then nan else r) ∷ break_halts threshold t.ts ts refs

unfoldable pub tick_side : Price → Price → Side
tick_side (num p) (num r) = if ltb r p then buy else if ltb p r then sell else unclassified
tick_side (num p) _ = unclassified
tick_side _ r = unclassified

abbrev pub or_else : Side → Side → Side
or_else unclassified s = s
or_else buy s = buy
or_else sell s = sell

unfoldable pub final_sides : List Trade → List Price → List Side
unfolding quote_of quote_side tick_side
final_sides [] refs = []
final_sides (t ∷ ts) [] = []
final_sides (t ∷ ts) (r ∷ refs) = or_else (quote_of t) (tick_side t.price r) ∷ final_sides ts refs

abbrev pub is_classified : Side → Bool
is_classified unclassified = false
is_classified _ = true

abbrev pub price_of : Trade → Price
price_of t = t.price

-- `not (side == 0).any()`
unfoldable pub all_classified : List Side → Bool
all_classified [] = true
all_classified (s ∷ ss) = if is_classified s then all_classified ss else false

unfoldable pub references : Bool → ℕ → List Trade → List Price
unfolding last_diff_price break_halts
references true threshold ts = break_halts threshold none ts (last_diff_price (map price_of ts))
references false threshold ts = last_diff_price (map price_of ts)

-- The column `side`; the tick rule runs only if the quote rule leaves a row open.
unfoldable pub sides : Bool → ℕ → List Trade → List Side
unfolding all_classified references final_sides quote_of quote_side
sides has_ts threshold ts =
    let quoted = map quote_of ts in
    if all_classified quoted then quoted else final_sides ts (references has_ts threshold ts)

signed : Side → ℕ → ℤ
signed buy n = pos n
signed unclassified n = pos 0
signed sell zero = pos 0
signed sell (suc n) = negsuc n

size_of : Bool → Option ℕ → ℕ
size_of false size = 1
size_of true none = 0
size_of true (some n) = n

-- `bid + ask` in floating point; the source's column `mid` is half of it.
add_quotes : Price → Price → Price
add_quotes (num b) (num a) = num (b + a)
add_quotes (num b) a = a
add_quotes nan a = nan
add_quotes pos_inf nan = nan
add_quotes pos_inf neg_inf = nan
add_quotes pos_inf a = pos_inf
add_quotes neg_inf nan = nan
add_quotes neg_inf pos_inf = nan
add_quotes neg_inf a = neg_inf

with_sides : Bool → List Trade → List Side → List Classified
unfolding signed size_of add_quotes
with_sides has_size [] ss = []
with_sides has_size (t ∷ ts) [] = []
with_sides has_size (t ∷ ts) (s ∷ ss) =
    record {
      trade = t;
      doubled_mid = add_quotes t.bid t.ask;
      side = s;
      signed_qty = signed s (size_of has_size t.size);
    }
    ∷ with_sides has_size ts ss

-- `order` is `sort_values("ts")`, of pandas.
unfoldable pub classify_lee_ready : (List Trade → List Trade) → Bool → ℕ → Tape → List Classified
unfolding sides with_sides
classify_lee_ready order sort threshold df =
    let work = if sort && df.has_ts then order df.trades else df.trades in
    with_sides df.has_size work (sides df.has_ts threshold work)
