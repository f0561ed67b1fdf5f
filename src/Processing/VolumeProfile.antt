-- ===== src/Processing/VolumeProfile.antt =====
-- archive/python-legacy/backend/app/processing/volume_profile.py: a histogram of traded volume over
-- price bins. Prices and the bin size are whole numbers of one small unit, the share of the value
-- area is a percentage; the bin size is positive.
pub mod Volume
pub mod Coverage
use ffllowwgreeks.Prelude.{
  ℕ, zero, suc, ◌+◌, ◌-◌, ◌*◌, ◌/◌, ◌%◌, Bool, true, false, Option, none, some, List, [], ◌∷◌, ltb,
  leb, ◌==◌, if◌then◌else◌, length,
}

-- The sign of the `side` column.
pub data Side : Type 0 where
  buy sell neither : Side

-- A trade; `none` is a price or a size that is no number. A size that is not positive is 0 here.
pub record Trade : Type 0 where
  pub price : Option ℕ
  pub size : Option ℕ
  pub side : Side

pub record Bin : Type 0 where
  pub price : ℕ
  pub total : ℕ
  pub buy : ℕ
  pub sell : ℕ

-- `np.round`, half to even, of a quotient.
abbrev pub round_quotient : ℕ → ℕ → ℕ
round_quotient a b =
    let q = a / b in
    let r = 2 * (a % b) in
    if ltb r b then q else if ltb b r then q + 1 else if q % 2 == 0 then q else q + 1

abbrev bought : Side → ℕ → ℕ
bought Side.buy n = n
bought _ n = 0

abbrev sold : Side → ℕ → ℕ
sold Side.sell n = n
sold _ n = 0

-- A bin of one trade; `has_side` says whether the column exists.
unfoldable pub bin_of : Bool → ℕ → ℕ → ℕ → Side → Bin
bin_of has_side bin_size price size side = record {
  price = round_quotient price bin_size * bin_size;
  total = size;
  buy = if has_side then bought side size else 0;
  sell = if has_side then sold side size else 0;
}

unfoldable pub merge : Bin → Bin → Bin
merge b c = record b { total = b.total + c.total; buy = b.buy + c.buy; sell = b.sell + c.sell }

-- groupby("_bin").agg(sum).sort_values("price"): a bin is added in its place.
unfoldable pub add_bin : Bin → List Bin → List Bin
unfolding merge
add_bin b [] = b ∷ []
add_bin b (c ∷ bins) =
    let rest = add_bin b bins in
    if ltb b.price c.price
    then b ∷ c ∷ bins
    else if b.price == c.price
    then merge b c ∷ bins
    else c ∷ rest

-- The volume of a trade that `work` keeps, from its price and its size.
unfoldable pub kept_size : Option ℕ → Option ℕ → ℕ
kept_size none size = 0
kept_size (some p) none = 0
kept_size (some p) (some n) = n

unfoldable pub add_trade : Bool → ℕ → Option ℕ → Option ℕ → Side → List Bin → List Bin
unfolding bin_of add_bin
add_trade has_side bin_size none size side bins = bins
add_trade has_side bin_size (some p) none side bins = bins
add_trade has_side bin_size (some p) (some n) side bins =
    if n == 0 then bins else add_bin (bin_of has_side bin_size p n side) bins

unfoldable pub bins_of : Bool → ℕ → List Trade → List Bin
unfolding add_trade
bins_of has_side bin_size [] = []
bins_of has_side bin_size (t ∷ trades) =
    add_trade has_side bin_size t.price t.size t.side (bins_of has_side bin_size trades)

abbrev pub volume : List Bin → ℕ
volume [] = 0
volume (b ∷ bins) = b.total + volume bins

-- `idxmax`: the first bin of greatest volume, given the best so far and the index of the next.
unfoldable pub idxmax : ℕ → ℕ → ℕ → List Bin → ℕ
idxmax best best_total i [] = best
idxmax best best_total i (b ∷ bins) =
    if ltb best_total b.total
    then idxmax i b.total (suc i) bins
    else idxmax best best_total (suc i) bins

-- The state of the loop: the bounds, what they hold, and the bins below (nearest first) and above.
pub record Area : Type 0 where
  pub val : ℕ
  pub vah : ℕ
  pub accumulated : ℕ
  pub below : List Bin
  pub above : List Bin

abbrev pub take_above : Area → Bin → List Bin → Area
take_above a u us = record a { vah = u.price; accumulated = a.accumulated + u.total; above = us }

abbrev pub take_below : Area → Bin → List Bin → Area
take_below a l ls = record a { val = l.price; accumulated = a.accumulated + l.total; below = ls }

-- One round of the loop; a side without a bin counts as -1.
unfoldable pub widen : Area → List Bin → List Bin → Area
widen a [] [] = a
widen a [] (u ∷ us) = take_above a u us
widen a (l ∷ ls) [] = take_below a l ls
widen a (l ∷ ls) (u ∷ us) = if leb l.total u.total then take_above a u us else take_below a l ls

-- The loop, for as many rounds as the fuel; it stops by itself at the target.
unfoldable pub expand : ℕ → ℕ → Area → Area
unfolding widen
expand zero target a = a
expand (suc fuel) target a =
    let rest = expand fuel target (widen a a.below a.above) in
    if leb target (100 * a.accumulated) then a else rest

-- The point of control, with the bins below and above it.
unfoldable pub start_at : ℕ → List Bin → Bin → List Bin → Area
start_at zero below b above = record {
  val = b.price;
  vah = b.price;
  accumulated = b.total;
  below = below;
  above = above;
}
start_at (suc i) below b [] = record {
  val = b.price;
  vah = b.price;
  accumulated = b.total;
  below = below;
  above = [];
}
start_at (suc i) below b (c ∷ above) = start_at i (b ∷ below) c above

unfoldable pub value_area : ℕ → Bin → List Bin → Area
unfolding idxmax expand start_at
value_area percent b bins =
    expand (length bins) (percent * volume (b ∷ bins))
      (start_at (idxmax 0 b.total 1 bins) [] b bins)

pub record VolumeProfile : Type 0 where
  pub bin_size : ℕ
  pub poc : Option ℕ
  pub vah : Option ℕ
  pub val : Option ℕ
  pub total_volume : ℕ
  pub bins : List Bin

profile_of : ℕ → ℕ → List Bin → VolumeProfile
unfolding value_area
profile_of bin_size percent [] = record {
  bin_size = bin_size;
  poc = none;
  vah = none;
  val = none;
  total_volume = 0;
  bins = [];
}
profile_of bin_size percent (b ∷ bins) =
    let area = value_area percent b bins in
    record {
      bin_size = bin_size;
      poc = some (start_at (idxmax 0 b.total 1 bins) [] b bins).val;
      vah = some area.vah;
      val = some area.val;
      total_volume = volume (b ∷ bins);
      bins = b ∷ bins;
    }

unfoldable pub compute_volume_profile : Bool → ℕ → ℕ → List Trade → VolumeProfile
unfolding bins_of profile_of
compute_volume_profile has_side bin_size percent trades =
    profile_of bin_size percent (bins_of has_side bin_size trades)
