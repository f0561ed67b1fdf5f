-- ===== src/Processing/FlowEvents/Detect.antt =====
-- The detectors of archive/python-legacy/backend/app/processing/flow_events.py on the prepared tape.
use ffllowwgreeks.Prelude.{
  ℕ, zero, suc, ◌+◌, ◌*◌, max, Bool, true, false, not, ◌&&◌, ◌||◌, Option, none, some, List, [],
  ◌∷◌, ◌++◌, ltb, leb, ◌==◌, length, if◌then◌else◌, Text, same, upper,
}
use ffllowwgreeks.Processing.FlowEvents.{
  Side, neither, Contract, Row, Print, FlowEventConfig, Event, sweep, block, uoa, clean, same_side,
  same_contract, drop_duplicates, contracts_of, rows_of,
}

-- The rows behind the first of a cluster: the next ones on its side within the window.
unfoldable pub more_legs : ℕ → Side → ℕ → List Print → List Print
more_legs window_ms side t0 [] = []
more_legs window_ms side t0 (q ∷ qs) =
    let rest = more_legs window_ms side t0 qs in
    if same_side q.side side && leb q.ts (t0 + window_ms * 1_000) then q ∷ rest else []

-- Lexicographic order of texts, and the sorted set of the venues.
abbrev pub before : Text → Text → Bool
before [] [] = false
before [] (d ∷ t) = true
before (c ∷ s) [] = false
before (c ∷ s) (d ∷ t) = let rest = before s t in if c == d then rest else ltb c d

abbrev pub insert_venue : Text → List Text → List Text
insert_venue v [] = v ∷ []
insert_venue v (w ∷ ws) =
    let rest = insert_venue v ws in
    if same v w then w ∷ ws else if before v w then v ∷ w ∷ ws else w ∷ rest

abbrev pub add_venue : Option Text → List Text → List Text
add_venue none vs = vs
add_venue (some v) vs = insert_venue v vs

unfoldable pub venues_of : List Print → List Text
venues_of [] = []
venues_of (p ∷ ps) = add_venue p.exchange (venues_of ps)

unfoldable pub size_total : List Print → ℕ
size_total [] = 0
size_total (p ∷ ps) = p.size + size_total ps

-- The sum of price times size; a row with no price counts nothing.
abbrev pub price_or_zero : Option ℕ → ℕ
price_or_zero none = 0
price_or_zero (some n) = n

unfoldable pub notional : List Print → ℕ
notional [] = 0
notional (p ∷ ps) = price_or_zero p.price * p.size + notional ps

unfoldable pub premium_total : List Print → ℕ
unfolding notional
premium_total ps = notional ps * 100

unfoldable pub is_sweep : FlowEventConfig → List Print → Bool
is_sweep cfg cluster =
    leb cfg.sweep_min_legs (length cluster)
    && leb 2 (length (venues_of cluster))
    && leb cfg.sweep_min_premium (premium_total cluster)

abbrev pub is_neither : Side → Bool
is_neither s = same_side s neither

-- The clusters of one contract that are sweeps; the first number counts the rows to pass over, which
-- are legs of the cluster found last.
unfoldable pub clusters : FlowEventConfig → ℕ → List Print → List (List Print)
clusters cfg n [] = []
clusters cfg (suc n) (p ∷ ps) = clusters cfg n ps
clusters cfg zero (p ∷ ps) =
    let legs = more_legs cfg.sweep_window_ms p.side p.ts ps in
    let found = not (is_neither p.side) && is_sweep cfg (p ∷ legs) in
    let rest = clusters cfg (if found then length legs else 0) ps in
    if found then (p ∷ legs) ∷ rest else rest

-- The contract as events show it.
unfoldable pub shown : Contract → Contract
shown c = record c { option_type = upper c.option_type }

abbrev pub vwap : ℕ → ℕ → Option (ℕ × ℕ)
vwap total zero = none
vwap total (suc n) = some (total, suc n)

unfoldable pub sweep_event : List Print → List Event
unfolding size_total notional venues_of shown
sweep_event [] = []
sweep_event (p ∷ ps) =
    record {
      event_type = sweep;
      ts = p.ts;
      contract = shown p.contract;
      side = p.side;
      size = size_total (p ∷ ps);
      price = vwap (notional (p ∷ ps)) (size_total (p ∷ ps));
      legs = length (p ∷ ps);
      venues = venues_of (p ∷ ps);
    }
    ∷ []

abbrev pub sweep_events : List (List Print) → List Event
sweep_events [] = []
sweep_events (c ∷ cs) = sweep_event c ++ sweep_events cs

-- One group of rows, sorted again.
unfoldable pub group_sweeps :
    (List Print → List Print) → FlowEventConfig → List Print → List (List Print)
group_sweeps sort cfg group =
    if ltb (length group) cfg.sweep_min_legs then [] else clusters cfg 0 (sort group)

unfoldable pub detect_groups :
    (List Print → List Print) → FlowEventConfig → List Contract → List Print → List Event
detect_groups sort cfg [] work = []
detect_groups sort cfg (c ∷ cs) work =
    sweep_events (group_sweeps sort cfg (rows_of c work)) ++ detect_groups sort cfg cs work

unfoldable pub detect_sweeps : (List Print → List Print) → FlowEventConfig → List Print → List Event
detect_sweeps sort cfg work = detect_groups sort cfg (contracts_of [] work) work

abbrev pub venue_list : Option Text → List Text
venue_list none = []
venue_list (some v) = v ∷ []

abbrev pub price_of : Option ℕ → Option (ℕ × ℕ)
price_of none = none
price_of (some n) = some (n, 1)

unfoldable pub detect_blocks : FlowEventConfig → List Print → List Event
detect_blocks cfg [] = []
detect_blocks cfg (p ∷ ps) =
    let rest = detect_blocks cfg ps in
    if leb cfg.block_min_size p.size
    then record {
      event_type = block;
      ts = p.ts;
      contract = shown p.contract;
      side = p.side;
      size = p.size;
      price = price_of p.price;
      legs = 1;
      venues = venue_list p.exchange;
    }
      ∷ rest
    else rest

-- The reference tables: average daily volume and open interest of a contract.
pub record Reference : Type 0 where
  pub contract_adv : Contract → Option ℕ
  pub contract_oi : Contract → Option ℕ

abbrev pub positive : Option ℕ → Option ℕ
positive none = none
positive (some zero) = none
positive (some (suc n)) = some (suc n)

-- The volume against the average, or else the open interest, or else the fixed number.
abbrev pub by_interest : FlowEventConfig → ℕ → Option ℕ → Bool
by_interest cfg today none = leb cfg.uoa_min_absolute_volume today
by_interest cfg today (some oi) = leb (oi * cfg.uoa_vol_oi_ratio) (today * (1_000_000 * 1_000_000))

abbrev pub by_average : FlowEventConfig → ℕ → Option ℕ → Option ℕ → Bool
by_average cfg today none oi = by_interest cfg today oi
by_average cfg today (some adv) oi =
    leb (adv * cfg.uoa_volume_multiplier) (today * (1_000_000 * 1_000_000))

unfoldable pub is_uoa : FlowEventConfig → Reference → Contract → ℕ → Bool
is_uoa cfg tables c today =
    by_average cfg today (positive (tables.contract_adv c)) (positive (tables.contract_oi c))

unfoldable pub last_ts : List Print → ℕ
last_ts [] = 0
last_ts (p ∷ ps) = max p.ts (last_ts ps)

unfoldable pub has_event : Contract → List Event → Bool
has_event c [] = false
has_event c (e ∷ es) = same_contract e.contract (shown c) || has_event c es

unfoldable pub detect_uoa :
    FlowEventConfig → Reference → List Event → List Contract → List Print → List Event
detect_uoa cfg tables events [] work = []
detect_uoa cfg tables events (c ∷ cs) work =
    let rest = detect_uoa cfg tables events cs work in
    let rows = rows_of c work in
    if not (has_event c events) && is_uoa cfg tables c (size_total rows)
    then record {
      event_type = uoa;
      ts = last_ts rows;
      contract = shown c;
      side = neither;
      size = size_total rows;
      price = none;
      legs = length rows;
      venues = [];
    }
      ∷ rest
    else rest

-- How pandas orders rows by time and groups by contract.
pub record Pandas : Type 0 where
  pub sort_values : List Print → List Print
  pub sort_groups : List Contract → List Contract

unfoldable pub prepare : Pandas → List Row → List Print
prepare pandas trades = drop_duplicates (pandas.sort_values (clean trades))

unfoldable pub detect_on : Pandas → FlowEventConfig → Reference → Bool → List Print → List Event
detect_on pandas cfg tables has_exchange work =
    let sweeps =
      if has_exchange && ltb 1 cfg.sweep_min_legs
      then detect_sweeps pandas.sort_values cfg work
      else [] in
    let events = sweeps ++ detect_blocks cfg work in
    events ++ detect_uoa cfg tables events (pandas.sort_groups (contracts_of [] work)) work

unfoldable pub detect_flow_events :
    Pandas → FlowEventConfig → Reference → Bool → List Row → List Event
detect_flow_events pandas cfg tables has_exchange trades =
    detect_on pandas cfg tables has_exchange (prepare pandas trades)
