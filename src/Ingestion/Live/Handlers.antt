-- ===== src/Ingestion/Live/Handlers.antt =====
-- The handlers of records, archive/python-legacy/backend/app/ingestion/databento_live.py. The locks of
-- the writers guard sections that do not suspend, so a handler is one step. `now` is the wall clock,
-- for a quote without a moment of its own.
use ffllowwgreeks.Prelude.{
  ℕ, zero, suc, ◌+◌, ◌*◌, ◌-◌, ◌%◌, Bool, false, not, ◌&&◌, Option, none, some, List, [], ◌∷◌, ◌++◌,
  ltb, leb, ◌==◌, if◌then◌else◌, ℤ, pos, negsuc, negate, times,
}
use ffllowwgreeks.Ingestion.Live.{
  Attr, malformed, num, as_number, Record, Contract, Instrument, no_data, Side, buy, sell, at_mid,
  TradeRow, Settings, Live, update, scale_price, record_ts, day_of, is_auction_print,
  is_multileg_print, keep_last,
}

-- x if it is not None, else y
abbrev pub or_else {ℓ} : {A : Type ℓ} → Option A → Option A → Option A
or_else none y = y
or_else (some x) y = some x

abbrev pub or_no_data : Option Instrument → Instrument
or_no_data none = no_data
or_no_data (some s) = s

-- `state.get(instrument_id, {})`
unfoldable pub state_of : Live → ℕ → Instrument
unfolding no_data
state_of l i = or_no_data (l.state i)

-- The contract of an id that is not None, 0 or unknown.
unfoldable pub contract_of : Live → Option ℕ → Option (ℕ × Contract)
contract_of l none = none
contract_of l (some zero) = none
contract_of l (some (suc i)) = elim (l.registry (suc i)) [ none ↦ none | some c ↦ some (suc i, c) ]

unfoldable pub emit_row : ℕ → Contract → Record → Live → Live
unfolding state_of record_ts
emit_row i c r l = elim (record_ts r) [
  | none ↦ record l { dropped_no_ts_count = l.dropped_no_ts_count + 1 }
  | some ts ↦ record l {
    rows = l.rows ++ (record { ts = ts; contract = c; instrument = state_of l i } ∷ []);
  }
]

abbrev pub number_or_zero : Attr ℕ → ℕ
number_or_zero (num n) = n
number_or_zero other = 0

-- `sequence or ts_event`, or 0 if that is no number.
unfoldable pub seq_of : Record → ℕ
seq_of r = elim r.sequence [ num (suc n) ↦ suc n | malformed ↦ 0 | _ ↦ number_or_zero r.ts_event ]

unfoldable pub quote_fresh : Settings → ℕ → Instrument → Bool
quote_fresh s ts x = elim x.quote_ts [
  | none ↦ false
  | some quoted ↦ leb quoted ts && leb (ts - quoted) s.quote_max_age
]

-- The price against the midpoint, on doubled values.
abbrev pub against_mid : ℤ → ℕ → Side
against_mid (pos p) sum = if ltb sum (2 * p) then buy else if ltb (2 * p) sum then sell else at_mid
against_mid (negsuc p) sum = sell

-- Two positive quotes with a spread above 1,000 nanodollars.
unfoldable pub quote_rule : Option ℤ → Option ℤ → ℤ → Option Side
quote_rule (some (pos b)) (some (pos a)) p =
    if ltb 0 b && ltb (b + 1000) a then some (against_mid p (b + a)) else none
quote_rule bid ask p = none

unfoldable pub side_of : Settings → ℕ → Record → Instrument → ℤ → Option Side
unfolding quote_rule quote_fresh is_auction_print is_multileg_print
side_of s ts r x p =
    if is_auction_print s r
    then none
    else if is_multileg_print s r
    then none
    else if quote_fresh s ts x
    then quote_rule x.bid x.ask p
    else none

-- `-side * size * price * 100`
unfoldable pub signed_premium : Option Side → ℕ → ℤ → Option ℤ
unfolding times negate
signed_premium (some buy) size p = some (negate (times (100 * size) p))
signed_premium (some sell) size p = some (times (100 * size) p)
signed_premium other size p = none

unfoldable pub trade_row : Settings → ℕ → Contract → Record → Instrument → ℤ → ℕ → TradeRow
unfolding side_of signed_premium seq_of quote_fresh
trade_row s ts c r x p n =
    let side = side_of s ts r x p in
    record {
      ts = ts;
      contract = c;
      seq = seq_of r;
      price = p;
      size = n;
      bid = if quote_fresh s ts x then x.bid else none;
      ask = if quote_fresh s ts x then x.ask else none;
      exchange = r.publisher_id;
      side = side;
      signed_premium = signed_premium side n p;
    }

unfoldable pub tape_trade : Settings → ℕ → Contract → Record → ℤ → ℕ → Live → Live
unfolding state_of record_ts trade_row is_auction_print is_multileg_print
tape_trade s i c r p n l = elim (record_ts r) [
  | none ↦ record l { dropped_no_ts_count = l.dropped_no_ts_count + 1 }
  | some ts ↦ record l {
    auction_prints_unclassified_total =
        if is_auction_print s r
        then l.auction_prints_unclassified_total + 1
        else l.auction_prints_unclassified_total;
    multileg_prints_excluded_total =
        if not (is_auction_print s r) && is_multileg_print s r
        then l.multileg_prints_excluded_total + 1
        else l.multileg_prints_excluded_total;
    trades = l.trades ++ (trade_row s ts c r (state_of l i) p n ∷ []);
  }
]

unfoldable pub emit_trade : Settings → ℕ → Contract → Record → Live → Live
unfolding tape_trade scale_price
emit_trade s i c r l = elim (scale_price r.price) [
  | none ↦ l
  | some p ↦ elim (as_number r.size) [ none ↦ l | some n ↦ tape_trade s i c r p n l ]
]

abbrev pub zero_volume : Option Instrument → Option Instrument
zero_volume none = none
zero_volume (some x) = some (record x { volume = elim x.volume [ none ↦ none | some v ↦ some 0 ] })

unfoldable pub reset_session_volume_state : Live → Live
reset_session_volume_state l = record l { state = λ i. zero_volume (l.state i) }

abbrev pub differs : Option ℕ → ℕ → Bool
differs none d = false
differs (some e) d = not (d == e)

-- The volumes start again when the trade is of another day than the one before.
unfoldable pub roll_over : Record → Live → Live
unfolding reset_session_volume_state record_ts
roll_over r l = elim (record_ts r) [
  | none ↦ l
  | some ts ↦
      let l' =
        if differs l.volume_session_utc_date (day_of ts) then reset_session_volume_state l else l in
      record l' { volume_session_utc_date = some (day_of ts) }
]

abbrev pub or_zero : Option ℕ → ℕ
or_zero none = 0
or_zero (some n) = n

-- What a trade changes of its instrument.
unfoldable pub traded : Record → Instrument → Instrument
unfolding scale_price
traded r x = record x {
  last_price = or_else (scale_price r.price) x.last_price;
  volume = elim (as_number r.size) [ none ↦ x.volume | some n ↦ some (or_zero x.volume + n) ];
}

unfoldable pub known_trade : Settings → ℕ → Contract → Record → Live → Live
unfolding roll_over traded state_of emit_row emit_trade
known_trade s i c r l =
    let l' = roll_over r l in
    let l'' = record l' { state = update i (traded r (state_of l' i)) l'.state } in
    emit_trade s i c r (emit_row i c r l'')

abbrev pub unmatched_trade_buffer_max : ℕ
unmatched_trade_buffer_max = 1000

unfoldable pub park : Record → List (ℕ × Record) → List (ℕ × Record)
unfolding keep_last
park r parked = elim r.instrument_id [
  | none ↦ parked
  | some i ↦ keep_last unmatched_trade_buffer_max (parked ++ ((i, r) ∷ []))
]

-- A trade of no known contract; every fiftieth one starts a task that refreshes the registry.
unfoldable pub unmatched_trade : Record → Live → Live
unfolding park
unmatched_trade r l =
    let total = l.unmatched_total + 1 in
    record l {
      unmatched_total = total;
      parked = park r l.parked;
      background_tasks = if total % 50 == 0 then l.background_tasks + 1 else l.background_tasks;
    }

unfoldable pub is_zero_size : Record → Bool
is_zero_size r = elim r.size [ num n ↦ n == 0 | _ ↦ false ]

unfoldable pub handle_trade : Settings → Record → Live → Live
unfolding is_zero_size contract_of known_trade unmatched_trade
handle_trade s r l =
    if s.drop_zero_size_trades && is_zero_size r
    then record l { dropped_zero_size_total = l.dropped_zero_size_total + 1 }
    else elim (contract_of l r.instrument_id) [
      | none ↦ unmatched_trade r l
      | some (i, c) ↦ known_trade s i c r l
    ]
