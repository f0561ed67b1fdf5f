-- ===== src/Ingestion/Live.antt =====
-- What archive/python-legacy/backend/app/ingestion/databento_live.py keeps and reads: the records of
-- the feed, the contracts, and the last state of each instrument. Prices are in nanodollars and
-- moments in nanoseconds; whole numbers stand for what `int` and `float` read.
pub mod Handlers
pub mod Dispatch
pub mod Refresh
pub mod Sound
pub mod Kept
pub mod Runs
pub mod Effects
pub mod Parked
pub mod Volume
use ffllowwgreeks.Prelude.{
  ℕ, zero, suc, ◌+◌, ◌*◌, ◌/◌, ◌%◌, ◌-◌, Bool, true, false, Option, none, some, List, [], ◌∷◌, ◌++◌,
  ◌&&◌, ltb, leb, ◌==◌, length, drop, if◌then◌else◌, Text, codes, upper, same, ℤ, pos, negsuc,
}
use ffllowwgreeks.Prelude.Dict
use ffllowwgreeks.Prelude.Dict.{Dict}

-- An attribute that holds a number: not there or None, not read as a number, or a number.
pub data Attr {ℓ} (A : Type ℓ) : Type ℓ where
  missing malformed : Attr A
  num : A → Attr A

-- `int(value)` where an exception is caught.
abbrev pub as_number {ℓ} : {A : Type ℓ} → Attr A → Option A
as_number (num n) = some n
as_number other = none

-- `stat_type`, by the spellings that the handler knows.
pub data StatType : Type 0 where
  open_interest cumulative_volume other_stat : StatType

-- An expiration: a date by its day, nanoseconds, or what does not parse.
pub data Expiry : Type 0 where
  on_day : ℕ → Expiry
  at_ns : ℕ → Expiry
  not_a_date : Expiry

-- A record of the feed; an attribute that it lacks is `none`, `missing` or the empty text, and
-- `shown` is `str(record)`.
pub record Record : Type 0 where
  pub rtype : Text
  pub instrument_id : Option ℕ
  pub ts_event : Attr ℕ
  pub price : Attr ℤ
  pub last_price : Attr ℤ
  pub size : Attr ℕ
  pub sequence : Attr ℕ
  pub flags : Attr ℕ
  pub publisher_id : Option Text
  pub top_bid : Attr ℤ
  pub top_ask : Attr ℤ
  pub bid_px_00 : Attr ℤ
  pub ask_px_00 : Attr ℤ
  pub stat_type : StatType
  pub quantity : Attr ℕ
  pub value : Attr ℕ
  pub raw_symbol : Text
  pub symbol : Text
  pub expiration : Option Expiry
  pub expiration_date : Option Expiry
  pub strike_price : Attr ℤ
  pub instrument_class : Text
  pub option_type : Text
  pub err : Text
  pub msg : Text
  pub shown : Text

pub data OptionType : Type 0 where
  call put : OptionType

pub record Contract : Type 0 where
  pub symbol : Text
  pub expiration : ℕ
  pub strike : ℤ
  pub option_type : OptionType

-- An entry of `_state`; the keys `iv`, `delta`, `gamma` and `underlying_price` are never written.
pub record Instrument : Type 0 where
  pub bid : Option ℤ
  pub ask : Option ℤ
  pub quote_ts : Option ℕ
  pub last_price : Option ℤ
  pub volume : Option ℕ
  pub oi : Option ℕ

unfoldable pub no_data : Instrument
no_data = record {
  bid = none;
  ask = none;
  quote_ts = none;
  last_price = none;
  volume = none;
  oi = none;
}

-- A row for the chain's writer.
pub record ChainRow : Type 0 where
  pub ts : ℕ
  pub contract : Contract
  pub instrument : Instrument

pub data Side : Type 0 where
  buy sell at_mid : Side

-- A row for the trade tape's writer.
pub record TradeRow : Type 0 where
  pub ts : ℕ
  pub contract : Contract
  pub seq : ℕ
  pub price : ℤ
  pub size : ℕ
  pub bid : Option ℤ
  pub ask : Option ℤ
  pub exchange : Option Text
  pub side : Option Side
  pub signed_premium : Option ℤ

pub record Settings : Type 0 where
  pub drop_zero_size_trades : Bool
  pub enable_opra_auction_detection : Bool
  pub enable_opra_multileg_detection : Bool
  pub quote_max_age : ℕ
  pub supported_symbols : List Text

-- The ingester with what it has handed to the two writers, `rows` and `trades`. The samples are
-- records, of which the source keeps some attributes.
pub record Live : Type 0 where
  pub registry : ℕ → Option Contract
  pub state : ℕ → Option Instrument
  pub parked : List (ℕ × Record)
  pub volume_session_utc_date : Option ℕ
  pub last_unmatched_bootstrap_at : Option ℕ
  pub background_tasks : ℕ
  pub unmatched_total : ℕ
  pub dropped_zero_size_total : ℕ
  pub dropped_no_ts_count : ℕ
  pub auction_prints_unclassified_total : ℕ
  pub multileg_prints_excluded_total : ℕ
  pub record_counts : Dict ℕ
  pub cumulative_record_counts : Dict ℕ
  pub last_telemetry_at : ℕ
  pub first_record_at : Option ℕ
  pub last_record_at : Option ℕ
  pub sample_record_attrs : Dict Record
  pub last_error : Option Text
  pub error_messages : List Text
  pub system_messages : List Text
  pub rows : List ChainRow
  pub trades : List TradeRow

unfoldable pub create : Live
create = record {
  registry = λ i. none;
  state = λ i. none;
  parked = [];
  volume_session_utc_date = none;
  last_unmatched_bootstrap_at = none;
  background_tasks = 0;
  unmatched_total = 0;
  dropped_zero_size_total = 0;
  dropped_no_ts_count = 0;
  auction_prints_unclassified_total = 0;
  multileg_prints_excluded_total = 0;
  record_counts = Dict.empty;
  cumulative_record_counts = Dict.empty;
  last_telemetry_at = 0;
  first_record_at = none;
  last_record_at = none;
  sample_record_attrs = Dict.empty;
  last_error = none;
  error_messages = [];
  system_messages = [];
  rows = [];
  trades = [];
}

-- d[i] = v
abbrev pub update {ℓ} : {V : Type ℓ} → ℕ → V → (ℕ → Option V) → ℕ → Option V
update i v f j = if i == j then some v else f j

-- `f / 1e9` from one million raw units on; a smaller number counts as dollars.
abbrev pub scale_unsigned : ℕ → ℕ
scale_unsigned n = if ltb 1_000_000 n then n else n * 1_000_000_000

abbrev pub scaled : ℤ → ℤ
scaled (pos n) = pos (scale_unsigned n)
scaled (negsuc n) = negsuc (scale_unsigned (suc n) - 1)

unfoldable pub scale_price : Attr ℤ → Option ℤ
scale_price (num z) = some (scaled z)
scale_price other = none

-- The first moment after the year 9999.
abbrev pub end_of_time : ℕ
end_of_time = 253_402_300_800_000_000_000

unfoldable pub record_ts : Record → Option ℕ
record_ts r = elim r.ts_event [ num n ↦ if ltb n end_of_time then some n else none | _ ↦ none ]

abbrev pub day_of : ℕ → ℕ
day_of ts = ts / 86_400_000_000_000

-- `flags & bit` for a power of two.
abbrev pub has_flag : ℕ → Attr ℕ → Bool
has_flag bit (num flags) = (flags / bit) % 2 == 1
has_flag bit other = false

unfoldable pub is_auction_print : Settings → Record → Bool
is_auction_print s r = s.enable_opra_auction_detection && has_flag 128 r.flags

unfoldable pub is_multileg_print : Settings → Record → Bool
is_multileg_print s r = s.enable_opra_multileg_detection && has_flag 64 r.flags

-- A list behind a bound, which gives up its oldest entries.
unfoldable pub keep_last {ℓ} : {A : Type ℓ} → ℕ → List A → List A
keep_last n xs = drop (length xs - n) xs
