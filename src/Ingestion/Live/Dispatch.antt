-- ===== src/Ingestion/Live/Dispatch.antt =====
-- The records that are not trades, and the choice of a handler by the name of the record's class, of
-- archive/python-legacy/backend/app/ingestion/databento_live.py.
use ffllowwgreeks.Prelude.{
  ℕ, zero, ◌+◌, Bool, true, false, ◌&&◌, ◌||◌, Option, none, some, List, [], ◌∷◌, ◌++◌, ltb, ◌==◌,
  take, if◌then◌else◌, Text, codes, upper, same, ℤ, pos,
}
use ffllowwgreeks.Prelude.Dict
use ffllowwgreeks.Prelude.Dict.{Dict}
use ffllowwgreeks.Ingestion.Live.{
  Attr, missing, num, as_number, open_interest, cumulative_volume, other_stat, Expiry, on_day,
  at_ns, Record, OptionType, call, put, Contract, Instrument, Settings, Live, update, scale_price,
  end_of_time, record_ts, day_of, keep_last,
}
use ffllowwgreeks.Ingestion.Live.Handlers.{or_else, state_of, contract_of, emit_row, handle_trade}

-- `s.startswith(prefix)`
unfoldable pub starts_with : Text → Text → Bool
starts_with [] s = true
starts_with (c ∷ prefix) [] = false
starts_with (c ∷ prefix) (d ∷ s) = c == d && starts_with prefix s

-- `part in s`
unfoldable pub contains : Text → Text → Bool
unfolding starts_with
contains part [] = starts_with part []
contains part (c ∷ s) = starts_with part (c ∷ s) || contains part s

-- x if it is not empty, else y
abbrev pub or_text : Text → Text → Text
or_text [] y = y
or_text (c ∷ cs) y = c ∷ cs

-- `_underlying_for_raw_symbol` on a name that is not empty.
unfoldable pub underlying_among : List Text → Text → Option Text
unfolding starts_with upper
underlying_among [] name = none
underlying_among (sym ∷ syms) name =
    let rest = underlying_among syms name in
    if starts_with (upper sym) (upper name) then some (upper sym) else rest

unfoldable pub underlying_for_raw_symbol : List Text → Text → Option Text
unfolding underlying_among
underlying_for_raw_symbol supported [] = none
underlying_for_raw_symbol supported (c ∷ cs) = underlying_among supported (c ∷ cs)

unfoldable pub option_type_of : Text → Option OptionType
unfolding upper same
option_type_of name =
    if same (upper name) (codes "C") || same (upper name) (codes "CALL")
    then some call
    else if same (upper name) (codes "P") || same (upper name) (codes "PUT")
    then some put
    else none

-- `expiration or expiration_date`; the number 0 is falsy.
abbrev pub or_expiry : Option Expiry → Option Expiry → Option Expiry
or_expiry none e = e
or_expiry (some (at_ns zero)) e = e
or_expiry (some x) e = some x

abbrev pub expiry_day : Option Expiry → Option ℕ
expiry_day (some (on_day d)) = some d
expiry_day (some (at_ns n)) = if ltb n end_of_time then some (day_of n) else none
expiry_day other = none

infixl 5 ◌>>=◌
abbrev pub ◌>>=◌ {ℓ κ} : {A : Type ℓ} {B : Type κ} → Option A → (A → Option B) → Option B
none >>= f = none
some a >>= f = f a

-- The id and the contract of a definition, if it says all that is needed.
unfoldable pub defined : List Text → Record → Option (ℕ × Contract)
unfolding underlying_for_raw_symbol option_type_of scale_price
defined supported r = do
  i ← r.instrument_id
  strike ← scale_price r.strike_price
  underlying ← underlying_for_raw_symbol supported (or_text r.raw_symbol r.symbol)
  opt ← option_type_of (or_text r.instrument_class r.option_type)
  day ← expiry_day (or_expiry r.expiration r.expiration_date)
  some (i, record { symbol = underlying; expiration = day; strike = strike; option_type = opt })

unfoldable pub handle_definition : Settings → Record → Live → Live
unfolding defined
handle_definition s r l = elim (defined s.supported_symbols r) [
  | none ↦ l
  | some (i, c) ↦ record l { registry = update i c l.registry }
]

-- A quote is stamped with the record's moment, or else with the clock's.
abbrev pub stamp : ℕ → Option ℕ → Option ℤ → Option ℤ → Option ℕ → Option ℕ
stamp now ts none none old = old
stamp now none bid ask old = some now
stamp now (some t) bid ask old = some t

unfoldable pub quoted : ℕ → Record → Option ℤ → Option ℤ → Instrument → Instrument
unfolding record_ts
quoted now r bid ask x = record x {
  bid = or_else bid x.bid;
  ask = or_else ask x.ask;
  quote_ts = stamp now (record_ts r) bid ask x.quote_ts;
}

abbrev pub change : ℕ → (Instrument → Instrument) → Live → Live
change i f l = record l { state = update i (f (state_of l i)) l.state }

-- `last_price or price`, of which 0 is falsy.
abbrev pub or_price : Attr ℤ → Attr ℤ → Attr ℤ
or_price missing p = p
or_price (num (pos zero)) p = p
or_price a p = a

-- What a record of the schema mbp-1 changes.
unfoldable pub flat_quote : ℕ → Record → Instrument → Instrument
unfolding quoted scale_price
flat_quote now r x =
    let y = quoted now r (scale_price r.bid_px_00) (scale_price r.ask_px_00) x in
    record y { last_price = or_else (scale_price (or_price r.last_price r.price)) y.last_price }

unfoldable pub handle_mbp : ℕ → Record → Live → Live
unfolding contract_of flat_quote state_of emit_row
handle_mbp now r l = elim (contract_of l r.instrument_id) [
  | none ↦ l
  | some (i, c) ↦ emit_row i c r (change i (flat_quote now r) l)
]

-- What one of the schema cmbp-1 changes: the top of the book counts, or else the flat fields.
unfoldable pub top_quote : ℕ → Record → Instrument → Instrument
unfolding quoted scale_price
top_quote now r x =
    let bid = or_else (scale_price r.top_bid) (scale_price r.bid_px_00) in
    let ask = or_else (scale_price r.top_ask) (scale_price r.ask_px_00) in quoted now r bid ask x

unfoldable pub handle_cmbp : ℕ → Record → Live → Live
unfolding contract_of top_quote state_of emit_row
handle_cmbp now r l = elim (contract_of l r.instrument_id) [
  | none ↦ l
  | some (i, c) ↦ emit_row i c r (change i (top_quote now r) l)
]

-- `quantity` if it is not None, else `value`.
abbrev pub or_value : Attr ℕ → Attr ℕ → Attr ℕ
or_value missing v = v
or_value q v = q

unfoldable pub counted : Record → Instrument → Instrument
counted r x = elim r.stat_type [
  | open_interest ↦ record x { oi = or_else (as_number (or_value r.quantity r.value)) x.oi }
  | cumulative_volume ↦ record x {
    volume = or_else (as_number (or_value r.quantity r.value)) x.volume;
  }
  | other_stat ↦ x
]

unfoldable pub handle_statistics : Record → Live → Live
unfolding contract_of counted state_of emit_row
handle_statistics r l = elim (contract_of l r.instrument_id) [
  | none ↦ l
  | some (i, c) ↦ emit_row i c r (change i (counted r) l)
]

unfoldable pub handle_error : Record → Live → Live
unfolding keep_last
handle_error r l =
    let text = take 300 (or_text r.err (or_text r.msg r.shown)) in
    record l {
      last_error = some text;
      error_messages = keep_last 10 (l.error_messages ++ (text ∷ []));
    }

unfoldable pub handle_system : Record → Live → Live
unfolding keep_last
handle_system r l =
    let text = take 300 (or_text r.msg r.shown) in
    record l { system_messages = keep_last 10 (l.system_messages ++ (text ∷ [])) }

abbrev pub increment : Text → Dict ℕ → Dict ℕ
increment k d = Dict.put d k (Dict.get_default d k 0 + 1)

abbrev pub seen_first : Text → Record → Option Record → Dict Record → Dict Record
seen_first k r none d = Dict.put d k r
seen_first k r (some old) d = d

-- The bookkeeping of every record.
unfoldable pub note_record : ℕ → Record → Live → Live
note_record now r l = record l {
  record_counts = increment r.rtype l.record_counts;
  cumulative_record_counts = increment r.rtype l.cumulative_record_counts;
  first_record_at = or_else l.first_record_at (some now);
  last_record_at = some now;
  sample_record_attrs =
      seen_first r.rtype r (Dict.get l.sample_record_attrs r.rtype) l.sample_record_attrs;
}

-- Every thirty seconds the counts of the period are logged and cleared.
unfoldable pub maybe_log_telemetry : ℕ → Live → Live
maybe_log_telemetry clock l =
    if ltb clock (l.last_telemetry_at + 30_000_000_000)
    then l
    else record l { last_telemetry_at = clock; record_counts = Dict.empty }

pub data Kind : Type 0 where
  definition cmbp mbp trade statistics error system ignored : Kind

-- The tests on `type(record).__name__`, in their order.
unfoldable pub kind_of : Text → Kind
unfolding contains
kind_of rtype =
    let has = λ (part : Text). contains part rtype in
    if has (codes "Definition")
    then definition
    else if has (codes "CMBP") || has (codes "Cmbp") || has (codes "Consolidated")
    then cmbp
    else if has (codes "MBP") || has (codes "Mbp")
    then mbp
    else if has (codes "Trade")
    then trade
    else if has (codes "Stat")
    then statistics
    else if has (codes "Error")
    then error
    else if has (codes "System")
    then system
    else ignored

unfoldable pub dispatch : Kind → Settings → ℕ → Record → Live → Live
unfolding handle_definition handle_cmbp handle_mbp handle_trade handle_statistics handle_error
    handle_system
dispatch definition s now r l = handle_definition s r l
dispatch cmbp s now r l = handle_cmbp now r l
dispatch mbp s now r l = handle_mbp now r l
dispatch trade s now r l = handle_trade s r l
dispatch statistics s now r l = handle_statistics r l
dispatch error s now r l = handle_error r l
dispatch system s now r l = handle_system r l
dispatch ignored s now r l = l

-- `clock` is the time of the event loop.
unfoldable pub handle_record : Settings → ℕ → ℕ → Record → Live → Live
unfolding kind_of dispatch note_record maybe_log_telemetry
handle_record s now clock r l =
    dispatch (kind_of r.rtype) s now r (maybe_log_telemetry clock (note_record now r l))
