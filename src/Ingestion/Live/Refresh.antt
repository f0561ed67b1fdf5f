-- ===== src/Ingestion/Live/Refresh.antt =====
-- The refreshes of the registry in archive/python-legacy/backend/app/ingestion/databento_live.py. What
-- the vendor answers is an argument; a refresh that waits for it is a step before and a step after.
use ffllowwgreeks.Prelude.{
  ℕ, ◌+◌, Bool, true, false, Option, none, some, List, [], ◌∷◌, ltb, if◌then◌else◌, Text, upper, ℤ,
}
use ffllowwgreeks.Ingestion.Live.{
  Attr, missing, malformed, num, Expiry, Record, Contract, Instrument, Settings, Live, update,
  scale_price,
}
use ffllowwgreeks.Ingestion.Live.Handlers.{handle_trade}
use ffllowwgreeks.Ingestion.Live.Dispatch.{or_text, or_expiry, expiry_day, option_type_of}

-- A row of the vendor's table of definitions, with the symbol it was asked for under.
pub record Definition : Type 0 where
  pub underlying : Text
  pub instrument_id : Attr ℕ
  pub strike_price : Attr ℤ
  pub expiration : Option Expiry
  pub expiration_date : Option Expiry
  pub instrument_class : Text
  pub option_type : Text

-- Why a definition goes to the dead-letter queue.
pub data Reason : Type 0 where
  definition_missing_fields definition_bad_instrument_id definition_unknown_option_type
        definition_unparseable_expiry :
      Reason

pub data Reading : Type 0 where
  loaded : ℕ → Contract → Reading
  rejected : Reason → Reading

-- What the vendor did: an exception, no call for want of a key, or the definitions.
pub data Fetch : Type 0 where
  failed skipped : Fetch
  fetched : List Definition → Fetch

abbrev pub is_there : Option Expiry → Bool
is_there none = false
is_there (some e) = true

abbrev pub is_text : Text → Bool
is_text [] = false
is_text (c ∷ cs) = true

read_contract : Definition → ℕ → ℤ → Reading
unfolding option_type_of
read_contract d i strike = elim (option_type_of (or_text d.instrument_class d.option_type)) [
  | none ↦ rejected definition_unknown_option_type
  | some opt ↦ elim (expiry_day (or_expiry d.expiration d.expiration_date)) [
    | none ↦ rejected definition_unparseable_expiry
    | some day ↦ loaded i (record {
      symbol = upper d.underlying;
      expiration = day;
      strike = strike;
      option_type = opt;
    })
  ]
]

read_id : Definition → Attr ℕ → ℤ → Reading
unfolding read_contract
read_id d missing strike = rejected definition_missing_fields
read_id d malformed strike = rejected definition_bad_instrument_id
read_id d (num i) strike = read_contract d i strike

unfoldable pub read_definition : Definition → Reading
unfolding read_id scale_price
read_definition d = elim (scale_price d.strike_price) [
  | none ↦ rejected definition_missing_fields
  | some strike ↦
      let reading = read_id d d.instrument_id strike in
      if is_there (or_expiry d.expiration d.expiration_date)
      then if is_text (or_text d.instrument_class d.option_type)
        then reading
        else rejected definition_missing_fields
      else rejected definition_missing_fields
]

abbrev pub load : Reading → (ℕ → Option Contract) → ℕ → Option Contract
load (rejected why) registry = registry
load (loaded i c) registry = update i c registry

-- The new registry; a later definition of an id replaces an earlier one.
unfoldable pub load_all : List Definition → (ℕ → Option Contract) → ℕ → Option Contract
unfolding read_definition
load_all [] registry = registry
load_all (d ∷ ds) registry = load_all ds (load (read_definition d) registry)

abbrev pub is_loaded : Reading → Bool
is_loaded (rejected why) = false
is_loaded (loaded i c) = true

unfoldable pub any_loaded : List Definition → Bool
unfolding read_definition
any_loaded [] = false
any_loaded (d ∷ ds) =
    let rest = any_loaded ds in if is_loaded (read_definition d) then true else rest

abbrev pub add_reason : Reading → List Reason → List Reason
add_reason (rejected why) whys = why ∷ whys
add_reason (loaded i c) whys = whys

-- What the bootstrap hands to the dead-letter queue.
unfoldable pub rejections : List Definition → List Reason
unfolding read_definition
rejections [] = []
rejections (d ∷ ds) = add_reason (read_definition d) (rejections ds)

abbrev pub nothing_known : ℕ → Option Contract
nothing_known i = none

abbrev pub keep_known : Option Contract → Option Instrument → Option Instrument
keep_known none x = none
keep_known (some c) x = x

-- The swap, with the states of the ids that are gone dropped.
unfoldable pub swap_registry : (ℕ → Option Contract) → Live → Live
swap_registry registry l = record l {
  registry = registry;
  state = λ i. keep_known (registry i) (l.state i);
}

unfoldable pub bootstrap_registry : Fetch → Live → Live
unfolding swap_registry load_all any_loaded
bootstrap_registry failed l = l
bootstrap_registry skipped l = l
bootstrap_registry (fetched ds) l =
    if any_loaded ds then swap_registry (load_all ds nothing_known) l else l

-- Five minutes.
abbrev pub miss_cooldown : ℕ
miss_cooldown = 300_000_000_000

abbrev pub on_cooldown : Option ℕ → ℕ → Bool
on_cooldown none now = false
on_cooldown (some last) now = ltb now (last + miss_cooldown)

-- A task for the misses up to the vendor's answer, and whether it asks at all.
unfoldable pub refresh_begin : ℕ → Live → Bool × Live
refresh_begin now l =
    if on_cooldown l.last_unmatched_bootstrap_at now
    then (false, l)
    else (true, record l { last_unmatched_bootstrap_at = some now })

abbrev pub is_known : Option Contract → Bool
is_known none = false
is_known (some c) = true

-- The parked trades whose contract is known now are handled as if they had just come.
unfoldable pub replay : Settings → List (ℕ × Record) → Live → Live
unfolding handle_trade
replay s [] l = l
replay s ((i, r) ∷ parked) l =
    replay s parked (if is_known (l.registry i) then handle_trade s r l else l)

unfoldable pub drain : Settings → Live → Live
unfolding replay
drain s l = replay s l.parked (record l { parked = [] })

unfoldable pub refresh_end : Settings → Fetch → Live → Live
unfolding drain bootstrap_registry
refresh_end s failed l = l
refresh_end s skipped l = drain s l
refresh_end s (fetched ds) l = drain s (bootstrap_registry (fetched ds) l)
