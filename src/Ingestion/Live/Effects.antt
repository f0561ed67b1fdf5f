-- ===== src/Ingestion/Live/Effects.antt =====
-- What a trade changes in the live ingester, archive/python-legacy/backend/app/ingestion/
-- databento_live.py, and the row of a trade before any quote.
use mathlib.Core.List.{append-nil}
use ffllowwgreeks.Prelude.{
  ℕ, ◌≡◌, refl, ◌∙◌, ap, false, Option, none, some, List, [], ◌∷◌, ◌++◌, arith, ==_iff, ℤ,
}
use ffllowwgreeks.Ingestion.Live.{
  Record, Contract, Settings, Live, Instrument, TradeRow, as_number, scale_price, record_ts,
}
use ffllowwgreeks.Ingestion.Live.Handlers.{
  quote_fresh, trade_row, signed_premium, seq_of, tape_trade, emit_trade, emit_row, known_trade,
  roll_over, traded, state_of, or_no_data, reset_session_volume_state, zero_volume,
}
use ffllowwgreeks.Ingestion.Live.Dispatch.{change}
use ffllowwgreeks.Ingestion.Live.Sound.{emit_row-trades}

-- The row of a print for which no quote is known.
plain_row : ℕ → Contract → Record → ℤ → ℕ → TradeRow
plain_row ts c r p n = record {
  ts = ts;
  contract = c;
  seq = seq_of r;
  price = p;
  size = n;
  bid = none;
  ask = none;
  exchange = r.publisher_id;
  side = none;
  signed_premium = none;
}

-- The rows of such a print: one if it has a price, a size and a moment.
unfoldable pub plain : Contract → Record → List TradeRow
unfolding plain_row
plain c r = elim (scale_price r.price) [
  | none ↦ []
  | some p ↦ elim (as_number r.size) [
    | none ↦ []
    | some n ↦ elim (record_ts r) [ none ↦ [] | some ts ↦ plain_row ts c r p n ∷ [] ]
  ]
]

quote_fresh-none :
    (s : Settings) (ts : ℕ) (x : Instrument) → x.quote_ts ≡ none → quote_fresh s ts x ≡ false
unfolding quote_fresh
quote_fresh-none s ts x e = rw (e, quote_fresh)

trade_row-plain_row :
    (s : Settings) (ts : ℕ) (c : Contract) (r : Record) (x : Instrument) (p : ℤ) (n : ℕ)
    → x.quote_ts ≡ none
    → trade_row s ts c r x p n ≡ plain_row ts c r p n
unfolding trade_row plain_row signed_premium
trade_row-plain_row s ts c r x p n e = ground (arith, quote_fresh-none s ts x e)

emit_trade-plain :
    (s : Settings) (i : ℕ) (c : Contract) (r : Record) (l : Live)
    → (state_of l i).quote_ts ≡ none
    → (emit_trade s i c r l).trades ≡ l.trades ++ plain c r
unfolding emit_trade plain tape_trade
emit_trade-plain s i c r l h = ground (
  arith,
  append-nil l.trades,
  λ (ts : ℕ) (p : ℤ) (n : ℕ). trade_row-plain_row s ts c r (state_of l i) p n h,
)

pub emit_row-state :
    (i : ℕ) (c : Contract) (r : Record) (l : Live) → (emit_row i c r l).state ≡ l.state
unfolding emit_row
emit_row-state i c r l = ground arith

emit_row-registry :
    (i : ℕ) (c : Contract) (r : Record) (l : Live) → (emit_row i c r l).registry ≡ l.registry
unfolding emit_row
emit_row-registry i c r l = ground arith

pub emit_trade-state :
    (s : Settings) (i : ℕ) (c : Contract) (r : Record) (l : Live)
    → (emit_trade s i c r l).state ≡ l.state
unfolding emit_trade tape_trade
emit_trade-state s i c r l = ground arith

emit_trade-registry :
    (s : Settings) (i : ℕ) (c : Contract) (r : Record) (l : Live)
    → (emit_trade s i c r l).registry ≡ l.registry
unfolding emit_trade tape_trade
emit_trade-registry s i c r l = ground arith

roll_over-registry : (r : Record) (l : Live) → (roll_over r l).registry ≡ l.registry
unfolding roll_over reset_session_volume_state
roll_over-registry r l = ground arith

roll_over-trades : (r : Record) (l : Live) → (roll_over r l).trades ≡ l.trades
unfolding roll_over reset_session_volume_state
roll_over-trades r l = ground arith

zero_volume-quote_ts :
    (o : Option Instrument) → (or_no_data (zero_volume o)).quote_ts ≡ (or_no_data o).quote_ts
zero_volume-quote_ts none = refl
zero_volume-quote_ts (some x) = refl

roll_over-quote_ts :
    (r : Record) (l : Live) (j : ℕ)
    → (state_of (roll_over r l) j).quote_ts ≡ (state_of l j).quote_ts
unfolding roll_over reset_session_volume_state state_of
roll_over-quote_ts r l j = ground (arith, zero_volume-quote_ts (l.state j))

traded-quote_ts : (r : Record) (x : Instrument) → (traded r x).quote_ts ≡ x.quote_ts
unfolding traded
traded-quote_ts r x = refl

change-quote_ts :
    (i : ℕ) (r : Record) (l : Live) (j : ℕ)
    → (state_of (change i (traded r) l) j).quote_ts ≡ (state_of l j).quote_ts
unfolding state_of
change-quote_ts i r l j = ground (arith, ==_iff i j, traded-quote_ts r (state_of l i))

-- What a trade of a known contract leaves alone.
pub known_trade-registry :
    (s : Settings) (i : ℕ) (c : Contract) (r : Record) (l : Live)
    → (known_trade s i c r l).registry ≡ l.registry
unfolding known_trade
known_trade-registry s i c r l =
    let l' = change i (traded r) (roll_over r l) in
    emit_trade-registry s i c r (emit_row i c r l')
    ∙ emit_row-registry i c r l'
    ∙ roll_over-registry r l

pub known_trade-quote_ts :
    (s : Settings) (i : ℕ) (c : Contract) (r : Record) (l : Live) (j : ℕ)
    → (state_of (known_trade s i c r l) j).quote_ts ≡ (state_of l j).quote_ts
unfolding known_trade
known_trade-quote_ts s i c r l j =
    let l' = change i (traded r) (roll_over r l) in
    ap (λ f. (or_no_data (f j)).quote_ts)
      (emit_trade-state s i c r (emit_row i c r l') ∙ emit_row-state i c r l')
    ∙ change-quote_ts i r (roll_over r l) j
    ∙ roll_over-quote_ts r l j

pub known_trade-trades :
    (s : Settings) (i : ℕ) (c : Contract) (r : Record) (l : Live)
    → (state_of l i).quote_ts ≡ none
    → (known_trade s i c r l).trades ≡ l.trades ++ plain c r
unfolding known_trade
known_trade-trades s i c r l h =
    let l' = change i (traded r) (roll_over r l) in
    let quiet =
      ap (λ f. (or_no_data (f i)).quote_ts) (emit_row-state i c r l')
      ∙ change-quote_ts i r (roll_over r l) i
      ∙ roll_over-quote_ts r l i
      ∙ h in
    emit_trade-plain s i c r (emit_row i c r l') quiet
    ∙ ap (λ rows. rows ++ plain c r) (emit_row-trades i c r l' ∙ roll_over-trades r l)
