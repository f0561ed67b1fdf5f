-- ===== src/Ingestion/Live/Kept.antt =====
-- The invariant of the live ingester, archive/python-legacy/backend/app/ingestion/databento_live.py,
-- through each handler of a record.
use ffllowwgreeks.Prelude.{
  ℕ, zero, suc, ◌≤◌, ◌≡◌, ◌∙◌, ap, inl, inr, ◌&&◌, Option, none, some, List, [], ◌∷◌, ◌++◌, length,
  arith, if-cases, Option-cases, ==_iff,
}
use ffllowwgreeks.Ingestion.Live.{
  Record, Contract, Settings, Live, Instrument, update, as_number, scale_price, record_ts, day_of,
}
use ffllowwgreeks.Ingestion.Live.Handlers.{
  tape_trade, emit_trade, emit_row, known_trade, unmatched_trade, handle_trade, contract_of,
  roll_over, traded, park, reset_session_volume_state, is_zero_size, differs,
}
use ffllowwgreeks.Ingestion.Live.Dispatch.{
  handle_definition, handle_mbp, handle_cmbp, handle_statistics, change, defined, flat_quote,
  top_quote, counted,
}
use ffllowwgreeks.Ingestion.Live.Sound.{
  IsGood, Alike-IsGood, emit_row-Alike, emit_row-trades, tape_trade-Alike, tape_trade-IsHonest,
  length-keep_last,
}

emit_row-IsGood :
    (i : ℕ) (c : Contract) (r : Record) (l : Live) → IsGood l → IsGood (emit_row i c r l)
emit_row-IsGood i c r l g =
    Alike-IsGood l (emit_row i c r l) (emit_row-Alike i c r l) (rw emit_row-trades g.honest) g

emit_trade-IsGood :
    (s : Settings) (i : ℕ) (c : Contract) (r : Record) (l : Live)
    → IsGood l
    → IsGood (emit_trade s i c r l)
unfolding emit_trade
emit_trade-IsGood s i c r l g = elim (Option-cases (scale_price r.price)) [
  | inl e ↦ rw (e, emit_trade) g
  | inr (p, e) ↦ elim (Option-cases (as_number r.size)) [
    | inl f ↦ rw (e, f, emit_trade) g
    | inr (n, f) ↦
        rw (e, f, emit_trade)
          (Alike-IsGood l (tape_trade s i c r p n l) (tape_trade-Alike s i c r p n l)
            (tape_trade-IsHonest s i c r p n l g.honest) g)
  ]
]

pub reset-IsGood : (l : Live) → IsGood l → IsGood (reset_session_volume_state l)
unfolding reset_session_volume_state
reset-IsGood l g = record {
  known = λ i e. rw (g.known i e);
  parked = g.parked;
  errors = g.errors;
  systems = g.systems;
  honest = g.honest;
}

dated-IsGood :
    (l : Live) (d : ℕ) → IsGood l → IsGood (record l { volume_session_utc_date = some d })
dated-IsGood l d g = record {
  known = g.known;
  parked = g.parked;
  errors = g.errors;
  systems = g.systems;
  honest = g.honest;
}

roll_over-IsGood : (r : Record) (l : Live) → IsGood l → IsGood (roll_over r l)
unfolding roll_over
roll_over-IsGood r l g = elim (Option-cases (record_ts r)) [
  | inl e ↦ rw (e, roll_over) g
  | inr (ts, e) ↦
      rw (e, roll_over)
        (dated-IsGood _ (day_of ts) (
          if-cases IsGood (differs l.volume_session_utc_date (day_of ts))
            (reset_session_volume_state l) l (λ other_day. reset-IsGood l g) (λ same_day. g)))
]

change-IsGood :
    (i : ℕ) (c : Contract) (f : Instrument → Instrument) (l : Live)
    → l.registry i ≡ some c
    → IsGood l
    → IsGood (change i f l)
change-IsGood i c f l here g = record {
  known = λ j e. ground (arith, g.known j e, ==_iff i j);
  parked = g.parked;
  errors = g.errors;
  systems = g.systems;
  honest = g.honest;
}

roll_over-registry : (r : Record) (l : Live) → (roll_over r l).registry ≡ l.registry
unfolding roll_over reset_session_volume_state
roll_over-registry r l = ground arith

known_trade-IsGood :
    (s : Settings) (i : ℕ) (c : Contract) (r : Record) (l : Live)
    → l.registry i ≡ some c
    → IsGood l
    → IsGood (known_trade s i c r l)
unfolding known_trade
known_trade-IsGood s i c r l here g =
    let l' = roll_over r l in
    let l'' = change i (traded r) l' in
    let g'' =
      change-IsGood i c (traded r) l' (ap (λ f. f i) (roll_over-registry r l) ∙ here)
        (roll_over-IsGood r l g) in
    emit_trade-IsGood s i c r (emit_row i c r l'') (emit_row-IsGood i c r l'' g'')

length-park :
    (r : Record) (parked : List (ℕ × Record)) → length parked ≤ 1000 → length (park r parked) ≤ 1000
unfolding park
length-park r parked h = elim (Option-cases r.instrument_id) [
  | inl e ↦ rw (e, park) h
  | inr (i, e) ↦ rw (e, park) (length-keep_last 1000 (parked ++ ((i, r) ∷ [])))
]

unmatched_trade-IsGood : (r : Record) (l : Live) → IsGood l → IsGood (unmatched_trade r l)
unfolding unmatched_trade
unmatched_trade-IsGood r l g = record {
  known = g.known;
  parked = length-park r l.parked g.parked;
  errors = g.errors;
  systems = g.systems;
  honest = g.honest;
}

contract_of-registry :
    (l : Live) (o : Option ℕ) (i : ℕ) (c : Contract)
    → contract_of l o ≡ some (i, c)
    → l.registry i ≡ some c
unfolding contract_of
contract_of-registry l none i c h = absurd (ground arith)
contract_of-registry l (some zero) i c h = absurd (ground arith)
contract_of-registry l (some (suc j)) i c h = ground arith

-- A handler that does nothing or works on a registered id.
with_contract :
    (l : Live) (o : Option ℕ) (x : Live) (f : ℕ → Contract → Live)
    → IsGood x
    → ((i : ℕ) (c : Contract) → l.registry i ≡ some c → IsGood (f i c))
    → IsGood (elim (contract_of l o) [ none ↦ x | some (i, c) ↦ f i c ])
with_contract l o x f gx gf = elim (Option-cases (contract_of l o)) [
  | inl e ↦ rw e gx
  | inr ((i, c), e) ↦ rw e (gf i c (contract_of-registry l o i c e))
]

skip_trade-IsGood :
    (l : Live) (n : ℕ) → IsGood l → IsGood (record l { dropped_zero_size_total = n })
skip_trade-IsGood l n g = record {
  known = g.known;
  parked = g.parked;
  errors = g.errors;
  systems = g.systems;
  honest = g.honest;
}

pub handle_trade-IsGood :
    (s : Settings) (r : Record) (l : Live) → IsGood l → IsGood (handle_trade s r l)
unfolding handle_trade
handle_trade-IsGood s r l g =
    if-cases IsGood (s.drop_zero_size_trades && is_zero_size r) _ _
      (λ zero_size. skip_trade-IsGood l _ g)
      (λ sized.
        with_contract l r.instrument_id (unmatched_trade r l) (λ i c. known_trade s i c r l)
          (unmatched_trade-IsGood r l g) (λ i c e. known_trade-IsGood s i c r l e g))

-- A quote or a statistic changes one instrument and gives a row.
noted-IsGood :
    (i : ℕ) (c : Contract) (r : Record) (f : Instrument → Instrument) (l : Live)
    → IsGood l
    → l.registry i ≡ some c
    → IsGood (emit_row i c r (change i f l))
noted-IsGood i c r f l g e = emit_row-IsGood i c r (change i f l) (change-IsGood i c f l e g)

pub handle_mbp-IsGood : (now : ℕ) (r : Record) (l : Live) → IsGood l → IsGood (handle_mbp now r l)
unfolding handle_mbp
handle_mbp-IsGood now r l g =
    with_contract l r.instrument_id l _ g (λ i c e. noted-IsGood i c r (flat_quote now r) l g e)

pub handle_cmbp-IsGood : (now : ℕ) (r : Record) (l : Live) → IsGood l → IsGood (handle_cmbp now r l)
unfolding handle_cmbp
handle_cmbp-IsGood now r l g =
    with_contract l r.instrument_id l _ g (λ i c e. noted-IsGood i c r (top_quote now r) l g e)

pub handle_statistics-IsGood : (r : Record) (l : Live) → IsGood l → IsGood (handle_statistics r l)
unfolding handle_statistics
handle_statistics-IsGood r l g =
    with_contract l r.instrument_id l _ g (λ i c e. noted-IsGood i c r (counted r) l g e)

registered-IsGood :
    (i : ℕ) (c : Contract) (l : Live)
    → IsGood l
    → IsGood (record l { registry = update i c l.registry })
registered-IsGood i c l g = record {
  known = λ j e. ground (arith, g.known j, ==_iff i j);
  parked = g.parked;
  errors = g.errors;
  systems = g.systems;
  honest = g.honest;
}

pub handle_definition-IsGood :
    (s : Settings) (r : Record) (l : Live) → IsGood l → IsGood (handle_definition s r l)
unfolding handle_definition
handle_definition-IsGood s r l g = elim (Option-cases (defined s.supported_symbols r)) [
  | inl e ↦ rw (e, handle_definition) g
  | inr ((i, c), e) ↦ rw (e, handle_definition) (registered-IsGood i c l g)
]
