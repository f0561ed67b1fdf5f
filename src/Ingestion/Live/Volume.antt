-- ===== src/Ingestion/Live/Volume.antt =====
-- The cumulative volumes of archive/python-legacy/backend/app/ingestion/databento_live.py over a day of
-- trades, and their restart.
use mathlib.Core.Path.{subst}
use ffllowwgreeks.Prelude.{
  ℕ, suc, ◌+◌, ◌≡◌, ◌≢◌, refl, sym, ◌∙◌, ap, inl, inr, true, false, Option, none, some, List, [],
  ◌∷◌, All, arith, if◌then◌else◌, Option-cases, ==_iff, ◌==◌,
}
use ffllowwgreeks.Ingestion.Live.{
  Record, Contract, Settings, Live, Instrument, as_number, no_data, record_ts, day_of,
}
use ffllowwgreeks.Ingestion.Live.Handlers.{
  emit_row, emit_trade, tape_trade, known_trade, roll_over, traded, state_of, or_no_data, or_zero,
  reset_session_volume_state, zero_volume, differs, handle_trade,
}
use ffllowwgreeks.Ingestion.Live.Dispatch.{change}
use ffllowwgreeks.Ingestion.Live.Effects.{emit_row-state, emit_trade-state, known_trade-registry}
use ffllowwgreeks.Ingestion.Live.Parked.{Print, IsPrint, handle_all, handle_trade-known}

-- The session's volume of an instrument, 0 if there is none.
unfoldable pub volume_of : Live → ℕ → ℕ
unfolding state_of
volume_of l i = or_zero (state_of l i).volume

-- The size of a print, 0 if it has none.
abbrev pub size_of : Record → ℕ
size_of r = or_zero (as_number r.size)

abbrev pub share : ℕ → ℕ → ℕ → ℕ
share i j n = if i == j then n else 0

-- The sizes of an instrument's prints, added up.
unfoldable pub traded_of : ℕ → List Print → ℕ
traded_of j [] = 0
traded_of j ((i, c, r) ∷ ps) = share (suc i) j (size_of r) + traded_of j ps

traded-volume :
    (r : Record) (x : Instrument) → or_zero (traded r x).volume ≡ or_zero x.volume + size_of r
unfolding traded
traded-volume r x = ground arith

change-volume :
    (i : ℕ) (r : Record) (l : Live) (j : ℕ)
    → volume_of (change i (traded r) l) j ≡ volume_of l j + share i j (size_of r)
unfolding volume_of
change-volume i r l j = ground (arith, ==_iff i j, traded-volume r (state_of l i))

known_trade-volume :
    (s : Settings) (i : ℕ) (c : Contract) (r : Record) (l : Live) (j : ℕ)
    → volume_of (known_trade s i c r l) j ≡ volume_of (roll_over r l) j + share i j (size_of r)
unfolding known_trade volume_of
known_trade-volume s i c r l j =
    let l' = change i (traded r) (roll_over r l) in
    ap (λ f. or_zero (or_no_data (f j)).volume)
      (emit_trade-state s i c r (emit_row i c r l') ∙ emit_row-state i c r l')
    ∙ change-volume i r (roll_over r l) j

-- The moment of a print, if it has one, is of the day.
abbrev pub IsOn : ℕ → Record → Type 0
IsOn d r = (ts : ℕ) → record_ts r ≡ some ts → day_of ts ≡ d

-- The volumes are those of the day, if of any.
abbrev pub IsDated : ℕ → Live → Type 0
IsDated d l = (e : ℕ) → l.volume_session_utc_date ≡ some e → e ≡ d

differs-none : (o : Option ℕ) (d : ℕ) → ((e : ℕ) → o ≡ some e → e ≡ d) → differs o d ≡ false
differs-none none d h = refl
differs-none (some e) d h = ground (arith, h e refl)

roll_over-none : (r : Record) (l : Live) → record_ts r ≡ none → roll_over r l ≡ l
unfolding roll_over
roll_over-none r l e = rw (e, roll_over)

module _ (r : Record) (l : Live) (ts : ℕ) (at : record_ts r ≡ some ts) where
  roll_over-state :
      (roll_over r l).state
      ≡ (if differs l.volume_session_utc_date (day_of ts)
          then reset_session_volume_state l
          else l).state
  unfolding roll_over
  roll_over-state = rw (at, roll_over)

  roll_over-date : (roll_over r l).volume_session_utc_date ≡ some (day_of ts)
  unfolding roll_over
  roll_over-date = rw (at, roll_over)

module _ (d : ℕ) (r : Record) (l : Live) (on : IsOn d r) (dated : IsDated d l) where
  roll_over-volume_same : (j : ℕ) → volume_of (roll_over r l) j ≡ volume_of l j
  unfolding volume_of
  roll_over-volume_same j = elim (Option-cases (record_ts r)) [
    | inl e ↦ ap (λ m. volume_of m j) (roll_over-none r l e)
    | inr (ts, e) ↦
        let same_day =
          differs-none l.volume_session_utc_date (day_of ts) (λ f m. dated f m ∙ sym (on ts e)) in
        ap (λ f. or_zero (or_no_data (f j)).volume)
          (roll_over-state r l ts e
            ∙ ap (λ b. (if b then reset_session_volume_state l else l).state) same_day)
  ]

  roll_over-IsDated : IsDated d (roll_over r l)
  roll_over-IsDated f m = elim (Option-cases (record_ts r)) [
    | inl e ↦ dated f (ap (λ m. m.volume_session_utc_date) (sym (roll_over-none r l e)) ∙ m)
    | inr (ts, e) ↦ ground (arith, roll_over-date r l ts e, on ts e)
  ]

emit_row-date :
    (i : ℕ) (c : Contract) (r : Record) (l : Live)
    → (emit_row i c r l).volume_session_utc_date ≡ l.volume_session_utc_date
unfolding emit_row
emit_row-date i c r l = ground arith

emit_trade-date :
    (s : Settings) (i : ℕ) (c : Contract) (r : Record) (l : Live)
    → (emit_trade s i c r l).volume_session_utc_date ≡ l.volume_session_utc_date
unfolding emit_trade tape_trade
emit_trade-date s i c r l = ground arith

known_trade-date :
    (s : Settings) (i : ℕ) (c : Contract) (r : Record) (l : Live)
    → (known_trade s i c r l).volume_session_utc_date ≡ (roll_over r l).volume_session_utc_date
unfolding known_trade
known_trade-date s i c r l =
    let l' = change i (traded r) (roll_over r l) in
    emit_trade-date s i c r (emit_row i c r l') ∙ emit_row-date i c r l'

-- A print of a registered contract on the day.
abbrev pub IsTradeOn : Settings → ℕ → (ℕ → Option Contract) → Print → Type 0
IsTradeOn s d registry (i, c, r) = IsPrint s (i, c, r) × (registry (suc i) ≡ some c) × IsOn d r

-- Prints of registered contracts, on one day of UTC as the trades before them, and none of them
-- dropped for its size, add their sizes to the volumes of their instruments and to no others.
pub handle_all-volume_of :
    (s : Settings) (d : ℕ) (ps : List Print) (l : Live)
    → All (IsTradeOn s d l.registry) ps
    → IsDated d l
    → (j : ℕ) → volume_of (handle_all s ps l) j ≡ volume_of l j + traded_of j ps
unfolding handle_all traded_of
handle_all-volume_of s d [] l h dated j = omega arith
handle_all-volume_of s d ((i, c, r) ∷ ps) l h dated j =
    let m = known_trade s (suc i) c r l in
    let later =
      subst (λ f. All (IsTradeOn s d f) ps) (sym (known_trade-registry s (suc i) c r l)) h.1 in
    let still : IsDated d m =
      λ e o. roll_over-IsDated d r l h.0.2 dated e (sym (known_trade-date s (suc i) c r l) ∙ o) in
    ap (λ x. volume_of (handle_all s ps x) j) (handle_trade-known s i c r h.0.0 l h.0.1)
    ∙ omega (
      arith,
      handle_all-volume_of s d ps m later still j,
      known_trade-volume s (suc i) c r l j,
      roll_over-volume_same d r l h.0.2 dated j,
    )

zero_volume-volume : (o : Option Instrument) → or_zero (or_no_data (zero_volume o)).volume ≡ 0
unfolding no_data
zero_volume-volume none = refl
zero_volume-volume (some x) = ground arith

differs-some : (o : Option ℕ) (e d : ℕ) → o ≡ some e → d ≢ e → differs o d ≡ true
differs-some none e d o h = absurd (ground arith)
differs-some (some f) e d o h = ground (arith, h)

roll_over-volume_other :
    (ts e : ℕ) (r : Record) (l : Live)
    → record_ts r ≡ some ts
    → l.volume_session_utc_date ≡ some e
    → day_of ts ≢ e
    → (j : ℕ) → volume_of (roll_over r l) j ≡ 0
unfolding volume_of reset_session_volume_state
roll_over-volume_other ts e r l at marked other j =
    let moved = differs-some l.volume_session_utc_date e (day_of ts) marked other in
    ap (λ f. or_zero (or_no_data (f j)).volume)
      (roll_over-state r l ts at
        ∙ ap (λ b. (if b then reset_session_volume_state l else l).state) moved)
    ∙ zero_volume-volume (l.state j)

-- A print of a registered contract whose moment is of another day than the last trade's, of an
-- earlier day as well, restarts the volume of every instrument: its own is its size and the others'
-- are 0.
pub handle_trade-volume_of :
    (s : Settings) (ts e i : ℕ) (c : Contract) (r : Record) (l : Live)
    → IsPrint s (i, c, r)
    → l.registry (suc i) ≡ some c
    → record_ts r ≡ some ts
    → l.volume_session_utc_date ≡ some e
    → day_of ts ≢ e
    → (j : ℕ) → volume_of (handle_trade s r l) j ≡ share (suc i) j (size_of r)
handle_trade-volume_of s ts e i c r l print here at marked other j =
    ap (λ x. volume_of x j) (handle_trade-known s i c r print l here)
    ∙ omega (
      arith,
      known_trade-volume s (suc i) c r l j,
      roll_over-volume_other ts e r l at marked other j,
    )
