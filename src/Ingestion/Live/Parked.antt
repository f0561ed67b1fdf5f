-- ===== src/Ingestion/Live/Parked.antt =====
-- Trades of contracts that archive/python-legacy/backend/app/ingestion/databento_live.py does not know
-- yet: they wait for a refresh of the registry and then go to the tape.
use mathlib.Core.List.{append-nil, append_assoc}
use ffllowwgreeks.Prelude.{
  ℕ, suc, ◌+◌, ◌-◌, ◌≤◌, ◌≡◌, refl, sym, ◌∙◌, ap, true, false, ◌&&◌, Option, none, some, List, [],
  ◌∷◌, ◌++◌, map, length, length-append, All, arith, if◌then◌else◌,
}
use ffllowwgreeks.Ingestion.Live.{Record, Contract, Settings, Live, TradeRow, no_data, keep_last}
use ffllowwgreeks.Ingestion.Live.Handlers.{
  known_trade, unmatched_trade, handle_trade, contract_of, state_of, park, is_zero_size,
}
use ffllowwgreeks.Ingestion.Live.Refresh.{
  Definition, fetched, refresh_end, replay, drain, is_known, load_all, any_loaded, nothing_known,
  swap_registry, bootstrap_registry,
}
use ffllowwgreeks.Ingestion.Live.Sound.{IsGood}
use ffllowwgreeks.Ingestion.Live.Effects.{
  plain, known_trade-registry, known_trade-quote_ts, known_trade-trades,
}

-- A print: its instrument's id less one, the contract, and the record.
abbrev pub Print : Type 0
Print = ℕ × Contract × Record

abbrev tag : Print → ℕ × Record
tag (i, c, r) = (suc i, r)

-- The rows of prints without quotes, in order.
unfoldable pub plain_rows : List Print → List TradeRow
unfolding plain
plain_rows [] = []
plain_rows ((i, c, r) ∷ ps) = plain c r ++ plain_rows ps

-- The handler on each print.
unfoldable pub handle_all : Settings → List Print → Live → Live
unfolding handle_trade
handle_all s [] l = l
handle_all s ((i, c, r) ∷ ps) l = handle_all s ps (handle_trade s r l)

-- The print is of its instrument, and is not dropped for its size.
abbrev pub IsPrint : Settings → Print → Type 0
IsPrint s (i, c, r) =
    (r.instrument_id ≡ some (suc i)) × ((s.drop_zero_size_trades && is_zero_size r) ≡ false)

contract_of-some :
    (l : Live) (i : ℕ) (c : Contract)
    → l.registry (suc i) ≡ some c
    → contract_of l (some (suc i)) ≡ some (suc i, c)
unfolding contract_of
contract_of-some l i c e = rw (e, contract_of)

contract_of-none :
    (l : Live) (i : ℕ) → l.registry (suc i) ≡ none → contract_of l (some (suc i)) ≡ none
unfolding contract_of
contract_of-none l i e = rw (e, contract_of)

keep_last-short {ℓ} : {A : Type ℓ} (n : ℕ) (xs : List A) → length xs ≤ n → keep_last n xs ≡ xs
unfolding keep_last
keep_last-short n xs h = let zero_over : length xs - n ≡ 0 = omega arith in rw zero_over

park-some :
    (r : Record) (i : ℕ) (xs : List (ℕ × Record))
    → r.instrument_id ≡ some i
    → park r xs ≡ keep_last 1000 (xs ++ ((i, r) ∷ []))
unfolding park
park-some r i xs e = ground arith

module _ (s : Settings) (i : ℕ) (c : Contract) (r : Record) (print : IsPrint s (i, c, r))
    (l : Live) where
  pub handle_trade-known :
      l.registry (suc i) ≡ some c → handle_trade s r l ≡ known_trade s (suc i) c r l
  unfolding handle_trade
  handle_trade-known e =
      let found = ap (contract_of l) print.0 ∙ contract_of-some l i c e in rw (print.1, found)

  handle_trade-unknown : l.registry (suc i) ≡ none → handle_trade s r l ≡ unmatched_trade r l
  unfolding handle_trade
  handle_trade-unknown e =
      let missing = ap (contract_of l) print.0 ∙ contract_of-none l i e in rw (print.1, missing)

  unmatched_trade-parked :
      length l.parked + 1 ≤ 1000 → (unmatched_trade r l).parked ≡ l.parked ++ ((suc i, r) ∷ [])
  unfolding unmatched_trade
  unmatched_trade-parked h =
      park-some r (suc i) l.parked print.0
      ∙ keep_last-short 1000 (l.parked ++ ((suc i, r) ∷ []))
          (omega (arith, length-append l.parked ((suc i, r) ∷ [])))

module _ (s : Settings) (registry : ℕ → Option Contract) (quotes : ℕ → Option ℕ) where
  abbrev IsKnown : Print → Type 0
  IsKnown (i, c, r) = IsPrint s (i, c, r) × (registry (suc i) ≡ some c) × (quotes (suc i) ≡ none)

  replay-trades :
      (ps : List Print) (l : Live)
      → All IsKnown ps
      → l.registry ≡ registry
      → ((j : ℕ) → (state_of l j).quote_ts ≡ quotes j)
      → (replay s (map tag ps) l).trades ≡ l.trades ++ plain_rows ps
  unfolding replay plain_rows
  replay-trades [] l h e q = sym (append-nil l.trades)
  replay-trades ((i, c, r) ∷ ps) l h e q =
      let l' = known_trade s (suc i) c r l in
      let here = ap (λ f. f (suc i)) e ∙ h.0.1 in
      let stepped : (if is_known (l.registry (suc i)) then handle_trade s r l else l) ≡ l' =
        rw here (handle_trade-known s i c r h.0.0 l here) in
      ap (λ m. (replay s (map tag ps) m).trades) stepped
      ∙ replay-trades ps l' h.1 (known_trade-registry s (suc i) c r l ∙ e)
          (λ j. known_trade-quote_ts s (suc i) c r l j ∙ q j)
      ∙ ap (λ rows. rows ++ plain_rows ps) (known_trade-trades s (suc i) c r l (q (suc i) ∙ h.0.2))
      ∙ append_assoc l.trades (plain c r) (plain_rows ps)

-- What parking leaves alone, and the parked prints.
record Waits (l : Live) (ps : List Print) (m : Live) : Type 0 where
  pub registry : m.registry ≡ l.registry
  pub state : m.state ≡ l.state
  pub trades : m.trades ≡ l.trades
  pub parked : m.parked ≡ l.parked ++ map tag ps

abbrev IsUnknown : Settings → (ℕ → Option Contract) → Print → Type 0
IsUnknown s registry (i, c, r) = IsPrint s (i, c, r) × (registry (suc i) ≡ none)

handle_all-Waits :
    (s : Settings) (ps : List Print) (l : Live)
    → All (IsUnknown s l.registry) ps
    → length l.parked + length ps ≤ 1000
    → Waits l ps (handle_all s ps l)
unfolding handle_all
handle_all-Waits s [] l h fits = record {
  registry = refl;
  state = refl;
  trades = refl;
  parked = sym (append-nil l.parked);
}
handle_all-Waits s ((i, c, r) ∷ ps) l h fits =
    let m = unmatched_trade r l in
    let grown = unmatched_trade-parked s i c r h.0.0 l (omega arith) in
    let rest : Waits m ps (handle_all s ps m) =
      handle_all-Waits s ps m h.1
        (omega (arith, ap length grown, length-append l.parked ((suc i, r) ∷ []))) in
    rw (handle_trade-unknown s i c r h.0.0 l h.0.1) record {
      registry = rest.registry;
      state = rest.state;
      trades = rest.trades;
      parked =
          rest.parked
          ∙ ap (λ parked. parked ++ map tag ps) grown
          ∙ append_assoc l.parked ((suc i, r) ∷ []) (map tag ps);
    }

-- A print of a contract that is in the fetched definitions but not yet in the registry.
unfoldable pub IsAwaited : Settings → List Definition → Live → Print → Type 0
IsAwaited s ds l (i, c, r) =
    IsPrint s (i, c, r) × (l.registry (suc i) ≡ none) × (load_all ds nothing_known (suc i) ≡ some c)

All-imp {ℓ κ μ} :
    {A : Type ℓ} (P : A → Type κ) (Q : A → Type μ) (f : (x : A) → P x → Q x) (xs : List A)
    → All P xs
    → All Q xs
All-imp P Q f [] h = tt
All-imp P Q f (x ∷ xs) h = (f x h.0, All-imp P Q f xs h.1)

swapped_quote :
    (registry : ℕ → Option Contract) (m : Live) (i : ℕ)
    → m.state i ≡ none
    → (state_of (swap_registry registry m) i).quote_ts ≡ none
unfolding swap_registry state_of no_data
swapped_quote registry m i e = ground arith

-- When nothing is parked, at most 1,000 prints of contracts that are not registered are handled, none
-- of which the filter on sizes drops, and a refresh that fetches the definitions of their contracts
-- ends, the prints with a price, a size and a moment are added to the tape, in order, each once and
-- without quotes, side or premium.
pub refresh_end-handle_all :
    (s : Settings) (ds : List Definition) (l : Live) (ps : List Print)
    → IsGood l
    → l.parked ≡ []
    → any_loaded ds ≡ true
    → length ps ≤ 1000
    → All (IsAwaited s ds l) ps
    → (refresh_end s (fetched ds) (handle_all s ps l)).trades ≡ l.trades ++ plain_rows ps
unfolding refresh_end drain bootstrap_registry IsAwaited
refresh_end-handle_all s ds l ps g empty loads fits awaited =
    let registry = load_all ds nothing_known in
    let m = handle_all s ps l in
    let unknown =
      All-imp (IsAwaited s ds l) (IsUnknown s l.registry) (λ p h. (h.0, h.1)) ps awaited in
    let w = handle_all-Waits s ps l unknown (omega (arith, ap length empty)) in
    let b = swap_registry registry m in
    let known =
      All-imp (IsAwaited s ds l) (IsKnown s registry (λ j. (state_of b j).quote_ts))
        (λ p h. (
          h.0,
          h.2,
          swapped_quote registry m (suc p.0)
              (ap (λ f. f (suc p.0)) w.state ∙ g.known (suc p.0) h.1),
        ))
        ps awaited in
    let start = record b { parked = [] } in
    let fresh : (if any_loaded ds then b else m) ≡ b = rw loads in
    ap (λ x. (drain s x).trades) fresh
    ∙ ap (λ xs. (replay s xs start).trades) (w.parked ∙ ap (λ xs. xs ++ map tag ps) empty)
    ∙ replay-trades s registry (λ j. (state_of b j).quote_ts) ps start known refl (λ j. refl)
    ∙ ap (λ rows. rows ++ plain_rows ps) w.trades
