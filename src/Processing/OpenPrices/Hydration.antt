-- ===== src/Processing/OpenPrices/Hydration.antt =====
-- What a recovery of the session-open prices of move_tracker.py leaves and reports.
use ffllowwgreeks.Prelude.{
  ℕ, zero, suc, ◌≡◌, refl, ap, inl, inr, Bool, false, ◌||◌, Option, none, some, List, [], ◌∷◌,
  arith, if◌then◌else◌, Text, upper, same, same_iff, upper-upper, Bool-cases,
}
use mathlib.Core.Option.{some-injective}
use mathlib.Core.Path.{subst}
use ffllowwgreeks.Prelude.Dict
use ffllowwgreeks.Prelude.Dict.{Dict, get-put, get-empty}
use ffllowwgreeks.Processing.Json.{pos, neg}
use ffllowwgreeks.Processing.OpenPrices.{
  OpenPrices, Float, nan, infinite, Answer, query_failed, no_row, row, price_of, usable, finite,
  register, set_session_open_price, hydrated_price, hydrate_one, hydrate,
  hydrate_session_open_prices_from_db,
}

-- The symbol is one of the list, in any spelling.
abbrev pub listed : Text → List Text → Bool
listed k [] = false
listed k (s ∷ symbols) = same (upper s) k || listed k symbols

abbrev pub recovered : Option ℕ → Option ℕ → Option ℕ
recovered none before = before
recovered (some p) before = some p

-- A recovered price is positive, so that `set_session_open_price` takes it.
register_recovered :
    (s k : Text) (a : Option ℕ) (prices : OpenPrices) (out : Dict (Option ℕ))
    → ((p : ℕ) → a ≡ some p → usable (finite (pos p)) ≡ some p)
    → (Dict.get (hydrate_one (upper s) a prices out).0 k
        ≡ (if same (upper s) k then recovered a (Dict.get prices k) else Dict.get prices k))
      × (Dict.get (hydrate_one (upper s) a prices out).1 k
          ≡ (if same (upper s) k then some a else Dict.get out k))
unfolding hydrate_one set_session_open_price register
register_recovered s k none prices out h = (ground arith, get-put out (upper s) k none)
register_recovered s k (some p) prices out h =
    rw (h p refl, register, upper-upper s)
      (get-put prices (upper s) k p, get-put out (upper s) k (some p))

usable_again : (x : Float) (p : ℕ) → usable x ≡ some p → usable (finite (pos p)) ≡ some p
unfolding usable
usable_again (finite (pos (suc n))) p h =
    subst (λ q. usable (finite (pos q)) ≡ some q) (some-injective _ _ h) refl
usable_again (finite (pos zero)) p h = cc
usable_again (finite (neg n)) p h = cc
usable_again nan p h = cc
usable_again infinite p h = cc

price_again :
    (o : Option Float) (p : ℕ)
    → (elim o [ none ↦ none | some price ↦ usable price ]) ≡ some p
    → usable (finite (pos p)) ≡ some p
price_again none p h = cc
price_again (some x) p h = usable_again x p h

positive : (a : Answer) (p : ℕ) → hydrated_price a ≡ some p → usable (finite (pos p)) ≡ some p
unfolding hydrated_price
positive query_failed p h = cc
positive no_row p h = cc
positive (row j) p h = price_again (price_of j) p h

recovered_again : (a b : Option ℕ) → recovered a (recovered a b) ≡ recovered a b
recovered_again none b = refl
recovered_again (some p) b = refl

-- The registry and the report at a symbol, after the loop over the list.
abbrev pub After :
    (Text → Answer)
    → List Text
    → OpenPrices
    → Dict (Option ℕ)
    → Text
    → OpenPrices × Dict (Option ℕ)
    → Type 0
After query symbols prices out k r =
    (Dict.get r.0 k ≡ (
      if listed k symbols
      then recovered (hydrated_price (query k)) (Dict.get prices k)
      else Dict.get prices k))
    × (Dict.get r.1 k
        ≡ (if listed k symbols then some (hydrated_price (query k)) else Dict.get out k))

hydrate_lem :
    (query : Text → Answer) (symbols : List Text) (prices : OpenPrices) (out : Dict (Option ℕ))
    (k : Text)
    → After query symbols prices out k (hydrate query symbols prices out)
unfolding hydrate
hydrate_lem query [] prices out k = (refl, refl)
hydrate_lem query (s ∷ symbols) prices out k =
    let a = hydrated_price (query (upper s)) in
    let (kept, told) = register_recovered s k a prices out (positive (query (upper s))) in
    let one = hydrate_one (upper s) a prices out in
    let (rest, tail) = hydrate_lem query symbols one.0 one.1 k in
    elim (Bool-cases (same (upper s) k)) [
      | inl hit ↦
          let e : a ≡ hydrated_price (query k) =
            ap (λ x. hydrated_price (query x)) ((same_iff (upper s) k).0 hit) in
          let again = recovered_again (hydrated_price (query k)) (Dict.get prices k) in
          (ground (arith, rest, kept, e, again), ground (arith, tail, told, e))
      | inr miss ↦ (ground (arith, rest, kept), ground (arith, tail, told))
    ]

-- After a recovery, a symbol of the list, in any spelling, has the price of its audit row if that is
-- a finite positive number (or `true`), else the price it had; other symbols keep theirs. The report
-- holds that price, or none, for the symbols of the list, and nothing for the others.
pub hydrate_session_open_prices_from_db_lem :
    (query : Text → Answer) (symbols : List Text) (prices : OpenPrices) (k : Text)
    → After query symbols prices Dict.empty k
        (hydrate_session_open_prices_from_db query symbols prices)
unfolding hydrate_session_open_prices_from_db
hydrate_session_open_prices_from_db_lem query symbols prices k =
    hydrate_lem query symbols prices Dict.empty k
