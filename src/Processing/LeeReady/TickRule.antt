-- ===== src/Processing/LeeReady/TickRule.antt =====
-- What the tick rule of lee_ready.py does on a zero tick.
use ffllowwgreeks.Prelude.{
  ℕ, suc, ◌≡◌, refl, ap, Bool, ◌&&◌, Option, List, [], ◌∷◌, ◌++◌, arith, inl, inr, Bool-cases,
  length, drop,
}
use ffllowwgreeks.Processing.LeeReady.{
  Price, nan, neg_inf, pos_inf, num, Side, unclassified, Trade, quote_of, tick_side, halted, sides,
}
use ffllowwgreeks.Processing.LeeReady.OnePass.{known, one_pass, sides-one_pass}

no_tick : (p : ℕ) → tick_side (num p) (num p) ≡ unclassified
unfolding tick_side
no_tick p = ground arith

no_reference : (p : Price) → tick_side p nan ≡ unclassified
unfolding tick_side
no_reference (num p) = refl
no_reference nan = refl
no_reference neg_inf = refl
no_reference pos_inf = refl

here :
    (has_ts : Bool) (threshold : ℕ) (above : Option ℕ) (last : Price) (u : Trade)
    (rest : List Trade) (p : ℕ)
    → last ≡ num p
    → u.price ≡ num p
    → quote_of u ≡ unclassified
    → one_pass has_ts threshold above last (u ∷ rest)
      ≡ unclassified ∷ one_pass has_ts threshold u.ts (known last u.price) rest
unfolding one_pass
here has_ts threshold above last u rest p known_last price open_row =
    elim (Bool-cases (has_ts && halted threshold above u.ts)) [
      | inl halt ↦ rw (halt, open_row, no_reference u.price) refl
      | inr no_halt ↦ rw (no_halt, open_row, known_last, price, no_tick p) refl
    ]

later :
    (has_ts : Bool) (threshold : ℕ) (before : List Trade) (above : Option ℕ) (last : Price)
    (t u : Trade) (rest : List Trade) (p : ℕ)
    → t.price ≡ num p
    → u.price ≡ num p
    → quote_of u ≡ unclassified
    → (after : List Side) × (drop
          (suc (length before))
          (one_pass has_ts threshold above last (before ++ t ∷ u ∷ rest))
        ≡ unclassified ∷ after)
unfolding one_pass
later has_ts threshold [] above last t u rest p first second open_row = (
  _,
  here has_ts threshold t.ts (known last t.price) u rest p (ap (known last) first) second open_row,
)
later has_ts threshold (b ∷ before) above last t u rest p first second open_row =
    later has_ts threshold before b.ts (known last b.price) t u rest p first second open_row

-- A trade that repeats the finite price of the trade before it, and that the quote rule leaves
-- open, is unclassified, whatever prices came before the two.
pub zero_tick-unclassified :
    (has_ts : Bool) (threshold : ℕ) (before : List Trade) (t u : Trade) (rest : List Trade) (p : ℕ)
    → t.price ≡ num p
    → u.price ≡ num p
    → quote_of u ≡ unclassified
    → (after : List Side) × (drop
          (suc (length before))
          (sides has_ts threshold (before ++ t ∷ u ∷ rest))
        ≡ unclassified ∷ after)
zero_tick-unclassified has_ts threshold before t u rest p first second open_row =
    rw (sides-one_pass has_ts threshold (before ++ t ∷ u ∷ rest))
      (later has_ts threshold before _ _ t u rest p first second open_row)
