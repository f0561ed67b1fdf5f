-- ===== src/Ingestion/Live/Sound.antt =====
-- What the live ingester of archive/python-legacy/backend/app/ingestion/databento_live.py keeps, and
-- what stands in the rows that it hands to the trade tape.
use ffllowwgreeks.Prelude.{
  ℕ, ◌+◌, ◌-◌, ◌*◌, ◌≤◌, ◌<◌, ◌≡◌, refl, ◌⊎◌, inl, inr, true, Option, none, some, List, length, All,
  All-append, length-drop, arith, Option-cases, ℤ, pos, negsuc, negate, times,
}
use ffllowwgreeks.Ingestion.Live.{
  Record, Contract, Side, buy, sell, at_mid, TradeRow, Settings, Live, Instrument, keep_last,
  record_ts,
}
use ffllowwgreeks.Ingestion.Live.Handlers.{
  quote_rule, against_mid, quote_fresh, side_of, signed_premium, trade_row, tape_trade, emit_row,
  state_of,
}

-- The side that a price and the sum of the quotes, which is twice the midpoint, give.
abbrev pub Agrees : Side → ℤ → ℕ → Type 0
Agrees buy (pos p) sum = sum < 2 * p
Agrees buy (negsuc p) sum = ⊥
Agrees sell (pos p) sum = 2 * p < sum
Agrees sell (negsuc p) sum = Unit
Agrees at_mid (pos p) sum = ◌≡◌ {A = ℕ} (2 * p) sum
Agrees at_mid (negsuc p) sum = ⊥

-- What the dealer takes on: the opposite of the customer's trade, 100 options to a contract.
abbrev pub premium : Side → ℕ → ℤ → Option ℤ
premium buy size p = some (negate (times (100 * size) p))
premium sell size p = some (times (100 * size) p)
premium at_mid size p = none

-- A row has neither a side nor a premium, or two positive uncrossed quotes that give both.
unfoldable pub IsHonest : TradeRow → Type 0
IsHonest t =
    ((t.side ≡ none) × (t.signed_premium ≡ none))
    ⊎ ((b : ℕ) × (a : ℕ) × (side : Side) × (t.bid ≡ some (pos b))
        × (t.ask ≡ some (pos a))
        × (0 < b)
        × (b + 1000 < a)
        × (t.side ≡ some side)
        × Agrees side t.price (b + a)
        × (t.signed_premium ≡ premium side t.size t.price))

against_mid-Agrees : (p : ℤ) (sum : ℕ) → Agrees (against_mid p sum) p sum
against_mid-Agrees (pos p) sum = ground arith
against_mid-Agrees (negsuc p) sum = tt

quote_rule-some :
    (bid ask : Option ℤ) (p : ℤ) (side : Side)
    → quote_rule bid ask p ≡ some side
    → (b : ℕ) × (a : ℕ) × (bid ≡ some (pos b))
      × (ask ≡ some (pos a))
      × (0 < b)
      × (b + 1000 < a)
      × (side ≡ against_mid p (b + a))
unfolding quote_rule
quote_rule-some (some (pos b)) (some (pos a)) p side h =
    (b, a, refl, refl, ground arith, ground arith, ground arith)
quote_rule-some (some (pos b)) (some (negsuc a)) p side h = absurd (ground arith)
quote_rule-some (some (pos b)) none p side h = absurd (ground arith)
quote_rule-some (some (negsuc b)) ask p side h = absurd (ground arith)
quote_rule-some none ask p side h = absurd (ground arith)

premium-signed_premium :
    (side : Side) (size : ℕ) (p : ℤ) → signed_premium (some side) size p ≡ premium side size p
unfolding signed_premium
premium-signed_premium buy size p = refl
premium-signed_premium sell size p = refl
premium-signed_premium at_mid size p = refl

pub emit_row-trades :
    (i : ℕ) (c : Contract) (r : Record) (l : Live) → (emit_row i c r l).trades ≡ l.trades
unfolding emit_row
emit_row-trades i c r l = ground arith

side_of-fresh :
    (s : Settings) (ts : ℕ) (r : Record) (x : Instrument) (p : ℤ) (side : Side)
    → side_of s ts r x p ≡ some side
    → (quote_fresh s ts x ≡ true) × (quote_rule x.bid x.ask p ≡ some side)
unfolding side_of
side_of-fresh s ts r x p side h = ground arith

trade_row-IsHonest :
    (s : Settings) (ts : ℕ) (c : Contract) (r : Record) (x : Instrument) (p : ℤ) (n : ℕ)
    → IsHonest (trade_row s ts c r x p n)
unfolding trade_row IsHonest
trade_row-IsHonest s ts c r x p n = elim (Option-cases (side_of s ts r x p)) [
  | inl e ↦ inl (e, rw e)
  | inr (side, e) ↦
      let (fresh, rule) = side_of-fresh s ts r x p side e in
      let (b, a, eb, ea, positive, gap, es) = quote_rule-some x.bid x.ask p side rule in
      inr (
        b,
        a,
        side,
        rw fresh eb,
        rw fresh ea,
        positive,
        gap,
        e,
        rw es (against_mid-Agrees p (b + a)),
        rw e (premium-signed_premium side n p),
      )
]

-- Nothing is kept of an id that is not registered, what is bounded keeps its bound, and the rows of
-- the tape are honest.
pub record IsGood (l : Live) : Type 0 where
  pub known : (i : ℕ) → l.registry i ≡ none → l.state i ≡ none
  pub parked : length l.parked ≤ 1000
  pub errors : length l.error_messages ≤ 10
  pub systems : length l.system_messages ≤ 10
  pub honest : All IsHonest l.trades

pub length-keep_last {ℓ} : {A : Type ℓ} (n : ℕ) (xs : List A) → length (keep_last n xs) ≤ n
unfolding keep_last
length-keep_last n xs = omega (arith, length-drop (length xs - n) xs)

-- The same ingester but for its rows, its counters and its moments.
pub record Alike (l m : Live) : Type 0 where
  pub registry : m.registry ≡ l.registry
  pub state : m.state ≡ l.state
  pub parked : m.parked ≡ l.parked
  pub error_messages : m.error_messages ≡ l.error_messages
  pub system_messages : m.system_messages ≡ l.system_messages

pub Alike-IsGood : (l m : Live) → Alike l m → All IsHonest m.trades → IsGood l → IsGood m
Alike-IsGood l m a h g = record {
  known = λ i none_here. rw a.state (g.known i (rw (← a.registry) none_here));
  parked = rw a.parked g.parked;
  errors = rw a.error_messages g.errors;
  systems = rw a.system_messages g.systems;
  honest = h;
}

pub emit_row-Alike : (i : ℕ) (c : Contract) (r : Record) (l : Live) → Alike l (emit_row i c r l)
unfolding emit_row
emit_row-Alike i c r l = ground arith

pub tape_trade-Alike :
    (s : Settings) (i : ℕ) (c : Contract) (r : Record) (p : ℤ) (n : ℕ) (l : Live)
    → Alike l (tape_trade s i c r p n l)
unfolding tape_trade
tape_trade-Alike s i c r p n l = ground arith

pub tape_trade-IsHonest :
    (s : Settings) (i : ℕ) (c : Contract) (r : Record) (p : ℤ) (n : ℕ) (l : Live)
    → All IsHonest l.trades
    → All IsHonest (tape_trade s i c r p n l).trades
unfolding tape_trade
tape_trade-IsHonest s i c r p n l h = elim (Option-cases (record_ts r)) [
  | inl e ↦ rw (e, tape_trade) h
  | inr (ts, e) ↦
      rw (e, tape_trade)
        (All-append IsHonest l.trades _ h (trade_row-IsHonest s ts c r (state_of l i) p n, tt))
]
