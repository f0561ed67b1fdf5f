-- ===== src/Processing/AlertPipeline.antt =====
-- archive/python-legacy/backend/app/processing/alert_pipeline.py: rules are evaluated against the
-- latest snapshot of a symbol, and what fires is stored. The tables `alert_rules` and `alert_events`
-- are lists, times are in microseconds, the snapshot that the database gives is an argument, and so
-- is the evaluator of the rules.
pub mod Cooldown
use ffllowwgreeks.Prelude.{
  ℕ, ◌+◌, ◌*◌, Bool, true, false, not, ◌&&◌, Option, none, some, List, [], ◌∷◌, ◌++◌, map, ltb, leb,
  if◌then◌else◌, Text, same, length, ◌==◌, ◌||◌,
}
use ffllowwgreeks.Prelude.Dict
use ffllowwgreeks.Prelude.Dict.{Dict}

-- A value in a metric's entry, and a metric of the snapshot.
pub data Cell {ℓ} (J : Type ℓ) : Type ℓ where
  listing : List J → Cell J
  scalar : J → Cell J

pub data Metric {ℓ} (J : Type ℓ) : Type ℓ where
  entry : List (Text × Cell J) → Metric J
  other : J → Metric J

abbrev pub Payload {ℓ} : Type ℓ → Type ℓ
Payload J = List (Text × Metric J)

-- A row of `alert_rules`.
pub record Rule {ℓ} (R : Type ℓ) : Type ℓ where
  pub id : ℕ
  pub symbol : Text
  pub enabled : Bool
  pub rule : R
  pub cooldown_seconds : Option ℕ
  pub last_fired_at : Option ℕ

-- A row of `alert_events`.
pub record Event {ℓ} (J : Type ℓ) : Type ℓ where
  pub rule_id : ℕ
  pub ts : ℕ
  pub symbol : Text
  pub matched : List Text
  pub payload : Payload J

-- The tables and `_LAST_PAYLOAD`.
pub record Pipeline {ℓ} (R J : Type ℓ) : Type ℓ where
  pub rules : List (Rule R)
  pub events : List (Event J)
  pub last_payload : Dict (Payload J)

-- `evaluate`: whether the rule fires and the clauses that matched; `none` is an exception.
abbrev pub Evaluator {ℓ} : Type ℓ → Type ℓ → Type ℓ
Evaluator R J = R → Payload J → Option (Payload J) → Option (Bool × List Text)

-- `timedelta(seconds=int(cooldown_seconds or 0))`
abbrev pub cooldown_of : Option ℕ → ℕ
cooldown_of none = 0
cooldown_of (some seconds) = seconds * 1_000_000

abbrev pub elem : ℕ → List ℕ → Bool
elem k [] = false
elem k (j ∷ js) = j == k || elem k js

module _ {ℓ} {J : Type ℓ} where
  short : Cell J → Bool
  short (scalar j) = true
  short (listing js) = leb (length js) 10

  short_cells : List (Text × Cell J) → List (Text × Cell J)
  unfolding short
  short_cells [] = []
  short_cells ((k, c) ∷ cells) =
      let rest = short_cells cells in if short c then (k, c) ∷ rest else rest

  unfoldable pub shrink_payload : Payload J → Payload J
  unfolding short_cells
  shrink_payload [] = []
  shrink_payload ((k, entry cells) ∷ payload) =
      (k, entry (short_cells cells)) ∷ shrink_payload payload
  shrink_payload ((k, other j) ∷ payload) = (k, other j) ∷ shrink_payload payload

module _ {ℓ} {R : Type ℓ} where
  -- The rules of the query: enabled, and for the symbol.
  unfoldable pub rules_for : Text → List (Rule R) → List (Rule R)
  rules_for symbol [] = []
  rules_for symbol (r ∷ table) =
      let rest = rules_for symbol table in
      if r.enabled && same r.symbol symbol then r ∷ rest else rest

  -- The last firing is less than the cooldown ago.
  unfoldable pub is_cooling : ℕ → Rule R → Bool
  is_cooling now r = elim r.last_fired_at [
    | none ↦ false
    | some at ↦ ltb now (at + cooldown_of r.cooldown_seconds)
  ]

  -- `update(AlertRule).where(id in fired_rule_ids).values(last_fired_at=now)`
  unfoldable pub mark_fired : ℕ → List ℕ → List (Rule R) → List (Rule R)
  mark_fired now fired [] = []
  mark_fired now fired (r ∷ table) =
      (if elem r.id fired then record r { last_fired_at = some now } else r)
      ∷ mark_fired now fired table

abbrev pub rule_ids {ℓ} : {J : Type ℓ} → List (Event J) → List ℕ
rule_ids es = map (λ e. e.rule_id) es

module _ {ℓ} {R J : Type ℓ} where
  -- The second session, which writes what fired.
  unfoldable pub store : ℕ → List (Event J) → Pipeline R J → Pipeline R J × ℕ
  unfolding mark_fired
  store now [] p = (p, 0)
  store now (e ∷ es) p = (
    record p { events = p.events ++ e ∷ es; rules = mark_fired now (rule_ids (e ∷ es)) p.rules },
    length (e ∷ es),
  )

module _ {ℓ} {R J : Type ℓ} (evaluate : Evaluator R J) where
  -- The end of the loop's body, for an outcome.
  unfoldable pub event_of :
      Text → ℕ → Payload J → Rule R → Option (Bool × List Text) → Option (Event J)
  event_of symbol now payload r none = none
  event_of symbol now payload r (some (false, matched)) = none
  event_of symbol now payload r (some (true, matched)) = some (record {
    rule_id = r.id;
    ts = now;
    symbol = symbol;
    matched = matched;
    payload = shrink_payload payload;
  })

  unfoldable pub try_rule : Text → ℕ → Payload J → Option (Payload J) → Rule R → Option (Event J)
  unfolding is_cooling event_of
  try_rule symbol now payload previous r =
      if is_cooling now r
      then none
      else event_of symbol now payload r (evaluate r.rule payload previous)

  -- The loop over the rules.
  unfoldable pub fired_events :
      Text → ℕ → Payload J → Option (Payload J) → List (Rule R) → List (Event J)
  unfolding try_rule
  fired_events symbol now payload previous [] = []
  fired_events symbol now payload previous (r ∷ rules) =
      let rest = fired_events symbol now payload previous rules in
      elim (try_rule symbol now payload previous r) [ none ↦ rest | some e ↦ e ∷ rest ]

  unfoldable pub evaluate_rules :
      Text → ℕ → Payload J → List (Rule R) → Pipeline R J → Pipeline R J × ℕ
  unfolding fired_events store
  evaluate_rules symbol now payload [] p = (p, 0)
  evaluate_rules symbol now payload (r ∷ rules) p =
      store now (fired_events symbol now payload (Dict.get p.last_payload symbol) (r ∷ rules))
        (record p { last_payload = Dict.put p.last_payload symbol payload })

  unfoldable pub run_alert_pipeline : Text → ℕ → Payload J → Pipeline R J → Pipeline R J × ℕ
  unfolding rules_for evaluate_rules
  run_alert_pipeline symbol now payload p =
      evaluate_rules symbol now payload (rules_for symbol p.rules) p
