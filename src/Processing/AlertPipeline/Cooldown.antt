-- ===== src/Processing/AlertPipeline/Cooldown.antt =====
-- The cooldown of the rules of alert_pipeline.py.
use ffllowwgreeks.Prelude.{
  ℕ, ◌+◌, ◌<◌, ◌≡◌, refl, ap, sym, ◌∙◌, inl, inr, Bool, true, false, ◌&&◌, map, Option, none, some,
  List, [], ◌∷◌, ◌++◌, All, arith, ◌==◌, if◌then◌else◌, Text, same, Bool-cases, Option-cases,
}
use mathlib.Core.Option.{some-injective}
use ffllowwgreeks.Prelude.Dict
use ffllowwgreeks.Processing.AlertPipeline.{
  Payload, Rule, Event, Pipeline, Evaluator, cooldown_of, elem, rules_for, is_cooling, mark_fired,
  event_of, try_rule, fired_events, rule_ids, store, evaluate_rules, run_alert_pipeline,
}

pub record Tick {ℓ} (J : Type ℓ) : Type ℓ where
  pub symbol : Text
  pub now : ℕ
  pub payload : Payload J

-- How often a rule fired.
abbrev pub count {ℓ} : {J : Type ℓ} → ℕ → List (Event J) → ℕ
count k [] = 0
count k (e ∷ es) = (if e.rule_id == k then 1 else 0) + count k es

-- A rule, if it is number `k`, has the cooldown `c`; and also fired at `t`.
abbrev pub Cools {ℓ} : {R : Type ℓ} → ℕ → ℕ → Rule R → Type 0
Cools k c r = r.id ≡ k → cooldown_of r.cooldown_seconds ≡ c

abbrev Locked {ℓ} : {R : Type ℓ} → ℕ → ℕ → ℕ → Rule R → Type 0
Locked k t c r = r.id ≡ k → (r.last_fired_at ≡ some t) × (cooldown_of r.cooldown_seconds ≡ c)

module _ {ℓ} {J : Type ℓ} where
  count-append : (k : ℕ) (xs ys : List (Event J)) → count k (xs ++ ys) ≡ count k xs + count k ys
  count-append k [] ys = omega arith
  count-append k (x ∷ xs) ys = omega (arith, count-append k xs ys)

  count_absent : (k : ℕ) (es : List (Event J)) → elem k (rule_ids es) ≡ false → count k es ≡ 0
  count_absent k [] h = refl
  count_absent k (e ∷ es) h = ground (arith, count_absent k es)

module _ {ℓ} {R : Type ℓ} where
  All-rules_for :
      (P : Rule R → Type 0) (symbol : Text) (table : List (Rule R))
      → All P table
      → All P (rules_for symbol table)
  unfolding rules_for
  All-rules_for P symbol [] h = tt
  All-rules_for P symbol (r ∷ table) h = elim (Bool-cases (r.enabled && same r.symbol symbol)) [
    | inl takes ↦ rw takes (h.0, All-rules_for P symbol table h.1)
    | inr leaves ↦ rw leaves (All-rules_for P symbol table h.1)
  ]

  Locked-mark_fired :
      (k t c now : ℕ) (fired : List ℕ) (table : List (Rule R))
      → elem k fired ≡ false
      → All (Locked k t c) table
      → All (Locked k t c) (mark_fired now fired table)
  unfolding mark_fired
  Locked-mark_fired k t c now fired [] absent h = tt
  Locked-mark_fired k t c now fired (r ∷ table) absent h =
      (here, Locked-mark_fired k t c now fired table absent h.1)
    where
      here : Locked k t c (if elem r.id fired then record r { last_fired_at = some now } else r)
      here = elim (Bool-cases (elem r.id fired)) [
        | inl marked ↦ rw marked (λ e. absurd (cc (e, marked, absent)))
        | inr unmarked ↦ rw unmarked h.0
      ]

  mark_fired-Locked :
      (k c now : ℕ) (fired : List ℕ) (table : List (Rule R))
      → elem k fired ≡ true
      → All (Cools k c) table
      → All (Locked k now c) (mark_fired now fired table)
  unfolding mark_fired
  mark_fired-Locked k c now fired [] there h = tt
  mark_fired-Locked k c now fired (r ∷ table) there h =
      (here, mark_fired-Locked k c now fired table there h.1)
    where
      here : Locked k now c (if elem r.id fired then record r { last_fired_at = some now } else r)
      here = elim (Bool-cases (elem r.id fired)) [
        | inl marked ↦ rw marked (λ e. (refl, h.0 e))
        | inr unmarked ↦ rw unmarked (λ e. absurd (cc (e, unmarked, there)))
      ]

  Locked-is_cooling :
      (k t c now : ℕ) (r : Rule R)
      → Locked k t c r
      → now < t + c
      → r.id ≡ k
      → is_cooling now r ≡ true
  unfolding is_cooling
  Locked-is_cooling k t c now r h soon e = let (at, cool) = h e in rw at (ground arith)

guarded {ℓ} :
    {A : Type ℓ} (b : Bool) (o : Option A) (a : A)
    → (if b then none else o) ≡ some a
    → (b ≡ false) × (o ≡ some a)
guarded true o a h = cc
guarded false o a h = (refl, h)

module _ {ℓ} {R J : Type ℓ} (evaluate : Evaluator R J) where
  event_of_id :
      (symbol : Text) (now : ℕ) (payload : Payload J) (r : Rule R) (o : Option (Bool × List Text))
      (e : Event J)
      → event_of evaluate symbol now payload r o ≡ some e
      → e.rule_id ≡ r.id
  unfolding event_of
  event_of_id symbol now payload r none e h = cc
  event_of_id symbol now payload r (some (false, m)) e h = cc
  event_of_id symbol now payload r (some (true, m)) e h =
      sym (ap (λ x. x.rule_id) (some-injective _ _ h))

  -- What a rule emits carries its number, and a rule that cools emits nothing.
  try_rule_id :
      (symbol : Text) (now : ℕ) (payload : Payload J) (previous : Option (Payload J)) (r : Rule R)
      (e : Event J)
      → try_rule evaluate symbol now payload previous r ≡ some e
      → (e.rule_id ≡ r.id) × (is_cooling now r ≡ false)
  unfolding try_rule
  try_rule_id symbol now payload previous r e h =
      let (awake, outcome) = guarded (is_cooling now r) _ e h in
      (event_of_id symbol now payload r (evaluate r.rule payload previous) e outcome, awake)

  silent :
      (k t c : ℕ) (symbol : Text) (now : ℕ) (payload : Payload J) (previous : Option (Payload J))
      (rules : List (Rule R))
      → now < t + c
      → All (Locked k t c) rules
      → elem k (rule_ids (fired_events evaluate symbol now payload previous rules)) ≡ false
  unfolding fired_events
  silent k t c symbol now payload previous [] soon h = refl
  silent k t c symbol now payload previous (r ∷ rules) soon h =
      let rest = silent k t c symbol now payload previous rules soon h.1 in
      elim (Option-cases (try_rule evaluate symbol now payload previous r)) [
        | inl quiet ↦ rw (quiet, elem, map) rest
        | inr (e, fires) ↦
            let (same_id, awake) = try_rule_id symbol now payload previous r e fires in
            rw (fires, elem, map)
              (elim (Bool-cases (e.rule_id == k)) [
                | inl hit ↦
                    let i : r.id ≡ k = ground (arith, same_id) in
                    absurd (cc (Locked-is_cooling k t c now r h.0 soon i, awake))
                | inr miss ↦ ground (arith, rest)
              ])
      ]

  store-Locked :
      (k t c now : ℕ) (es : List (Event J)) (p : Pipeline R J)
      → elem k (rule_ids es) ≡ false
      → All (Locked k t c) p.rules
      → All (Locked k t c) (store now es p).0.rules
        × (count k (store now es p).0.events ≡ count k p.events)
  unfolding store
  store-Locked k t c now [] p absent h = (h, refl)
  store-Locked k t c now (e ∷ es) p absent h = (
    Locked-mark_fired k t c now (rule_ids (e ∷ es)) p.rules absent h,
    omega (arith, count-append k p.events (e ∷ es), count_absent k (e ∷ es) absent),
  )

  tick-Locked :
      (k t c : ℕ) (symbol : Text) (now : ℕ) (payload : Payload J) (rules : List (Rule R))
      (p : Pipeline R J)
      → now < t + c
      → All (Locked k t c) rules
      → All (Locked k t c) p.rules
      → let q = (evaluate_rules evaluate symbol now payload rules p).0 in
        All (Locked k t c) q.rules × (count k q.events ≡ count k p.events)
  unfolding evaluate_rules
  tick-Locked k t c symbol now payload [] p soon hr h = (h, refl)
  tick-Locked k t c symbol now payload (r ∷ rules) p soon hr h =
      store-Locked k t c now _ _
        (silent k t c symbol now payload (Dict.get p.last_payload symbol) (r ∷ rules) soon hr) h

  unfoldable pub run : List (Tick J) → Pipeline R J → Pipeline R J
  run [] p = p
  run (t ∷ ticks) p = run ticks (run_alert_pipeline evaluate t.symbol t.now t.payload p).0

  run-Locked :
      (k t c : ℕ) (ticks : List (Tick J)) (p : Pipeline R J)
      → All (λ tick. tick.now < t + c) ticks
      → All (Locked k t c) p.rules
      → count k (run ticks p).events ≡ count k p.events
  unfolding run run_alert_pipeline
  run-Locked k t c [] p soon h = refl
  run-Locked k t c (tick ∷ ticks) p soon h =
      let (kept, same_count) =
        tick-Locked k t c tick.symbol tick.now tick.payload (rules_for tick.symbol p.rules) p soon.0
          (All-rules_for (Locked k t c) tick.symbol p.rules h) h in
      run-Locked k t c ticks (run_alert_pipeline evaluate tick.symbol tick.now tick.payload p).0
        soon.1 kept
      ∙ same_count

  -- A tick that adds an event of rule `k` marks the rule.
  store-fired :
      (k c now : ℕ) (es : List (Event J)) (p : Pipeline R J)
      → count k p.events < count k (store now es p).0.events
      → All (Cools k c) p.rules
      → All (Locked k now c) (store now es p).0.rules
  unfolding store
  store-fired k c now [] p more h = absurd (omega arith)
  store-fired k c now (e ∷ es) p more h = elim (Bool-cases (elem k (rule_ids (e ∷ es)))) [
    | inl there ↦ mark_fired-Locked k c now (rule_ids (e ∷ es)) p.rules there h
    | inr absent ↦
        absurd (omega (arith, count-append k p.events (e ∷ es), count_absent k (e ∷ es) absent))
  ]

  tick-fired :
      (k c : ℕ) (symbol : Text) (now : ℕ) (payload : Payload J) (rules : List (Rule R))
      (p : Pipeline R J)
      → count k p.events < count k (evaluate_rules evaluate symbol now payload rules p).0.events
      → All (Cools k c) p.rules
      → All (Locked k now c) (evaluate_rules evaluate symbol now payload rules p).0.rules
  unfolding evaluate_rules
  tick-fired k c symbol now payload [] p more h = absurd (omega arith)
  tick-fired k c symbol now payload (r ∷ rules) p more h = store-fired k c now _ _ more h

  -- If a tick at `now` adds an event of rule `k`, whose cooldown is `c`, then no ticks at times
  -- before `now + c`, for any symbols and payloads, add another event of the rule.
  pub run-silent :
      (k c : ℕ) (symbol : Text) (now : ℕ) (payload : Payload J) (ticks : List (Tick J))
      (p : Pipeline R J)
      → All (Cools k c) p.rules
      → let q = (run_alert_pipeline evaluate symbol now payload p).0 in
        count k p.events < count k q.events
        → All (λ tick. tick.now < now + c) ticks
        → count k (run ticks q).events ≡ count k q.events
  unfolding run_alert_pipeline
  run-silent k c symbol now payload ticks p h more soon =
      run-Locked k now c ticks (run_alert_pipeline evaluate symbol now payload p).0 soon
        (tick-fired k c symbol now payload (rules_for symbol p.rules) p more h)
