-- ===== src/Examples/AlertTrees.antt =====
-- A rule of alerts.py with two clauses on one metric, and one that requires nothing.
use ffllowwgreeks.Prelude.{◌≡◌, refl, ◌↔◌, Option, none, some, [], true, Text, codes, same}
use ffllowwgreeks.Processing.Json.{
  Number, pos, Json, number, array, object, no_items, no_fields, field,
}
use ffllowwgreeks.Processing.Alerts.{
  walk, get, leaf, is_met, numeric, cross, resolve, follow, split, step_into, float,
}
use ffllowwgreeks.Processing.Alerts.Fires.{
  Condition, compare, any_of, no_conditions, condition, encode, Holds, Reported, walk-encode,
}

abbrev no_number : Text → Option Number
no_number t = none

abbrev clause : Text → Condition
clause op = compare (codes "gex.value") op (number (pos 5))

abbrev either_way : Condition
either_way =
    any_of
      (condition (clause (codes "lt")) (condition (clause (codes "cross_above")) no_conditions))

abbrev snapshot : Number → Json
snapshot n =
    object (field (codes "gex") (object (field (codes "value") (number n) no_fields)) no_fields)

-- The value was 4 and is 7.
walk-encode_example :
    (((walk no_number no_number (snapshot (pos 7)) (some (snapshot (pos 4))) (encode either_way)).0
        ≡ true)
      ↔ Holds no_number no_number (snapshot (pos 7)) (some (snapshot (pos 4))) either_way)
    × Reported no_number no_number
        (snapshot (pos 7))
        (some (snapshot (pos 4)))
        (walk no_number no_number
          (snapshot (pos 7))
          (some (snapshot (pos 4)))
          (encode either_way)).1
walk-encode_example =
    walk-encode no_number no_number (snapshot (pos 7)) (some (snapshot (pos 4))) either_way
      (encode either_way)

it_fires :
    (walk no_number no_number (snapshot (pos 7)) (some (snapshot (pos 4))) (encode either_way)).0
    ≡ true
unfolding walk encode get leaf is_met numeric cross resolve follow split step_into float same
it_fires = refl

-- A list of no clauses holds, so such a rule fires on each snapshot.
nothing_required :
    walk no_number no_number
      (snapshot (pos 7))
      none
      (object (field (codes "all") (array no_items) no_fields))
    ≡ (true, [])
unfolding walk same
nothing_required = refl
