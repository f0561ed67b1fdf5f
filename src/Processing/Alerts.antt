-- ===== src/Processing/Alerts.antt =====
-- archive/python-legacy/backend/app/processing/alerts.py: rules are JSON trees of comparisons, `all`
-- and `any`, evaluated against a snapshot. Numbers are whole multiples of a millionth; Python's
-- `int` and `float` on strings are arguments.

pub mod Matched
pub mod Numbers
pub mod Meaning
pub mod Fires
use ffllowwgreeks.Prelude.{
  ℕ, zero, suc, ◌+◌, ◌-◌, Bool, true, false, not, ◌&&◌, ◌||◌, Option, none, some, List, [], ◌∷◌,
  ◌++◌, ltb, leb, ◌==◌, if◌then◌else◌, Text, codes, same,
}
use ffllowwgreeks.Processing.Json.{
  Number, pos, neg, Json, null, boolean, number, string, array, object, Items, no_items, item,
  Fields, no_fields, field,
}

abbrev pub below : Number → Number → Bool
below (pos m) (pos n) = ltb m n
below (pos m) (neg n) = false
below (neg m) (pos n) = true
below (neg m) (neg n) = ltb n m

abbrev pub magnitude : Number → Number
magnitude (pos n) = pos n
magnitude (neg n) = pos (n + 1)

-- `_OPS_NUMERIC`, by name.
unfoldable pub numeric : Text → Option (Number → Number → Bool)
numeric op =
    if same op (codes "gt")
    then some (λ a b. below b a)
    else if same op (codes "lt")
    then some below
    else if same op (codes "ge")
    then some (λ a b. not (below a b))
    else if same op (codes "le")
    then some (λ a b. not (below b a))
    else if same op (codes "eq")
    then some (λ a b. not (below a b) && not (below b a))
    else if same op (codes "ne")
    then some (λ a b. below a b || below b a)
    else if same op (codes "abs_gt")
    then some (λ a b. below b (magnitude a))
    else if same op (codes "abs_lt")
    then some (λ a b. below (magnitude a) b)
    else none

abbrev pub crosses_above : Number → Number → Number → Bool
crosses_above prev cur threshold = not (below threshold prev) && below threshold cur

abbrev pub crosses_below : Number → Number → Number → Bool
crosses_below prev cur threshold = not (below prev threshold) && below cur threshold

-- node.get(key); a missing key and the value `null` are both None.
unfoldable pub get : Text → Fields → Json
get key no_fields = null
get key (field k v fs) = let rest = get key fs in if same k key then v else rest

-- cur[i] of a list, none for IndexError.
nth : ℕ → Items → Option Json
nth i no_items = none
nth zero (item j items) = some j
nth (suc i) (item j items) = nth i items

size : Items → ℕ
size no_items = 0
size (item j items) = suc (size items)

unfoldable pub index : Number → Items → Option Json
unfolding nth size
index (pos i) items = nth i items
index (neg i) items = if ltb i (size items) then nth (size items - suc i) items else none

-- path.split(".")
unfoldable pub split : Text → List Text
split [] = [] ∷ []
split (c ∷ cs) = elim (split cs) [
  | [] ↦ []
  | part ∷ parts ↦ if c == b'.' then [] ∷ part ∷ parts else (c ∷ part) ∷ parts
]

-- A clause that was met, which the source prints.
pub record Clause : Type 0 where
  pub path : Text
  pub op : Text
  pub value : Json

module _ (int : Text → Option Number) (parse_float : Text → Option Number) where
  -- float(value), none for TypeError and ValueError.
  unfoldable pub float : Json → Option Number
  float null = none
  float (boolean b) = some (pos (if b then 1_000_000 else 0))
  float (number n) = some n
  float (string s) = parse_float s
  float (array items) = none
  float (object fs) = none

  -- One step of `_resolve`, with null for a return of None.
  unfoldable pub step_into : Json → Text → Json
  unfolding get index
  step_into (object fs) part = get part fs
  step_into (array items) part = elim (int part) [
    | none ↦ null
    | some i ↦ elim (index i items) [ none ↦ null | some j ↦ j ]
  ]
  step_into _ part = null

  unfoldable pub follow : Json → List Text → Json
  unfolding step_into
  follow cur [] = cur
  follow cur (part ∷ parts) = follow (step_into cur part) parts

  unfoldable pub resolve : Json → Text → Json
  unfolding follow split
  resolve payload path = follow payload (split path)

  abbrev pub compare_by : (Number → Number → Bool) → Option Number → Option Number → Bool
  compare_by test (some a) (some b) = test a b
  compare_by test (some a) none = false
  compare_by test none b = false

  abbrev pub crossing :
      (Number → Number → Number → Bool) → Option Number → Option Number → Option Number → Bool
  crossing test (some p) (some c) (some t) = test p c t
  crossing test (some p) (some c) none = false
  crossing test (some p) none t = false
  crossing test none c t = false

  module _ (payload : Json) (previous : Option Json) where
    -- A comparison with the previous snapshot.
    unfoldable pub cross : (Number → Number → Number → Bool) → Text → Json → Bool
    unfolding float resolve
    cross test path value = elim previous [
      | none ↦ false
      | some before ↦
          crossing test (float (resolve before path)) (float (resolve payload path)) (float value)
    ]

    -- Whether a leaf of the tree is met.
    unfoldable pub is_met : Text → Text → Json → Bool
    unfolding numeric cross
    is_met path op value = elim (numeric op) [
      | some test ↦ compare_by test (float (resolve payload path)) (float value)
      | none ↦
          if same op (codes "cross_above")
          then cross crosses_above path value
          else if same op (codes "cross_below")
          then cross crosses_below path value
          else false
    ]

    unfoldable pub leaf : Json → Json → Json → Bool × List Clause
    unfolding is_met
    leaf (string path) (string op) value =
        if is_met path op value
        then (true, record { path = path; op = op; value = value } ∷ [])
        else (false, [])
    leaf _ op value = (false, [])

    -- The first of `all` and `any` that holds a list decides, or else the leaf.
    abbrev pub choose :
        Option (Bool × List Clause)
        → Option (Bool × List Clause)
        → Bool × List Clause
        → Bool × List Clause
    choose (some a) b c = a
    choose none (some b) c = b
    choose none none c = c

    -- The evaluation with the clauses met on the way, in order; `all` stops at the first child that
    -- fails and `any` at the first that holds.
    unfoldable mutual
      unfolding leaf get

      pub walk : Json → Bool × List Clause
      walk (object fs) =
          choose (all_field fs) (any_field fs)
            (leaf (get (codes "field") fs) (get (codes "op") fs) (get (codes "value") fs))
      walk null = (false, [])
      walk (boolean b) = (false, [])
      walk (number n) = (false, [])
      walk (string s) = (false, [])
      walk (array items) = (false, [])

      pub all_field : Fields → Option (Bool × List Clause)
      all_field no_fields = none
      all_field (field k v fs) =
          let here = all_list v in
          let rest = all_field fs in if same k (codes "all") then here else rest

      pub any_field : Fields → Option (Bool × List Clause)
      any_field no_fields = none
      any_field (field k v fs) =
          let here = any_list v in
          let rest = any_field fs in if same k (codes "any") then here else rest

      pub all_list : Json → Option (Bool × List Clause)
      all_list (array items) = some (walk_all items)
      all_list null = none
      all_list (boolean b) = none
      all_list (number n) = none
      all_list (string s) = none
      all_list (object fs) = none

      pub any_list : Json → Option (Bool × List Clause)
      any_list (array items) = some (walk_any items)
      any_list null = none
      any_list (boolean b) = none
      any_list (number n) = none
      any_list (string s) = none
      any_list (object fs) = none

      pub walk_all : Items → Bool × List Clause
      walk_all no_items = (true, [])
      walk_all (item j items) =
          let (ok, met) = walk j in
          let (oks, mets) = walk_all items in if ok then (oks, met ++ mets) else (false, met)

      pub walk_any : Items → Bool × List Clause
      walk_any no_items = (false, [])
      walk_any (item j items) =
          let (ok, met) = walk j in
          let (oks, mets) = walk_any items in if ok then (true, met) else (oks, met ++ mets)
