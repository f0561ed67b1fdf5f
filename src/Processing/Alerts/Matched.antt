-- ===== src/Processing/Alerts/Matched.antt =====
-- The clauses that an evaluation of alerts.py reports.
use ffllowwgreeks.Prelude.{
  ◌≡◌, ◌≢◌, refl, inl, inr, Bool, true, false, Option, none, some, List, arith, if◌then◌else◌, Text,
  codes, same, All, All-append, Bool-cases,
}
use ffllowwgreeks.Processing.Json.{
  Number, pos, neg, Json, null, boolean, number, string, array, object, Items, no_items, item,
  Fields, no_fields, field,
}
use ffllowwgreeks.Processing.Alerts.{
  Clause, get, is_met, leaf, choose, walk, all_field, any_field, all_list, any_list, walk_all,
  walk_any, numeric, float, resolve, cross, crossing, crosses_above, crosses_below,
}

module _ (int : Text → Option Number) (parse_float : Text → Option Number) (payload : Json)
    (previous : Option Json) where
  -- Each clause is met by the snapshots.
  abbrev pub Met : List Clause → Type 0
  Met cs = All (λ c. is_met int parse_float payload previous c.path c.op c.value ≡ true) cs

  abbrev MetIf : Option (Bool × List Clause) → Type 0
  MetIf none = Unit
  MetIf (some r) = Met r.1

  choose-Met :
      (a b : Option (Bool × List Clause)) (c : Bool × List Clause)
      → MetIf a
      → MetIf b
      → Met c.1
      → Met (choose int parse_float payload previous a b c).1
  choose-Met (some a) b c ha hb hc = ha
  choose-Met none (some b) c ha hb hc = hb
  choose-Met none none c ha hb hc = hc

  leaf-Met : (f o v : Json) → Met (leaf int parse_float payload previous f o v).1
  unfolding leaf
  leaf-Met (string path) (string op) v =
      elim (Bool-cases (is_met int parse_float payload previous path op v)) [
        | inl met ↦ rw met (met, tt)
        | inr missed ↦ rw missed tt
      ]
  leaf-Met (string path) null v = tt
  leaf-Met (string path) (boolean b) v = tt
  leaf-Met (string path) (number n) v = tt
  leaf-Met (string path) (array items) v = tt
  leaf-Met (string path) (object fs) v = tt
  leaf-Met null o v = tt
  leaf-Met (boolean b) o v = tt
  leaf-Met (number n) o v = tt
  leaf-Met (array items) o v = tt
  leaf-Met (object fs) o v = tt

  if-MetIf :
      (b : Bool) (x y : Option (Bool × List Clause))
      → MetIf x
      → MetIf y
      → MetIf (if b then x else y)
  if-MetIf true x y hx hy = hx
  if-MetIf false x y hx hy = hy

  if-Met : (b : Bool) (x y : Bool × List Clause) → Met x.1 → Met y.1 → Met (if b then x else y).1
  if-Met true x y hx hy = hx
  if-Met false x y hx hy = hy

  mutual
    unfolding walk

    walk_lem : (j : Json) → Met (walk int parse_float payload previous j).1
    walk_lem (object fs) =
        choose-Met (all_field int parse_float payload previous fs)
          (any_field int parse_float payload previous fs) _ (all_field_lem fs) (any_field_lem fs)
          (leaf-Met (get (codes "field") fs) (get (codes "op") fs) (get (codes "value") fs))
    walk_lem null = tt
    walk_lem (boolean b) = tt
    walk_lem (number n) = tt
    walk_lem (string s) = tt
    walk_lem (array items) = tt

    all_field_lem : (fs : Fields) → MetIf (all_field int parse_float payload previous fs)
    all_field_lem no_fields = tt
    all_field_lem (field k v fs) =
        if-MetIf (same k (codes "all")) _ _ (all_list_lem v) (all_field_lem fs)

    any_field_lem : (fs : Fields) → MetIf (any_field int parse_float payload previous fs)
    any_field_lem no_fields = tt
    any_field_lem (field k v fs) =
        if-MetIf (same k (codes "any")) _ _ (any_list_lem v) (any_field_lem fs)

    all_list_lem : (j : Json) → MetIf (all_list int parse_float payload previous j)
    all_list_lem (array items) = walk_all_lem items
    all_list_lem null = tt
    all_list_lem (boolean b) = tt
    all_list_lem (number n) = tt
    all_list_lem (string s) = tt
    all_list_lem (object fs) = tt

    any_list_lem : (j : Json) → MetIf (any_list int parse_float payload previous j)
    any_list_lem (array items) = walk_any_lem items
    any_list_lem null = tt
    any_list_lem (boolean b) = tt
    any_list_lem (number n) = tt
    any_list_lem (string s) = tt
    any_list_lem (object fs) = tt

    walk_all_lem : (items : Items) → Met (walk_all int parse_float payload previous items).1
    walk_all_lem no_items = tt
    walk_all_lem (item j items) =
        let here = walk_lem j in
        if-Met (walk int parse_float payload previous j).0 _ _
          (All-append _ _ _ here (walk_all_lem items)) here

    walk_any_lem : (items : Items) → Met (walk_any int parse_float payload previous items).1
    walk_any_lem no_items = tt
    walk_any_lem (item j items) =
        let here = walk_lem j in
        if-Met (walk int parse_float payload previous j).0 _ _ here
          (All-append _ _ _ here (walk_any_lem items))

  -- Every clause that an evaluation reports as matched is met by the snapshots, whatever the rule.
  pub walk-Met : (rule : Json) → Met (walk int parse_float payload previous rule).1
  walk-Met rule = walk_lem rule

one_direction : (p c t : Number) → crosses_above p c t ≡ true → crosses_below p c t ≡ false
one_direction (pos a) (pos b) (pos t) h = ground arith
one_direction (pos a) (pos b) (neg t) h = ground arith
one_direction (pos a) (neg b) (pos t) h = ground arith
one_direction (pos a) (neg b) (neg t) h = ground arith
one_direction (neg a) (pos b) (pos t) h = ground arith
one_direction (neg a) (pos b) (neg t) h = ground arith
one_direction (neg a) (neg b) (pos t) h = ground arith
one_direction (neg a) (neg b) (neg t) h = ground arith

module _ (int : Text → Option Number) (parse_float : Text → Option Number) where
  crossing_once :
      (p c t : Option Number)
      → crossing int parse_float crosses_above p c t ≡ true
      → crossing int parse_float crosses_below p c t ≡ false
  crossing_once (some p) (some c) (some t) h = one_direction p c t h
  crossing_once (some p) (some c) none h = refl
  crossing_once (some p) none t h = refl
  crossing_once none c t h = refl

  -- A leaf for an upward crossing that is met rules out the leaf for a downward crossing of the same
  -- value at the same place, and needs a previous snapshot.
  pub is_met_once :
      (payload : Json) (previous : Option Json) (path : Text) (value : Json)
      → is_met int parse_float payload previous path (codes "cross_above") value ≡ true
      → (is_met int parse_float payload previous path (codes "cross_below") value ≡ false)
        × (previous ≢ none)
  unfolding is_met numeric same cross
  is_met_once payload none path value h = cc
  is_met_once payload (some before) path value h = (
    crossing_once (float int parse_float (resolve int parse_float before path))
        (float int parse_float (resolve int parse_float payload path)) (float int parse_float value)
        h,
    λ e. cc,
  )
