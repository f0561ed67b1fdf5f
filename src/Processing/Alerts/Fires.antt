-- ===== src/Processing/Alerts/Fires.antt =====
-- When a rule of archive/python-legacy/backend/app/processing/alerts.py fires: its condition is a tree of
-- `all`, `any` and comparisons, apart from the JSON that writes it.
use ffllowwgreeks.Prelude.{
  ◌≡◌, ◌⊎◌, ◌↔◌, inl, inr, refl, true, Option, List, [], ◌∷◌, Text, codes, same, All, arith,
  Bool-cases,
}
use ffllowwgreeks.Processing.Json.{
  Number, Json, string, array, object, Items, no_items, item, no_fields, field,
}
use ffllowwgreeks.Processing.Alerts.{Clause, walk, walk_all, walk_any, get, leaf, is_met}
use ffllowwgreeks.Processing.Alerts.Matched.{walk-Met}
use ffllowwgreeks.Processing.Alerts.Meaning.{IsMet, is_met_iff}

mutual
  pub data Condition : Type 0 where
    compare : (path op : Text) (value : Json) → Condition
    all_of any_of : Conditions → Condition

  pub data Conditions : Type 0 where
    no_conditions : Conditions
    condition : Condition → Conditions → Conditions

-- How a condition is written.
unfoldable mutual
  pub encode : Condition → Json
  encode (compare path op value) = object (
      field (codes "field") (string path)
        (field (codes "op") (string op) (field (codes "value") value no_fields)))
  encode (all_of conditions) =
      object (field (codes "all") (array (encode_all conditions)) no_fields)
  encode (any_of conditions) =
      object (field (codes "any") (array (encode_all conditions)) no_fields)

  pub encode_all : Conditions → Items
  encode_all no_conditions = no_items
  encode_all (condition r rs) = item (encode r) (encode_all rs)

module _ (int : Text → Option Number) (parse_float : Text → Option Number) (payload : Json)
    (previous : Option Json) where
  -- What a condition says of the snapshots.
  mutual
    pub Holds : Condition → Type 0
    Holds (compare path op value) = IsMet int parse_float payload previous path op value
    Holds (all_of conditions) = HoldAll conditions
    Holds (any_of conditions) = HoldsAny conditions

    pub HoldAll : Conditions → Type 0
    HoldAll no_conditions = Unit
    HoldAll (condition r rs) = Holds r × HoldAll rs

    pub HoldsAny : Conditions → Type 0
    HoldsAny no_conditions = ⊥
    HoldsAny (condition r rs) = Holds r ⊎ HoldsAny rs

  leaf_iff :
      (path op : Text) (value : Json)
      → ((leaf int parse_float payload previous (string path) (string op) value).0 ≡ true)
        ↔ (is_met int parse_float payload previous path op value ≡ true)
  unfolding leaf
  leaf_iff path op value =
      elim (Bool-cases (is_met int parse_float payload previous path op value)) [
        | inl e ↦ rw e (λ h. refl, λ h. refl)
        | inr e ↦ rw e (λ h. h, λ h. h)
      ]

  mutual
    unfolding walk encode get same Holds

    walk-Holds :
        (r : Condition) → (walk int parse_float payload previous (encode r)).0 ≡ true → Holds r
    walk-Holds (compare path op value) h =
        (is_met_iff int parse_float payload previous path op value).0 ((leaf_iff path op value).0 h)
    walk-Holds (all_of rs) h = walk_all-HoldAll rs h
    walk-Holds (any_of rs) h = walk_any-HoldsAny rs h

    walk_all-HoldAll :
        (rs : Conditions)
        → (walk_all int parse_float payload previous (encode_all rs)).0 ≡ true
        → HoldAll rs
    walk_all-HoldAll no_conditions h = tt
    walk_all-HoldAll (condition r rs) h =
        elim (Bool-cases (walk int parse_float payload previous (encode r)).0) [
          | inl e ↦ (walk-Holds r e, walk_all-HoldAll rs (ground (arith, h, e)))
          | inr e ↦ absurd (ground (arith, h, e))
        ]

    walk_any-HoldsAny :
        (rs : Conditions)
        → (walk_any int parse_float payload previous (encode_all rs)).0 ≡ true
        → HoldsAny rs
    walk_any-HoldsAny no_conditions h = absurd (ground (arith, h))
    walk_any-HoldsAny (condition r rs) h =
        elim (Bool-cases (walk int parse_float payload previous (encode r)).0) [
          | inl e ↦ inl (walk-Holds r e)
          | inr e ↦ inr (walk_any-HoldsAny rs (ground (arith, h, e)))
        ]

  mutual
    unfolding walk encode get same Holds

    Holds-walk :
        (r : Condition) → Holds r → (walk int parse_float payload previous (encode r)).0 ≡ true
    Holds-walk (compare path op value) h =
        (leaf_iff path op value).1 ((is_met_iff int parse_float payload previous path op value).1 h)
    Holds-walk (all_of rs) h = HoldAll-walk_all rs h
    Holds-walk (any_of rs) h = HoldsAny-walk_any rs h

    HoldAll-walk_all :
        (rs : Conditions)
        → HoldAll rs
        → (walk_all int parse_float payload previous (encode_all rs)).0 ≡ true
    HoldAll-walk_all no_conditions h = refl
    HoldAll-walk_all (condition r rs) h = ground (arith, Holds-walk r h.0, HoldAll-walk_all rs h.1)

    HoldsAny-walk_any :
        (rs : Conditions)
        → HoldsAny rs
        → (walk_any int parse_float payload previous (encode_all rs)).0 ≡ true
    HoldsAny-walk_any no_conditions h = absurd h
    HoldsAny-walk_any (condition r rs) (inl h) = ground (arith, Holds-walk r h)
    HoldsAny-walk_any (condition r rs) (inr h) = ground (
      arith,
      HoldsAny-walk_any rs h,
      Bool-cases (walk int parse_float payload previous (encode r)).0,
    )

  abbrev Met : List Clause → Type 0
  Met = All (λ c. is_met int parse_float payload previous c.path c.op c.value ≡ true)

  -- Each clause is met by the snapshots.
  abbrev pub Reported : List Clause → Type 0
  Reported = All (λ c. IsMet int parse_float payload previous c.path c.op c.value)

  Met-Reported : (cs : List Clause) → Met cs → Reported cs
  Met-Reported [] h = tt
  Met-Reported (c ∷ cs) h =
      ((is_met_iff int parse_float payload previous c.path c.op c.value).0 h.0, Met-Reported cs h.1)

  -- A rule of comparisons, `all` and `any` fires exactly if it holds of the snapshots, its numbers
  -- compared as integers; and every clause that the evaluation of any JSON value reports as matched
  -- is met by them in this sense.
  pub walk-encode :
      (r : Condition) (j : Json)
      → (((walk int parse_float payload previous (encode r)).0 ≡ true) ↔ Holds r)
        × Reported (walk int parse_float payload previous j).1
  walk-encode r j = (
    (walk-Holds r, Holds-walk r),
    Met-Reported (walk int parse_float payload previous j).1
        (walk-Met int parse_float payload previous j),
  )
