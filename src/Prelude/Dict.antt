-- ===== src/Prelude/Dict.antt =====
-- Python's `dict` keyed by texts, as an association list with the newest entry first.
use Prim.Native.Nat.{ℕ, ◌+◌}
use mathlib.Core.Path.{◌≡◌, refl, sym, ap, ◌∙◌}
use mathlib.Core.List.{List, [], ◌∷◌, ◌++◌, map}
use mathlib.Core.Logic.{inl, inr}
use mathlib.Core.Option.{Option, none, some}
use native.Mathlib.Omega.{arith}
use ffllowwgreeks.Prelude.Tests.{if◌then◌else◌, Bool-cases}
use ffllowwgreeks.Prelude.Keys.{Text, same, same_iff, same_refl}

pub record Dict {ℓ} (V : Type ℓ) : Type ℓ where
  entries : List (Text × V)

module _ {ℓ} {V : Type ℓ} where
  lookup : Text → List (Text × V) → Option V
  lookup k [] = none
  lookup k ((j, v) ∷ l) = if same j k then some v else lookup k l

  without : Text → List (Text × V) → List (Text × V)
  without k [] = []
  without k ((j, v) ∷ l) = let rest = without k l in if same j k then rest else (j, v) ∷ rest

  unfoldable pub empty : Dict V
  empty = record { entries = [] }

  -- d.get(k)
  unfoldable pub get : Dict V → Text → Option V
  unfolding lookup
  get d k = lookup k d.entries

  -- d.get(k, default)
  abbrev pub get_default : Dict V → Text → V → V
  get_default d k v = elim (get d k) [ none ↦ v | some w ↦ w ]

  -- d.values()
  unfoldable pub values : Dict V → List V
  values d = map (λ e. e.1) d.entries

  -- list(d.keys())
  unfoldable pub keys : Dict V → List Text
  keys d = map (λ e. e.0) d.entries

  -- d.pop(k, None)
  unfoldable pub remove : Dict V → Text → Dict V
  unfolding without
  remove d k = record { entries = without k d.entries }

  -- d[k] = v
  unfoldable pub put : Dict V → Text → V → Dict V
  unfolding without
  put d k v = record { entries = (k, v) ∷ without k d.entries }

  lookup-without :
      (k j : Text) (l : List (Text × V))
      → lookup j (without k l) ≡ (if same k j then none else lookup j l)
  unfolding lookup without
  lookup-without k j [] = ground arith
  lookup-without k j ((i, v) ∷ l) =
      ground (arith, lookup-without k j l, same_iff i k, same_iff i j, same_iff k j)

  pub get-remove :
      (d : Dict V) (k j : Text) → get (remove d k) j ≡ (if same k j then none else get d j)
  unfolding get remove
  get-remove d k j = lookup-without k j d.entries

  pub get-put :
      (d : Dict V) (k j : Text) (v : V) → get (put d k v) j ≡ (if same k j then some v else get d j)
  unfolding get put
  get-put d k j v = ground (arith, lookup-without k j d.entries)

module _ {ℓ} {V : Type ℓ} (d : Dict V) (k : Text) (v : V) where
  pub get-put_self : get (put d k v) k ≡ some v
  get-put_self = ground (arith, get-put d k k v, same_refl k)

  pub get_default-put_self : (w : V) → get_default (put d k v) k w ≡ v
  get_default-put_self w = rw (get-put_self, get_default)

lookup-split {ℓ} :
    {V : Type ℓ} (k : Text) (v : V) (l : List (Text × V))
    → lookup k l ≡ some v
    → (before : List Text) × ((after : List Text) × (map (λ e. e.0) l ≡ before ++ (k ∷ after)))
unfolding lookup
lookup-split k v [] h = absurd (ground arith)
lookup-split k v ((j, w) ∷ l) h = elim (Bool-cases (same j k)) [
  | inl e ↦ ([], (map (λ e. e.0) l, ap (λ i. i ∷ map (λ e. e.0) l) ((same_iff j k).0 e)))
  | inr e ↦
      let rest = lookup-split k v l (sym (rw (e) refl) ∙ h) in
      (j ∷ rest.0, (rest.1.0, ap (λ is. j ∷ is) rest.1.1))
]

-- A key with a value is among the keys.
pub keys-split {ℓ} :
    {V : Type ℓ} (d : Dict V) (k : Text) (v : V)
    → get d k ≡ some v
    → (before : List Text) × ((after : List Text) × (keys d ≡ before ++ (k ∷ after)))
unfolding get keys
keys-split d k v h = lookup-split k v d.entries h

pub get_default-put {ℓ} :
    {V : Type ℓ} (d : Dict V) (k j : Text) (v w : V)
    → get_default (put d k v) j w ≡ (if same k j then v else get_default d j w)
get_default-put d k j v w = ground (arith, get-put d k j v)

pub get-empty {ℓ} : {V : Type ℓ} (k : Text) → get (empty {V = V}) k ≡ none
unfolding get empty
get-empty k = refl

pub ruleset dict_laws = (get-empty, get-remove, get-put)

-- How often a key occurs in a list of keys.
unfoldable pub occurs : Text → List Text → ℕ
occurs k [] = 0
occurs k (j ∷ js) = (if same j k then 1 else 0) + occurs k js

occurs-without {ℓ} :
    {V : Type ℓ} (k j : Text) (l : List (Text × V))
    → occurs j (map (λ e. e.0) (without k l))
      ≡ (if same k j then 0 else occurs j (map (λ e. e.0) l))
unfolding occurs without
occurs-without k j [] = ground arith
occurs-without k j ((i, v) ∷ l) =
    ground (arith, occurs-without k j l, same_iff i k, same_iff i j, same_iff k j)

occurs-lookup {ℓ} :
    {V : Type ℓ} (k : Text) (l : List (Text × V))
    → occurs k (map (λ e. e.0) l) ≡ 0
    → lookup k l ≡ none
unfolding occurs lookup
occurs-lookup k [] h = refl
occurs-lookup k ((j, v) ∷ l) h = ground (arith, occurs-lookup k l)

module _ {ℓ} {V : Type ℓ} (d : Dict V) (k : Text) where
  -- Storing a value leaves its key once among the keys, and the others as they were.
  pub occurs-keys-put :
      (j : Text) (v : V) → occurs j (keys (put d k v)) ≡ (if same k j then 1 else occurs j (keys d))
  unfolding occurs keys put
  occurs-keys-put j v = ground (arith, occurs-without k j d.entries)

  pub get-unless_occurs : occurs k (keys d) ≡ 0 → get d k ≡ none
  unfolding keys get
  get-unless_occurs h = occurs-lookup k d.entries h

pub occurs-keys-empty {ℓ} : (V : Type ℓ) (k : Text) → occurs k (keys (empty {V = V})) ≡ 0
unfolding occurs keys empty
occurs-keys-empty V k = refl
