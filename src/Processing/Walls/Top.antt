-- ===== src/Processing/Walls/Top.antt =====
-- Which strikes the walls of archive/python-legacy/backend/app/processing/walls.py are.
use ffllowwgreeks.Prelude.{
  ℕ, zero, suc, ◌≤◌, ◌<◌, ◌≡◌, ◌↔◌, ◌⊎◌, inl, inr, sym, ap, ◌∙◌, true, List, [], ◌∷◌, All, take,
  ltb, Text, arith, Bool-cases,
}
use ffllowwgreeks.Processing.Walls.{
  Row, Wall, has, total_at, strikes_of, grouped_by, grouped, positive, top_strikes,
}

-- The wall is in the list.
abbrev pub In : Wall → List Wall → Type 0
In w [] = ⊥
In w (v ∷ vs) = (w ≡ v) ⊎ In w vs

-- The weights do not grow along the list.
abbrev pub Descending : List Wall → Type 0
Descending [] = Unit
Descending (w ∷ ws) = All (λ v. v.1 ≤ w.1) ws × Descending ws

-- The sorting keeps the walls and puts the heaviest ones first.
abbrev pub Sorts : (List Wall → List Wall) → Type 0
Sorts sort_values =
    (ws : List Wall) → ((w : Wall) → In w (sort_values ws) ↔ In w ws) × Descending (sort_values ws)

In-grouped_by :
    (total : ℕ → ℕ) (w : Wall) (ks : List ℕ)
    → In w (grouped_by total ks)
    → (w.1 ≡ total w.0) × (has w.0 ks ≡ true)
unfolding grouped_by
In-grouped_by total w [] h = absurd h
In-grouped_by total w (k ∷ ks) h = elim (Bool-cases (has k ks)) [
  | inl e ↦ let rest = In-grouped_by total w ks (rw (e) at h) in (rest.0, ground (arith, rest.1))
  | inr e ↦
      let cases : (w ≡ (k, total k)) ⊎ In w (grouped_by total ks) = rw (e) at h in
      elim cases [
        | inl same_wall ↦
            let strike = ap (λ v. v.0) same_wall in
            (ap (λ v. v.1) same_wall ∙ ap total (sym strike), ground (arith, strike))
        | inr later ↦ let rest = In-grouped_by total w ks later in (rest.0, ground (arith, rest.1))
      ]
]

grouped_by-In :
    (total : ℕ → ℕ) (k : ℕ) (ks : List ℕ) → has k ks ≡ true → In (k, total k) (grouped_by total ks)
unfolding grouped_by
grouped_by-In total k [] h = absurd (ground (arith, h))
grouped_by-In total k (j ∷ ks) h = elim (Bool-cases (has k ks)) [
  | inl later ↦
      let rest = grouped_by-In total k ks later in
      elim (Bool-cases (has j ks)) [ inl e ↦ rw (e) rest | inr e ↦ rw (e) (inr rest) ]
  | inr first ↦
      let here : j ≡ k = ground (arith, h, first) in
      elim (Bool-cases (has j ks)) [
        | inl e ↦ absurd (ground (arith, first, e, ap (λ x. has x ks) here))
        | inr e ↦ rw (e) (inl (ap (λ x. (x, total x)) (sym here)))
      ]
]

In-positive : (w : Wall) (ws : List Wall) → In w (positive ws) → In w ws × (0 < w.1)
unfolding positive
In-positive w [] h = absurd h
In-positive w (v ∷ ws) h = elim (Bool-cases (ltb 0 v.1)) [
  | inl e ↦
      let cases : (w ≡ v) ⊎ In w (positive ws) = rw (e) at h in
      elim cases [
        | inl here ↦ (inl here, ground (arith, e, ap (λ x. x.1) here))
        | inr later ↦ let rest = In-positive w ws later in (inr rest.0, rest.1)
      ]
  | inr e ↦ let rest = In-positive w ws (rw (e) at h) in (inr rest.0, rest.1)
]

positive-In : (w : Wall) (ws : List Wall) → 0 < w.1 → In w ws → In w (positive ws)
unfolding positive
positive-In w [] h m = absurd m
positive-In w (v ∷ ws) h (inl here) = elim (Bool-cases (ltb 0 v.1)) [
  | inl e ↦ rw (e) (inl here)
  | inr e ↦ absurd (ground (arith, e, h, ap (λ x. x.1) here))
]
positive-In w (v ∷ ws) h (inr later) =
    let rest = positive-In w ws h later in
    elim (Bool-cases (ltb 0 v.1)) [ inl e ↦ rw (e) (inr rest) | inr e ↦ rw (e) rest ]

All-In : (x w : Wall) (ws : List Wall) → All (λ v. v.1 ≤ x.1) ws → In w ws → w.1 ≤ x.1
All-In x w [] a m = absurd m
All-In x w (v ∷ ws) a (inl here) = omega (arith, a.0, ap (λ u. u.1) here)
All-In x w (v ∷ ws) a (inr later) = All-In x w ws a.1 later

All-positive :
    (x : Wall) (ws : List Wall) → All (λ v. v.1 ≤ x.1) ws → All (λ v. v.1 ≤ x.1) (positive ws)
unfolding positive
All-positive x [] a = tt
All-positive x (v ∷ ws) a =
    let rest = All-positive x ws a.1 in
    elim (Bool-cases (ltb 0 v.1)) [ inl e ↦ rw (e) (a.0, rest) | inr e ↦ rw (e) rest ]

positive-Descending : (ws : List Wall) → Descending ws → Descending (positive ws)
unfolding positive
positive-Descending [] d = tt
positive-Descending (v ∷ ws) d =
    let rest = positive-Descending ws d.1 in
    elim (Bool-cases (ltb 0 v.1)) [
      | inl e ↦ rw (e) (All-positive v ws d.0, rest)
      | inr e ↦ rw (e) rest
    ]

take-In : (n : ℕ) (w : Wall) (ws : List Wall) → In w (take n ws) → In w ws
take-In zero w ws m = absurd m
take-In (suc n) w [] m = absurd m
take-In (suc n) w (x ∷ ws) (inl here) = inl here
take-In (suc n) w (x ∷ ws) (inr later) = inr (take-In n w ws later)

-- What comes behind the first n of a falling list is no heavier than any of them.
In-take :
    (n : ℕ) (v w : Wall) (ws : List Wall)
    → Descending ws
    → In v (take n ws)
    → In w ws
    → v.1 < w.1
    → In w (take n ws)
In-take zero v w ws d m l h = absurd m
In-take (suc n) v w [] d m l h = absurd m
In-take (suc n) v w (x ∷ ws) d m (inl here) h = inl here
In-take (suc n) v w (x ∷ ws) d (inl first) (inr l) h =
    absurd (omega (arith, h, ap (λ u. u.1) first, All-In x w ws d.0 l))
In-take (suc n) v w (x ∷ ws) d (inr m) (inr l) h = inr (In-take n v w ws d.1 m l h)

-- A wall is a strike of that type with its whole weight, which is positive, and each strike of
-- that type with more weight is a wall, too.
abbrev pub AreTop : (Row → ℕ) → Text → List Row → List Wall → Type 0
AreTop weight kind rows walls =
    (w : Wall)
    → In w walls
    → ((w.1 ≡ total_at weight kind w.0 rows) × (0 < w.1))
      × ((k : ℕ)
          → has k (strikes_of kind rows) ≡ true
          → w.1 < total_at weight kind k rows
          → In (k, total_at weight kind k rows) walls)

-- With a sorting that keeps the strikes and puts the heaviest first, every wall has the whole
-- weight of its strike for that type, which is positive, and every strike of the type with more
-- weight than some wall is a wall as well.
pub top_strikes-AreTop :
    (sort_values : List Wall → List Wall) (weight : Row → ℕ) (kind : Text) (top_n : ℕ)
    (rows : List Row)
    → Sorts sort_values
    → AreTop weight kind rows (top_strikes sort_values weight kind top_n rows)
unfolding top_strikes grouped
top_strikes-AreTop sort_values weight kind top_n rows sorts w m =
    let total : ℕ → ℕ = λ k. total_at weight kind k rows in
    let groups = grouped_by total (strikes_of kind rows) in
    let sorted = sort_values groups in
    let found = In-positive w sorted (take-In top_n w (positive sorted) m) in
    (
      ((In-grouped_by total w (strikes_of kind rows) (((sorts groups).0 w).0 found.0)).0, found.1),
      λ k listed more.
          In-take top_n w (k, total k) (positive sorted)
            (positive-Descending sorted (sorts groups).1) m
            (positive-In (k, total k) sorted (omega (arith, more, found.1))
              (((sorts groups).0 (k, total k)).1
                (grouped_by-In total k (strikes_of kind rows) listed)))
            more,
    )
