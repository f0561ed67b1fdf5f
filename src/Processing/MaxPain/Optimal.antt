-- ===== src/Processing/MaxPain/Optimal.antt =====
-- The strike that max_pain.py reports costs the least of all settlement prices.
use ffllowwgreeks.Prelude.{
  ℕ, ◌*◌, ◌≤◌, ◌<◌, ◌≡◌, refl, ◌⊎◌, inl, inr, some, List, [], ◌∷◌, map, arith, leb, leb→le, All,
  Bool-cases,
}
use mathlib.Core.Path.{subst}
use mathlib.Core.Option.{some-injective}
use ffllowwgreeks.Processing.MaxPain.{
  Contract, Pain, pain_at, least, pain_of_curve, expiry_max_pain, sorted_unique, strike_of,
}
use ffllowwgreeks.Processing.MaxPain.Least.{IsLeast, curve_of, least-IsLeast}
use ffllowwgreeks.Processing.MaxPain.Loss.{
  loss, loss_lem, Outside, loss_end, loss_below, loss_above,
}
use ffllowwgreeks.Processing.MaxPain.Strikes.{
  In, Ascending, Listed, Listed-candidates, sorted_unique-Ascending, In-sorted_unique,
  In-of_sorted_unique,
}

pain-loss : (cs : List Contract) (x : ℕ) → pain_at cs x ≡ loss cs x * 100
unfolding pain_at
pain-loss cs x = rw (loss_lem cs x)

-- Some candidate costs no more than `x`.
abbrev Reachable : List Contract → List ℕ → ℕ → Type 0
Reachable cs ss x = (s : ℕ) × In s ss × (loss cs s ≤ loss cs x)

abbrev Behind : ℕ → List ℕ → List Contract → Type 0
Behind s ss cs = All (λ c. (c.strike ≤ s) ⊎ In c.strike ss) cs

In-above : (s k : ℕ) (ss : List ℕ) → All (λ t. s < t) ss → In k ss → s < k
In-above s k [] v h = absurd h
In-above s k (t ∷ ss) v (inl e) = ground arith
In-above s k (t ∷ ss) v (inr h) = In-above s k ss v.1 h

All-Behind : (s : ℕ) (cs : List Contract) → Behind s [] cs → All (λ c. c.strike ≤ s) cs
All-Behind s [] h = tt
All-Behind s (c ∷ cs) h = (ground arith, All-Behind s cs h.1)

gap :
    (s t : ℕ) (ss : List ℕ) (cs : List Contract)
    → All (λ u. t < u) ss
    → Behind s (t ∷ ss) cs
    → Outside s t cs
gap s t ss [] v h = tt
gap s t ss (c ∷ cs) v h = (split h.0, gap s t ss cs v h.1)
  where
    split : (c.strike ≤ s) ⊎ In c.strike (t ∷ ss) → (c.strike ≤ s) ⊎ (t ≤ c.strike)
    split (inl le) = inl le
    split (inr (inl e)) = inr (omega arith)
    split (inr (inr m)) = let lt = In-above t c.strike ss v m in inr (omega arith)

advance :
    (s t : ℕ) (ss : List ℕ) (cs : List Contract) → s < t → Behind s (t ∷ ss) cs → Behind t ss cs
advance s t ss [] l h = tt
advance s t ss (c ∷ cs) l h = (split h.0, advance s t ss cs l h.1)
  where
    split : (c.strike ≤ s) ⊎ In c.strike (t ∷ ss) → (c.strike ≤ t) ⊎ In c.strike ss
    split (inl le) = inl (omega arith)
    split (inr (inl e)) = inl (omega arith)
    split (inr (inr m)) = inr m

-- The search goes up the candidates, with the price at or above the first.
search_up :
    (cs : List Contract) (s : ℕ) (ss : List ℕ) (x : ℕ)
    → Ascending (s ∷ ss)
    → Behind s ss cs
    → s ≤ x
    → Reachable cs (s ∷ ss) x
search_up cs s [] x v b h = (s, inl refl, loss_above s x cs h (All-Behind s cs b))
search_up cs s (t ∷ ss) x v b h =
    let further = search_up cs t ss x v.1 (advance s t ss cs v.0.0 b) in
    elim (Bool-cases (leb t x)) [
      | inl beyond ↦ let (u, m, le) = further (leb→le _ _ beyond) in (u, inr m, le)
      | inr before ↦ elim (loss_end s x t cs h (ground arith) v.0.0 (gap s t ss cs v.1.0 b)) [
        | inl le ↦ (s, inl refl, le)
        | inr le ↦ (t, inr (inl refl), le)
      ]
    ]

Behind-first : (s : ℕ) (ss : List ℕ) (cs : List Contract) → Listed (s ∷ ss) cs → Behind s ss cs
Behind-first s ss [] h = tt
Behind-first s ss (c ∷ cs) h = (split h.0, Behind-first s ss cs h.1)
  where
    split : In c.strike (s ∷ ss) → (c.strike ≤ s) ⊎ In c.strike ss
    split (inl e) = inl (omega arith)
    split (inr m) = inr m

All-above_first :
    (s : ℕ) (ss : List ℕ) (cs : List Contract)
    → All (λ t. s < t) ss
    → Listed (s ∷ ss) cs
    → All (λ c. s ≤ c.strike) cs
All-above_first s ss [] v h = tt
All-above_first s ss (c ∷ cs) v h = (above h.0, All-above_first s ss cs v h.1)
  where
    above : In c.strike (s ∷ ss) → s ≤ c.strike
    above (inl e) = omega arith
    above (inr m) = let lt = In-above s c.strike ss v m in omega arith

-- Every price is matched by a candidate.
reach :
    (cs : List Contract) (s : ℕ) (ss : List ℕ) (x : ℕ)
    → Ascending (s ∷ ss)
    → Listed (s ∷ ss) cs
    → Reachable cs (s ∷ ss) x
reach cs s ss x v l = elim (Bool-cases (leb s x)) [
  | inl beyond ↦ search_up cs s ss x v (Behind-first s ss cs l) (leb→le _ _ beyond)
  | inr before ↦ (s, inl refl, loss_below s x cs (ground arith) (All-above_first s ss cs v.0 l))
]

-- A reported strike: on the list, with its pain, not above the pain at any price, and the lowest
-- of the listed strikes with that pain.
pub record IsMaxPain (sub : List Contract) (r : Pain) : Type 0 where
  pub listed : In r.strike (map strike_of sub)
  pub pain_lem : r.pain ≡ pain_at sub r.strike
  pub optimal : (price : ℕ) → r.pain ≤ pain_at sub price
  pub lowest : (s : ℕ) → In s (map strike_of sub) → pain_at sub s ≡ r.pain → r.strike ≤ s

pain_of_curve-IsMaxPain :
    (sub : List Contract) (ss : List ℕ) (r : Pain)
    → Ascending ss
    → Listed ss sub
    → ((j : ℕ) → In j ss → In j (map strike_of sub))
    → ((j : ℕ) → In j (map strike_of sub) → In j ss)
    → pain_of_curve (curve_of (pain_at sub) ss) ≡ some r
    → IsMaxPain sub r
unfolding pain_of_curve
pain_of_curve-IsMaxPain sub [] r v l to from e = cc
pain_of_curve-IsMaxPain sub (b ∷ ss) r v l to from e =
    subst (IsMaxPain sub) (some-injective _ _ e) (record {
      listed = to q.0 best.point;
      pain_lem = best.value;
      optimal = λ price.
          let (s, m, le) = reach sub b ss price v l in
          omega (arith, best.lowest s m, pain-loss sub s, pain-loss sub price, le);
      lowest = λ s m h. best.first s (from s m) h;
    })
  where
    q : ℕ × ℕ
    q = least (b, pain_at sub b) (curve_of (pain_at sub) ss)

    best : IsLeast (pain_at sub) (b ∷ ss) q
    best = least-IsLeast (pain_at sub) b ss v

-- The strike that `_expiry_max_pain` reports is one of the rows' strikes, its pain is the pain at
-- that strike, no settlement price at all (listed or not) has a lower one, and of the listed
-- strikes with that pain it is the lowest.
pub expiry_max_pain-IsMaxPain :
    (sub : List Contract) (r : Pain) → expiry_max_pain sub ≡ some r → IsMaxPain sub r
unfolding expiry_max_pain
expiry_max_pain-IsMaxPain sub r e =
    pain_of_curve-IsMaxPain sub (sorted_unique ks) r (sorted_unique-Ascending ks)
      (Listed-candidates sub) (λ j. In-of_sorted_unique j ks) (λ j. In-sorted_unique j ks) e
  where
    ks : List ℕ
    ks = map strike_of sub

curve-total :
    (f : ℕ → ℕ) (k : ℕ) (ss : List ℕ)
    → In k ss
    → (r : Pain) × (pain_of_curve (curve_of f ss) ≡ some r)
unfolding pain_of_curve
curve-total f k [] m = absurd m
curve-total f k (s ∷ ss) m = (_, refl)

-- Rows always get a report if there is at least one of them.
pub expiry_max_pain-total :
    (c : Contract) (cs : List Contract) → (r : Pain) × (expiry_max_pain (c ∷ cs) ≡ some r)
unfolding expiry_max_pain
expiry_max_pain-total c cs =
    curve-total (pain_at (c ∷ cs)) c.strike (sorted_unique (map strike_of (c ∷ cs)))
      (In-sorted_unique c.strike (map strike_of (c ∷ cs)) (inl refl))
