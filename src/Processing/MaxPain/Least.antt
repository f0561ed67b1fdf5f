-- ===== src/Processing/MaxPain/Least.antt =====
-- The choice of the least point on a curve, as max_pain.py makes it.
use ffllowwgreeks.Prelude.{
  ℕ, ◌≤◌, ◌<◌, ◌≡◌, refl, ap, inl, inr, List, [], ◌∷◌, map, arith, ltb, Bool-cases,
}
use ffllowwgreeks.Processing.MaxPain.{least}
use ffllowwgreeks.Processing.MaxPain.Strikes.{In, Ascending}

-- What `np.argmin` finds on the curve of `f` over ascending points.
pub record IsLeast (f : ℕ → ℕ) (ss : List ℕ) (r : ℕ × ℕ) : Type 0 where
  pub point : In r.0 ss
  pub value : r.1 ≡ f r.0
  pub lowest : (s : ℕ) → In s ss → r.1 ≤ f s
  pub first : (s : ℕ) → In s ss → f s ≡ r.1 → r.0 ≤ s

abbrev pub curve_of : (ℕ → ℕ) → List ℕ → List (ℕ × ℕ)
curve_of f ss = map (λ s. (s, f s)) ss

IsLeast-taken :
    (f : ℕ → ℕ) (b t : ℕ) (ss : List ℕ) (r : ℕ × ℕ)
    → b < t
    → f t < f b
    → IsLeast f (t ∷ ss) r
    → IsLeast f (b ∷ t ∷ ss) r
IsLeast-taken f b t ss r lt less v = record {
  point = inr v.point;
  value = v.value;
  lowest = lowest;
  first = first;
}
  where
    lowest : (s : ℕ) → In s (b ∷ t ∷ ss) → r.1 ≤ f s
    lowest s (inl e) = rw e (omega (arith, v.lowest t (inl refl)))
    lowest s (inr m) = v.lowest s m

    first : (s : ℕ) → In s (b ∷ t ∷ ss) → f s ≡ r.1 → r.0 ≤ s
    first s (inl e) h = absurd (omega (arith, v.lowest t (inl refl), ap f e))
    first s (inr m) h = v.first s m h

IsLeast-kept :
    (f : ℕ → ℕ) (b t : ℕ) (ss : List ℕ) (r : ℕ × ℕ)
    → b < t
    → f b ≤ f t
    → IsLeast f (b ∷ ss) r
    → IsLeast f (b ∷ t ∷ ss) r
IsLeast-kept f b t ss r lt more v = record {
  point = point v.point;
  value = v.value;
  lowest = lowest;
  first = first;
}
  where
    point : In r.0 (b ∷ ss) → In r.0 (b ∷ t ∷ ss)
    point (inl e) = inl e
    point (inr m) = inr (inr m)

    lowest : (s : ℕ) → In s (b ∷ t ∷ ss) → r.1 ≤ f s
    lowest s (inl e) = v.lowest s (inl e)
    lowest s (inr (inl e)) = omega (arith, v.lowest b (inl refl), ap f e)
    lowest s (inr (inr m)) = v.lowest s (inr m)

    first : (s : ℕ) → In s (b ∷ t ∷ ss) → f s ≡ r.1 → r.0 ≤ s
    first s (inl e) h = v.first s (inl e) h
    first s (inr (inl e)) h =
        let same : f b ≡ r.1 = omega (arith, v.lowest b (inl refl), ap f e) in
        omega (arith, v.first b (inl refl) same)
    first s (inr (inr m)) h = v.first s (inr m) h

pub least-IsLeast :
    (f : ℕ → ℕ) (b : ℕ) (ss : List ℕ)
    → Ascending (b ∷ ss)
    → IsLeast f (b ∷ ss) (least (b, f b) (curve_of f ss))
unfolding least
least-IsLeast f b [] v = record {
  point = inl refl;
  value = refl;
  lowest = λ s m. only s m;
  first = λ s m h. omega (arith, same s m);
}
  where
    same : (s : ℕ) → In s (b ∷ []) → s ≡ b
    same s (inl e) = e
    same s (inr m) = absurd m

    only : (s : ℕ) → In s (b ∷ []) → f b ≤ f s
    only s m = rw (same s m) (omega arith)
least-IsLeast f b (t ∷ ss) v =
    let taken = least-IsLeast f t ss v.1 in
    let kept = least-IsLeast f b ss (v.0.1, v.1.1) in
    elim (Bool-cases (ltb (f t) (f b))) [
      | inl less ↦
          rw (less, least)
            (IsLeast-taken f b t ss (least (t, f t) (curve_of f ss)) v.0.0 (ground arith) taken)
      | inr more ↦
          rw (more, least)
            (IsLeast-kept f b t ss (least (b, f b) (curve_of f ss)) v.0.0 (ground arith) kept)
    ]
