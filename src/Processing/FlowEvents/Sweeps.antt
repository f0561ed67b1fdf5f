-- ===== src/Processing/FlowEvents/Sweeps.antt =====
-- What the scan for sweeps in archive/python-legacy/backend/app/processing/flow_events.py finds in the
-- rows of one contract.
use ffllowwgreeks.Prelude.{
  ℕ, zero, suc, ◌+◌, ◌*◌, ◌≤◌, ◌≡◌, refl, sym, ap, ◌∙◌, inl, inr, Bool, true, false, not, ◌&&◌,
  List, [], ◌∷◌, ◌++◌, All, drop, leb, length, arith, Bool-cases,
}
use mathlib.Core.Path.{subst}
use ffllowwgreeks.Processing.FlowEvents.{Print, FlowEventConfig, same_side}
use ffllowwgreeks.Processing.FlowEvents.Detect.{
  more_legs, venues_of, premium_total, is_sweep, is_neither, clusters,
}

-- A row on the side of the first one, and within the window from it.
abbrev pub Continues : FlowEventConfig → Print → Print → Type 0
Continues cfg p q = (same_side q.side p.side ≡ true) × (q.ts ≤ p.ts + cfg.sweep_window_ms * 1_000)

-- The rows do not go on with a row that continues.
abbrev pub Ends : FlowEventConfig → Print → List Print → Type 0
Ends cfg p [] = Unit
Ends cfg p (q ∷ qs) = Continues cfg p q → ⊥

-- A sweep: on a side, as many rows in a row as there are, enough legs, venues and premium.
abbrev pub IsSweep : FlowEventConfig → Print → List Print → List Print → Type 0
IsSweep cfg p legs more =
    (is_neither p.side ≡ false)
    × (All (Continues cfg p) legs
        × (Ends cfg p more
            × ((cfg.sweep_min_legs ≤ length (p ∷ legs))
                × ((2 ≤ length (venues_of (p ∷ legs)))
                    × (cfg.sweep_min_premium ≤ premium_total (p ∷ legs))))))

-- From left to right: a row that begins a sweep is taken with its legs, any other row is passed.
pub data Scan (cfg : FlowEventConfig) : List Print → List (List Print) → Type 0 where
  stop : Scan cfg [] []
  pass :
      (p : Print) (ps : List Print) (cs : List (List Print))
      → ((legs more : List Print) → ps ≡ legs ++ more → IsSweep cfg p legs more → ⊥)
      → Scan cfg ps cs
      → Scan cfg (p ∷ ps) cs
  take :
      (p : Print) (legs more : List Print) (cs : List (List Print))
      → IsSweep cfg p legs more
      → Scan cfg more cs
      → Scan cfg (p ∷ (legs ++ more)) ((p ∷ legs) ∷ cs)

module _ (cfg : FlowEventConfig) where
  abbrev legs_of : Print → List Print → List Print
  legs_of p ps = more_legs cfg.sweep_window_ms p.side p.ts ps

  abbrev continues : Print → Print → Bool
  continues p q = same_side q.side p.side && leb q.ts (p.ts + cfg.sweep_window_ms * 1_000)

  legs_of-All : (p : Print) (ps : List Print) → All (Continues cfg p) (legs_of p ps)
  unfolding more_legs
  legs_of-All p [] = tt
  legs_of-All p (q ∷ qs) = elim (Bool-cases (continues p q)) [
    | inl e ↦ rw (e) ((ground (arith, e), ground (arith, e)), legs_of-All p qs)
    | inr e ↦ rw (e) tt
  ]

  legs_of-append :
      (p : Print) (ps : List Print) → ps ≡ legs_of p ps ++ drop (length (legs_of p ps)) ps
  unfolding more_legs
  legs_of-append p [] = refl
  legs_of-append p (q ∷ qs) = elim (Bool-cases (continues p q)) [
    | inl e ↦ rw (e) (ap (λ l. q ∷ l) (legs_of-append p qs))
    | inr e ↦ rw (e) refl
  ]

  legs_of-Ends : (p : Print) (ps : List Print) → Ends cfg p (drop (length (legs_of p ps)) ps)
  unfolding more_legs
  legs_of-Ends p [] = tt
  legs_of-Ends p (q ∷ qs) = elim (Bool-cases (continues p q)) [
    | inl e ↦ rw (e) (legs_of-Ends p qs)
    | inr e ↦ rw (e) (λ c. absurd (ground (arith, e, c.0, c.1)))
  ]

  -- The legs of a sweep are the ones that the loop collects.
  legs_of_lem :
      (p : Print) (legs more : List Print)
      → All (Continues cfg p) legs
      → Ends cfg p more
      → legs_of p (legs ++ more) ≡ legs
  unfolding more_legs
  legs_of_lem p [] [] a e = refl
  legs_of_lem p [] (q ∷ qs) a e = elim (Bool-cases (continues p q)) [
    | inl c ↦ absurd (e (ground (arith, c), ground (arith, c)))
    | inr c ↦ rw (c) refl
  ]
  legs_of_lem p (q ∷ legs) more a e = ground (arith, a.0.0, a.0.1, legs_of_lem p legs more a.1 e)

  abbrev found : Print → List Print → Bool
  found p ps = not (is_neither p.side) && is_sweep cfg (p ∷ legs_of p ps)

  is_sweep-bounds :
      (c : List Print)
      → is_sweep cfg c ≡ true
      → (cfg.sweep_min_legs ≤ length c)
        × ((2 ≤ length (venues_of c)) × (cfg.sweep_min_premium ≤ premium_total c))
  unfolding is_sweep
  is_sweep-bounds c h = ground (arith, h)

  bounds-is_sweep :
      (c : List Print)
      → cfg.sweep_min_legs ≤ length c
      → 2 ≤ length (venues_of c)
      → cfg.sweep_min_premium ≤ premium_total c
      → is_sweep cfg c ≡ true
  unfolding is_sweep
  bounds-is_sweep c h g k = ground (arith, h, g, k)

  found-IsSweep :
      (p : Print) (ps : List Print)
      → found p ps ≡ true
      → IsSweep cfg p (legs_of p ps) (drop (length (legs_of p ps)) ps)
  found-IsSweep p ps h = (
    ground (arith, h),
    (legs_of-All p ps, (legs_of-Ends p ps, is_sweep-bounds (p ∷ legs_of p ps) (ground (arith, h)))),
  )

  not_found :
      (p : Print) (ps legs more : List Print)
      → found p ps ≡ false
      → ps ≡ legs ++ more
      → IsSweep cfg p legs more
      → ⊥
  not_found p ps legs more h e s =
      let same_legs = ap (legs_of p) e ∙ legs_of_lem p legs more s.1.0 s.1.1.0 in
      absurd (
        ground (
          arith,
          h,
          s.0,
          ap (λ l. is_sweep cfg (p ∷ l)) same_legs,
          bounds-is_sweep (p ∷ legs) s.1.1.1.0 s.1.1.1.1.0 s.1.1.1.1.1,
        ))

  clusters-drop-Scan : (n : ℕ) (ps : List Print) → Scan cfg (drop n ps) (clusters cfg n ps)
  unfolding clusters
  clusters-drop-Scan zero [] = stop
  clusters-drop-Scan (suc n) [] = stop
  clusters-drop-Scan (suc n) (p ∷ ps) = clusters-drop-Scan n ps
  clusters-drop-Scan zero (p ∷ ps) = elim (Bool-cases (found p ps)) [
    | inl e ↦
        let legs = legs_of p ps in
        let more = drop (length legs) ps in
        rw (e) (
          subst (λ l. Scan cfg (p ∷ l) ((p ∷ legs) ∷ clusters cfg (length legs) ps))
            (sym (legs_of-append p ps))
            (take p legs more (clusters cfg (length legs) ps) (found-IsSweep p ps e)
              (clusters-drop-Scan (length legs) ps)))
    | inr e ↦ rw (e) (
        pass p ps (clusters cfg 0 ps) (λ legs more. not_found p ps legs more e)
          (clusters-drop-Scan zero ps))
  ]

  -- The clusters found are those of a scan from left to right that takes each row that begins a
  -- sweep, together with all its legs, and passes every other row.
  pub clusters-Scan : (ps : List Print) → Scan cfg ps (clusters cfg 0 ps)
  clusters-Scan ps = clusters-drop-Scan 0 ps
