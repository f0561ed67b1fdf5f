-- ===== src/Examples/Chains.antt =====
-- The call walls of a small chain, with an insertion sort.
use ffllowwgreeks.Prelude.{
  ℕ, ◌≡◌, ◌≤◌, ◌↔◌, ◌⊎◌, inl, inr, none, some, List, [], ◌∷◌, All, leb, if◌then◌else◌, codes, arith,
  Bool-cases,
}
use ffllowwgreeks.Processing.Walls.{Row, Wall, oi_of, top_strikes}
use ffllowwgreeks.Processing.Walls.Top.{In, Descending, Sorts, AreTop, top_strikes-AreTop}

abbrev insert : Wall → List Wall → List Wall
insert w [] = w ∷ []
insert w (v ∷ vs) = let rest = insert w vs in if leb v.1 w.1 then w ∷ v ∷ vs else v ∷ rest

abbrev sorted : List Wall → List Wall
sorted [] = []
sorted (w ∷ ws) = insert w (sorted ws)

to_front :
    (u w v : Wall) (vs : List Wall)
    → (In u (insert w vs) → (u ≡ w) ⊎ In u vs)
    → (u ≡ v) ⊎ In u (insert w vs)
    → (u ≡ w) ⊎ ((u ≡ v) ⊎ In u vs)
to_front u w v vs f (inl here) = inr (inl here)
to_front u w v vs f (inr later) = elim (f later) [ inl e ↦ inl e | inr l ↦ inr (inr l) ]

to_back :
    (u w v : Wall) (vs : List Wall)
    → ((u ≡ w) ⊎ In u vs → In u (insert w vs))
    → (u ≡ w) ⊎ ((u ≡ v) ⊎ In u vs)
    → (u ≡ v) ⊎ In u (insert w vs)
to_back u w v vs f (inl e) = inr (f (inl e))
to_back u w v vs f (inr (inl e)) = inl e
to_back u w v vs f (inr (inr l)) = inr (f (inr l))

or_later :
    (u w : Wall) (xs ys : List Wall) → (In u xs → In u ys) → (u ≡ w) ⊎ In u xs → (u ≡ w) ⊎ In u ys
or_later u w xs ys f (inl e) = inl e
or_later u w xs ys f (inr l) = inr (f l)

In-insert : (u w : Wall) (ws : List Wall) → In u (insert w ws) ↔ ((u ≡ w) ⊎ In u ws)
In-insert u w [] = (λ h. h, λ h. h)
In-insert u w (v ∷ vs) = elim (Bool-cases (leb v.1 w.1)) [
  | inl e ↦ rw (e) (λ h. h, λ h. h)
  | inr e ↦ rw (e) (to_front u w v vs (In-insert u w vs).0, to_back u w v vs (In-insert u w vs).1)
]

sorted-In : (u : Wall) (ws : List Wall) → In u (sorted ws) ↔ In u ws
sorted-In u [] = (λ h. h, λ h. h)
sorted-In u (w ∷ ws) = (
  λ h. or_later u w (sorted ws) ws (sorted-In u ws).0 ((In-insert u w (sorted ws)).0 h),
  λ h. (In-insert u w (sorted ws)).1 (or_later u w ws (sorted ws) (sorted-In u ws).1 h),
)

insert-All :
    (x w : Wall) (ws : List Wall)
    → w.1 ≤ x.1
    → All (λ v. v.1 ≤ x.1) ws
    → All (λ v. v.1 ≤ x.1) (insert w ws)
insert-All x w [] h a = (h, tt)
insert-All x w (v ∷ vs) h a = elim (Bool-cases (leb v.1 w.1)) [
  | inl e ↦ rw (e) (h, a)
  | inr e ↦ rw (e) (a.0, insert-All x w vs h a.1)
]

below_trans :
    (x w : Wall) (ws : List Wall) → x.1 ≤ w.1 → All (λ v. v.1 ≤ x.1) ws → All (λ v. v.1 ≤ w.1) ws
below_trans x w [] h a = tt
below_trans x w (v ∷ vs) h a = (omega (arith, h, a.0), below_trans x w vs h a.1)

insert-Descending : (w : Wall) (ws : List Wall) → Descending ws → Descending (insert w ws)
insert-Descending w [] d = (tt, tt)
insert-Descending w (v ∷ vs) d = elim (Bool-cases (leb v.1 w.1)) [
  | inl e ↦ rw (e) ((ground (arith, e), below_trans v w vs (ground (arith, e)) d.0), d)
  | inr e ↦ rw (e) (insert-All v w vs (ground (arith, e)) d.0, insert-Descending w vs d.1)
]

sorted-Descending : (ws : List Wall) → Descending (sorted ws)
sorted-Descending [] = tt
sorted-Descending (w ∷ ws) = insert-Descending w (sorted ws) (sorted-Descending ws)

sorted-Sorts : Sorts sorted
sorted-Sorts ws = (λ u. sorted-In u ws, sorted-Descending ws)

abbrev contract : ℕ → ℕ → Row
contract k n = record {
  strike = some k;
  option_type = codes "c";
  oi = some n;
  volume = none;
  bid = none;
  ask = none;
}

abbrev chain : List Row
chain = contract 90 5 ∷ contract 100 7 ∷ contract 90 4 ∷ []

top_strikes-AreTop_example :
    AreTop oi_of (codes "C") chain (top_strikes sorted oi_of (codes "C") 1 chain)
top_strikes-AreTop_example = top_strikes-AreTop sorted oi_of (codes "C") 1 chain sorted-Sorts
