-- ===== src/Processing/VolumeProfile/Coverage.antt =====
-- The loop of volume_profile.py that widens the value area.
use ffllowwgreeks.Prelude.{
  ℕ, zero, suc, ◌+◌, ◌-◌, ◌*◌, ◌≤◌, ◌≡◌, refl, inl, inr, List, [], ◌∷◌, arith, leb, leb→le,
  Bool-cases, length,
}
use native.Mathlib.Nat.{mul-le-mul_right}
use ffllowwgreeks.Processing.VolumeProfile.{
  Bin, Area, volume, idxmax, widen, expand, start_at, value_area,
}

-- All the volume that the state knows of, and the number of rounds that are left.
abbrev whole : Area → ℕ
whole a = a.accumulated + volume a.below + volume a.above

abbrev left : Area → ℕ
left a = length a.below + length a.above

whole-widen :
    (a : Area) (ls us : List Bin) → a.below ≡ ls → a.above ≡ us → whole (widen a ls us) ≡ whole a
unfolding widen
whole-widen a [] [] e f = refl
whole-widen a [] (u ∷ us) e f = rw (e, f) (omega arith)
whole-widen a (l ∷ ls) [] e f = rw (e, f) (omega arith)
whole-widen a (l ∷ ls) (u ∷ us) e f = rw (e, f) (ground arith)

left-widen :
    (a : Area) (ls us : List Bin) → a.below ≡ ls → a.above ≡ us → left (widen a ls us) ≤ left a - 1
unfolding widen
left-widen a [] [] e f = rw (e, f) (omega arith)
left-widen a [] (u ∷ us) e f = rw (e, f) (omega arith)
left-widen a (l ∷ ls) [] e f = rw (e, f) (omega arith)
left-widen a (l ∷ ls) (u ∷ us) e f = rw (e, f) (ground arith)

empty-volume : (bins : List Bin) → length bins ≡ 0 → volume bins ≡ 0
empty-volume [] e = refl
empty-volume (b ∷ bins) e = absurd (omega arith)

exhausted : (a : Area) → left a ≡ 0 → whole a ≡ a.accumulated
exhausted a e =
    omega (arith, empty-volume a.below (omega arith), empty-volume a.above (omega arith))

expand_covers :
    (fuel target : ℕ) (a : Area)
    → left a ≤ fuel
    → target ≤ 100 * whole a
    → (target ≤ 100 * (expand fuel target a).accumulated) × (whole (expand fuel target a) ≡ whole a)
unfolding expand
expand_covers zero target a enough h = (omega (arith, exhausted a (omega arith)), refl)
expand_covers (suc fuel) target a enough h = elim (Bool-cases (leb target (100 * a.accumulated))) [
  | inl reached ↦ rw reached (leb→le _ _ reached, refl)
  | inr short ↦
      let same_whole = whole-widen a a.below a.above refl refl in
      let fewer = left-widen a a.below a.above refl refl in
      let rest =
        expand_covers fuel target (widen a a.below a.above) (omega (arith, fewer, enough))
          (omega (arith, same_whole, h)) in
      rw short (rest.0, omega (arith, rest.1, same_whole))
]

whole-start_at :
    (i : ℕ) (below : List Bin) (b : Bin) (above : List Bin)
    → (whole (start_at i below b above) ≡ b.total + volume below + volume above)
      × (left (start_at i below b above) ≡ length below + length above)
unfolding start_at
whole-start_at zero below b above = (refl, refl)
whole-start_at (suc i) below b [] = (refl, refl)
whole-start_at (suc i) below b (c ∷ above) =
    let rest = whole-start_at i (b ∷ below) c above in
    (omega (arith, rest.0), omega (arith, rest.1))

-- For a share of at most 100 percent, the loop that widens the value area ends with at least that
-- share of all the volume inside; the bins inside, below and above make up all the volume.
pub value_area_covers :
    (percent : ℕ) (b : Bin) (bins : List Bin)
    → percent ≤ 100
    → let area = value_area percent b bins in
      (percent * volume (b ∷ bins) ≤ 100 * area.accumulated)
      × (area.accumulated + volume area.below + volume area.above ≡ volume (b ∷ bins))
unfolding value_area
value_area_covers percent b bins h =
    let i = idxmax 0 b.total 1 bins in
    let start = whole-start_at i [] b bins in
    let total = volume (b ∷ bins) in
    let covers =
      expand_covers (length bins) (percent * total) (start_at i [] b bins) (omega (arith, start.1))
        (omega (arith, mul-le-mul_right total h, start.0)) in
    (covers.0, omega (arith, covers.1, start.0))
