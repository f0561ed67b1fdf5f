-- ===== src/Processing/Basis/Sum.antt =====
-- When basis.py reports a basis, and what it is.
use ffllowwgreeks.Prelude.{ℕ, zero, suc, ◌+◌, ◌<◌, ◌≡◌, refl, Option, none, some, arith}
use mathlib.Core.Option.{some-injective}
use mathlib.Core.Path.{subst}
use ffllowwgreeks.Processing.Json.{Number, pos, neg}
use ffllowwgreeks.Processing.Basis.{subtract, without_basis, with_basis, compute_basis}

-- A natural number plus a whole number.
abbrev pub plus : ℕ → Number → Number
plus a (pos n) = pos (a + n)
plus a (neg n) = subtract a (n + 1)

plus-subtract : (s f : ℕ) → plus f (subtract s f) ≡ pos s
plus-subtract s f = ground arith

-- The two prices are positive, and the futures price plus the basis is the spot price.
abbrev pub AddsUp : Option Number → Option Number → Number → Type 0
AddsUp spot futures basis =
    (s : ℕ) × (f : ℕ) × (spot ≡ some (pos s))
    × (futures ≡ some (pos f))
    × (0 < s)
    × (0 < f)
    × (plus f basis ≡ pos s)

-- If a basis is reported, the two prices are there and positive, and the futures price plus the
-- basis is the spot price.
pub compute_basis-AddsUp :
    (spot futures : Option Number) (basis : Number)
    → (compute_basis spot futures).basis ≡ some basis
    → AddsUp spot futures basis
unfolding compute_basis with_basis without_basis
compute_basis-AddsUp (some (pos (suc s))) (some (pos (suc f))) basis h = (
  suc s,
  suc f,
  refl,
  refl,
  omega arith,
  omega arith,
  subst (λ b. plus (suc f) b ≡ pos (suc s)) (some-injective _ _ h) (plus-subtract (suc s) (suc f)),
)
compute_basis-AddsUp (some (pos (suc s))) (some (pos zero)) basis h = cc
compute_basis-AddsUp (some (pos (suc s))) (some (neg f)) basis h = cc
compute_basis-AddsUp (some (pos zero)) (some f) basis h = cc
compute_basis-AddsUp (some (neg s)) (some f) basis h = cc
compute_basis-AddsUp (some s) none basis h = cc
compute_basis-AddsUp none f basis h = cc
