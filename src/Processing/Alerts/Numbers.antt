-- ===== src/Processing/Alerts/Numbers.antt =====
-- The comparisons and crossings of archive/python-legacy/backend/app/processing/alerts.py in the
-- integers.
use ffllowwgreeks.Prelude.{
  ℕ, ◌+◌, ◌≤◌, ◌<◌, ◌≡◌, ◌↔◌, ◌⊎◌, inl, inr, refl, Bool, true, false, not, ◌&&◌, ◌||◌, arith, ap,
  Text, codes,
}
use ffllowwgreeks.Processing.Json.{Number, pos, neg}
use ffllowwgreeks.Processing.Alerts.{below, magnitude}

-- A number is what it has above zero less what it has below.
abbrev pub above_zero : Number → ℕ
above_zero (pos n) = n
above_zero (neg n) = 0

abbrev pub below_zero : Number → ℕ
below_zero (pos n) = 0
below_zero (neg n) = n + 1

abbrev pub Less : Number → Number → Type 0
Less a b = above_zero a + below_zero b < above_zero b + below_zero a

abbrev pub AtMost : Number → Number → Type 0
AtMost a b = above_zero a + below_zero b ≤ above_zero b + below_zero a

-- The distance from zero as a number.
abbrev pub distance : Number → Number
distance a = pos (above_zero a + below_zero a)

-- The comparisons by name.
pub data Compares (op : Text) (a b : Number) : Type 0 where
  gt : op ≡ codes "gt" → Less b a → Compares op a b
  lt : op ≡ codes "lt" → Less a b → Compares op a b
  ge : op ≡ codes "ge" → AtMost b a → Compares op a b
  le : op ≡ codes "le" → AtMost a b → Compares op a b
  eq : op ≡ codes "eq" → AtMost a b → AtMost b a → Compares op a b
  ne : op ≡ codes "ne" → Less a b ⊎ Less b a → Compares op a b
  abs_gt : op ≡ codes "abs_gt" → Less b (distance a) → Compares op a b
  abs_lt : op ≡ codes "abs_lt" → Less (distance a) b → Compares op a b

-- The crossings of a threshold `t`, from the value `p` to the value `c`.
pub data Crosses (op : Text) (p c t : Number) : Type 0 where
  upward : op ≡ codes "cross_above" → AtMost p t → Less t c → Crosses op p c t
  downward : op ≡ codes "cross_below" → AtMost t p → Less c t → Crosses op p c t

pub below_iff : (a b : Number) → (below a b ≡ true) ↔ Less a b
below_iff (pos a) (pos b) = ground arith
below_iff (pos a) (neg b) = ground arith
below_iff (neg a) (pos b) = ground arith
below_iff (neg a) (neg b) = ground arith

pub not-below_iff : (a b : Number) → (not (below a b) ≡ true) ↔ AtMost b a
not-below_iff (pos a) (pos b) = ground arith
not-below_iff (pos a) (neg b) = ground arith
not-below_iff (neg a) (pos b) = ground arith
not-below_iff (neg a) (neg b) = ground arith

pub magnitude_lem : (a : Number) → magnitude a ≡ distance a
magnitude_lem (pos a) = ap pos (omega arith)
magnitude_lem (neg a) = ap pos (omega arith)

pub both : (b c : Bool) → (b && c) ≡ true → (b ≡ true) × (c ≡ true)
both true true h = (refl, refl)
both true false h = absurd (ground arith)
both false c h = absurd (ground arith)

pub either : (b c : Bool) → (b || c) ≡ true → (b ≡ true) ⊎ (c ≡ true)
either true c h = inl refl
either false c h = inr h
