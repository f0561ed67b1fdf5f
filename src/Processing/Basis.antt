-- ===== src/Processing/Basis.antt =====
-- archive/python-legacy/backend/app/processing/basis.py: the premium of the cash index over its
-- future. Prices are whole multiples of a millionth, and a quotient is kept as its two parts.
pub mod Sum
use ffllowwgreeks.Prelude.{
  ℕ, zero, suc, ◌-◌, Bool, true, false, ◌&&◌, Option, none, some, leb, if◌then◌else◌,
}
use ffllowwgreeks.Processing.Json.{Number, pos, neg}

pub record BasisSnapshot : Type 0 where
  pub spot : Option Number
  pub futures : Option Number
  pub basis : Option Number
  -- The basis and the spot that divides it.
  pub basis_pct : Option (Number × Number)

abbrev pub subtract : ℕ → ℕ → Number
subtract a b = if leb b a then pos (a - b) else neg (b - a - 1)

unfoldable pub without_basis : Option Number → Option Number → BasisSnapshot
without_basis spot futures = record {
  spot = spot;
  futures = futures;
  basis = none;
  basis_pct = none;
}

-- Two positive prices have a basis.
unfoldable pub with_basis : Number → Number → BasisSnapshot
unfolding without_basis
with_basis (pos (suc s)) (pos (suc f)) = record {
  spot = some (pos (suc s));
  futures = some (pos (suc f));
  basis = some (subtract (suc s) (suc f));
  basis_pct = some (subtract (suc s) (suc f), pos (suc s));
}
with_basis (pos (suc s)) futures = without_basis (some (pos (suc s))) (some futures)
with_basis spot futures = without_basis (some spot) (some futures)

unfoldable pub compute_basis : Option Number → Option Number → BasisSnapshot
unfolding with_basis without_basis
compute_basis (some spot) (some futures) = with_basis spot futures
compute_basis (some spot) none = without_basis (some spot) none
compute_basis none futures = without_basis none futures
