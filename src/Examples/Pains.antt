-- ===== src/Examples/Pains.antt =====
-- A chain with two expirations and an expired row in max_pain.py.
use ffllowwgreeks.Prelude.{ℕ, ◌≡◌, refl, some, List, [], ◌∷◌, true, false, All, codes, arith}
use ffllowwgreeks.Processing.MaxPain.{
  Chain, Row, Contract, Expiration, clean, clean_rows, clean_oi, days_of, is_active, insert_unique,
  sorted_unique, active_rows, expiries_of, all_missing, any_expiry, compute_max_pain,
}
use ffllowwgreeks.Processing.MaxPain.Optimal.{
  IsMaxPain, expiry_max_pain-IsMaxPain, expiry_max_pain-total,
}
use ffllowwgreeks.Processing.MaxPain.Expiries.{aggregate-fold_all}
use ffllowwgreeks.Processing.MaxPain.Entries.{IsEntry, per_expiry-IsEntry}

abbrev row : ℕ → ℕ → ℕ → Row
row strike oi expires = record {
  strike = some strike;
  option_type = codes "c";
  oi = some oi;
  expiration = Expiration.day expires;
}

abbrev chain : Chain
chain = record {
  has_strike = true;
  has_option_type = true;
  has_oi = true;
  has_expiration = true;
  rows = row 5_000_000 3 20 ∷ row 5_010_000 4 21 ∷ row 4_990_000 9 10 ∷ [];
}

abbrev call : Contract
call = record { strike = 5_000_000; is_call = true; oi = 3; expiration = Expiration.day 20 }

abbrev puts : List Contract
puts = record { strike = 5_010_000; is_call = false; oi = 4; expiration = Expiration.day 20 } ∷ []

expiry_max_pain-IsMaxPain_example : IsMaxPain (call ∷ puts) (expiry_max_pain-total call puts).0
expiry_max_pain-IsMaxPain_example =
    expiry_max_pain-IsMaxPain (call ∷ puts) (expiry_max_pain-total call puts).0
      (expiry_max_pain-total call puts).1

-- Two expirations are listed from day 15 on.
aggregate-fold_all_example :
    (compute_max_pain 2 any_expiry false 15 chain).aggregate
    ≡ (compute_max_pain 1 any_expiry true 15 chain).aggregate
unfolding clean clean_rows clean_oi days_of is_active insert_unique sorted_unique active_rows
    expiries_of
aggregate-fold_all_example = aggregate-fold_all 2 1 15 chain (omega arith)

per_expiry-IsEntry_example :
    All (IsEntry 15 (clean chain)) (compute_max_pain 1 any_expiry false 15 chain).per_expiry
unfolding clean clean_rows clean_oi all_missing
per_expiry-IsEntry_example = per_expiry-IsEntry 1 15 chain refl
