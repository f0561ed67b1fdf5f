-- ===== src/Processing/VolumeProfile/Volume.antt =====
-- No volume is lost or invented by the bins of volume_profile.py.
use ffllowwgreeks.Prelude.{
  ℕ, ◌+◌, ◌≡◌, ◌==◌, refl, ap, ◌∙◌, inl, inr, Bool, Option, none, some, List, [], ◌∷◌, arith,
  Bool-cases,
}
use ffllowwgreeks.Processing.VolumeProfile.{
  Side, Trade, Bin, bin_of, merge, add_bin, kept_size, add_trade, bins_of, volume,
  compute_volume_profile, profile_of,
}

-- The volume of the trades that count: those with a price and a size.
abbrev pub traded : List Trade → ℕ
traded [] = 0
traded (t ∷ trades) = kept_size t.price t.size + traded trades

volume-add_bin : (b : Bin) (bins : List Bin) → volume (add_bin b bins) ≡ b.total + volume bins
unfolding add_bin merge
volume-add_bin b [] = refl
volume-add_bin b (c ∷ bins) = ground (arith, volume-add_bin b bins)

volume-add_trade :
    (has_side : Bool) (bin_size : ℕ) (price size : Option ℕ) (side : Side) (bins : List Bin)
    → volume (add_trade has_side bin_size price size side bins) ≡ kept_size price size + volume bins
unfolding add_trade kept_size bin_of
volume-add_trade has_side bin_size none n side bins = omega arith
volume-add_trade has_side bin_size (some p) none side bins = omega arith
volume-add_trade has_side bin_size (some p) (some n) side bins = elim (Bool-cases (n == 0)) [
  | inl zeroth ↦ rw zeroth (ground arith)
  | inr positive ↦ rw positive (volume-add_bin (bin_of has_side bin_size p n side) bins)
]

volume-bins_of :
    (has_side : Bool) (bin_size : ℕ) (trades : List Trade)
    → volume (bins_of has_side bin_size trades) ≡ traded trades
unfolding bins_of
volume-bins_of has_side bin_size [] = refl
volume-bins_of has_side bin_size (t ∷ trades) = omega (
  arith,
  volume-add_trade has_side bin_size t.price t.size t.side (bins_of has_side bin_size trades),
  volume-bins_of has_side bin_size trades,
)

total_volume-profile_of :
    (bin_size percent : ℕ) (bins : List Bin)
    → ((profile_of bin_size percent bins).total_volume ≡ volume bins)
      × ((profile_of bin_size percent bins).bins ≡ bins)
unfolding profile_of
total_volume-profile_of bin_size percent [] = (refl, refl)
total_volume-profile_of bin_size percent (b ∷ bins) = (refl, refl)

-- The total volume is that of the trades with a price and a size, whatever the bin size, and it is
-- the sum over the bins of the profile.
pub total_volume-compute_volume_profile :
    (has_side : Bool) (bin_size percent : ℕ) (trades : List Trade)
    → let profile = compute_volume_profile has_side bin_size percent trades in
      (profile.total_volume ≡ traded trades) × (volume profile.bins ≡ traded trades)
unfolding compute_volume_profile
total_volume-compute_volume_profile has_side bin_size percent trades =
    let kept = volume-bins_of has_side bin_size trades in
    let (total, same_bins) =
      total_volume-profile_of bin_size percent (bins_of has_side bin_size trades) in
    (total ∙ kept, ap volume same_bins ∙ kept)
