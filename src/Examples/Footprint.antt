-- ===== src/Examples/Footprint.antt =====
-- Three trades in two price bins in volume_profile.py.
use ffllowwgreeks.Prelude.{◌+◌, ◌*◌, ◌≤◌, ◌≡◌, List, [], ◌∷◌, some, true, arith}
use ffllowwgreeks.Processing.VolumeProfile.{
  Side, Trade, Bin, volume, value_area, compute_volume_profile,
}
use ffllowwgreeks.Processing.VolumeProfile.Volume.{traded, total_volume-compute_volume_profile}
use ffllowwgreeks.Processing.VolumeProfile.Coverage.{value_area_covers}

abbrev tape : List Trade
tape =
    record { price = some 1000; size = some 3; side = Side.buy }
    ∷ record { price = some 1010; size = some 5; side = Side.sell }
    ∷ record { price = some 1025; size = some 2; side = Side.neither }
    ∷ []

total_volume-compute_volume_profile_example :
    let profile = compute_volume_profile true 25 70 tape in
    (profile.total_volume ≡ traded tape) × (volume profile.bins ≡ traded tape)
total_volume-compute_volume_profile_example = total_volume-compute_volume_profile true 25 70 tape

abbrev low_bin : Bin
low_bin = record { price = 40; total = 8; buy = 3; sell = 5 }

abbrev high_bins : List Bin
high_bins = record { price = 41; total = 2; buy = 0; sell = 0 } ∷ []

value_area_covers_example :
    let area = value_area 70 low_bin high_bins in
    (70 * volume (low_bin ∷ high_bins) ≤ 100 * area.accumulated)
    × (area.accumulated + volume area.below + volume area.above ≡ volume (low_bin ∷ high_bins))
value_area_covers_example = value_area_covers 70 low_bin high_bins (omega arith)
