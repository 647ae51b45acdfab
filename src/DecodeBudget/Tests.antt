-- ===== src/DecodeBudget/Tests.antt =====
-- A budget in thousandths, with rough logarithms.
use ant_hoc_net.DecodeBudget.{
  NakagamiProfile, Special, TwoRayBudget, nakagami_link_probability, nakagami_median_radius,
  start_width,
}
use ant_hoc_net.DecodeBudget.Median.{IsMedian, doubled, nakagami_median_radius-IsMedian}
use ant_hoc_net.Double.Fixed.{Fixed, fixed_double, minus, plus}
use ant_hoc_net.Prelude.{false, refl, some, ◌*◌, ◌^◌, ◌≡◌}

abbrev rough : Special Fixed
rough = record { log10 = λ x. plus 0; log = λ x. plus 0; lgamma = λ x. plus 0 }

abbrev test_budget : TwoRayBudget Fixed
test_budget = record {
  tx_power_dbm = plus 16000;
  tx_gain_db = plus 0;
  rx_gain_db = plus 0;
  frequency_hz = plus (5180 * 10 ^ 9);
  height_m = plus 1500;
  system_loss = plus 1000;
  min_distance_m = plus 500;
}

abbrev test_profile : NakagamiProfile Fixed
test_profile = record {
  distance1_m = plus 80000;
  distance2_m = plus 200000;
  m0 = plus 1500;
  m1 = plus 750;
  m2 = plus 750;
}

past_limit :
    fixed_double.lt (doubled 23 (start_width test_budget)) (fixed_double.literal (10 ^ 7) 0) ≡ false
unfolding doubled
past_limit = refl

nakagami_median_radius-IsMedian_example :
    (r : Fixed) × (nakagami_median_radius ⦃special = rough⦄ 24 test_budget test_profile
        (minus 81999)
      ≡ some r)
    × IsMedian
        (nakagami_link_probability ⦃special = rough⦄ test_budget test_profile (minus 81999))
        r
nakagami_median_radius-IsMedian_example =
    nakagami_median_radius-IsMedian ⦃special = rough⦄ test_budget test_profile (minus 81999) 23
      past_limit
