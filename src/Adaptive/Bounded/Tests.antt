-- ===== src/Adaptive/Bounded/Tests.antt =====
-- A table with addresses that are numbers and values in thousandths, and a decay of 0.1 per second.
use ant_hoc_net.Collections.Map
use ant_hoc_net.Collections.Set
use native.Mathlib.Nat.{mul-le-mul_left}
use ant_hoc_net.Adaptive.Bounded.{
  BoundedPheromoneTable, add_destination, add_neighbor, add_row, cell_of, column_live, column_of,
  configured, deposit, deposit_at, drop_row, new_column, prune, prune_columns, prune_rows, refresh,
  refresh_column, remove_neighbor, row_live,
}
use ant_hoc_net.Adaptive.Bounded.Calls.{
  IsReached-IsTable, reached_add_neighbor, reached_deposit, reached_prune, reached_remove_neighbor,
  reached_start,
}
use ant_hoc_net.Adaptive.Bounded.Inside.{IsTuned}
use ant_hoc_net.Adaptive.Bounded.Kept.{IsTable}
use ant_hoc_net.Collections.Key.{nat_key, pair_key}
use ant_hoc_net.Collections.Map.{Map}
use ant_hoc_net.Double.Fixed.{
  Fixed, Fixed-IsOrdered, fixed_add, fixed_double, fixed_le, fixed_lt, fixed_mul, minus, negative,
  not_number, plus,
}
use ant_hoc_net.Prelude.{
  Bool-cases, [], arith, inl, inr, ltb, refl, suc, true, zero, ℕ, ◌*◌, ◌+◌, ◌-◌, ◌/◌, ◌∷◌, ◌≡◌, ◌≤◌,
}

abbrev floor : Fixed
floor = plus 100

abbrev ceiling : Fixed
ceiling = plus 10000000

scaled_le : (a b : ℕ) → b ≤ 1000 → a * b / 1000 ≤ a
scaled_le a b h = omega (arith, mul-le-mul_left a h)

negative_le : (n a : ℕ) → fixed_le (negative n) (plus a) ≡ true
negative_le zero a = ground arith
negative_le (suc n) a = refl

-- whatever the decay, a value times 1 - k / 1000 is not above the value
decayed_le :
    (a k : ℕ) → fixed_le (fixed_mul (plus a) (fixed_add (plus 1000) (negative k))) (plus a) ≡ true
decayed_le a zero = ground (arith, scaled_le a 1000)
decayed_le a (suc j) = elim (Bool-cases (ltb j 1000)) [
  | inl e ↦ rw e (ground (arith, scaled_le a (1000 - j - 1)))
  | inr e ↦ rw e (negative_le (a * (j - 1000 + 1) / 1000) a)
]

test_decays :
    (v dt : Fixed)
    → fixed_le (plus 0) v ≡ true
    → fixed_lt (plus 0) dt ≡ true
    → fixed_le (fixed_mul v (fixed_add (plus 1000) (fixed_mul (minus 99) dt))) v ≡ true
test_decays (plus a) (plus n) h k = decayed_le a (100 * n / 1000)
test_decays (plus a) (minus n) h k = absurd cc
test_decays (plus a) not_number h k = absurd cc
test_decays (minus a) dt h k = absurd cc
test_decays not_number dt h k = absurd cc

test_IsTuned : IsTuned Fixed (plus 100) (plus 1000) floor ceiling
test_IsTuned = record {
  ordered = Fixed-IsOrdered;
  floor_nonneg = refl;
  floor_initial = refl;
  initial_ceiling = refl;
  decays = λ v dt nonneg below elapsed. test_decays v dt nonneg elapsed;
  grows = λ v delta. ground arith;
}

-- neighbours 1 and 2, a deposit through 2 for 9, and the loss of 1
abbrev tested : BoundedPheromoneTable ℕ Fixed
tested =
    remove_neighbor
      (deposit (add_neighbor (configured (plus 100) (plus 1000) floor ceiling) 1 (plus 0)) 9 2
        (plus 5000) (plus 1000))
      1

tested_cells : tested.cells ≡ (9, (2, record { value = plus 6000; last = plus 1000 }) ∷ []) ∷ []
unfolding remove_neighbor deposit deposit_at add_neighbor add_destination add_row new_column
    drop_row refresh column_of cell_of Map.insert Map.erase Map.replace Map.insert_new Map.lookup
    Set.insert Set.erase Set.contains
tested_cells = refl

-- an hour later all of it has decayed to the floor: the column and then the row are forgotten
tested_pruned : (prune tested (plus 3600000)).0 ≡ 2 ∷ []
unfolding prune prune_rows prune_columns row_live column_live refresh_column remove_neighbor deposit
    deposit_at add_neighbor add_destination add_row new_column drop_row refresh column_of cell_of
    Map.insert Map.erase Map.replace Map.insert_new Map.lookup Set.insert Set.erase Set.contains
tested_pruned = refl

IsReached-IsTable_example : IsTable (prune tested (plus 2000)).1
IsReached-IsTable_example = IsReached-IsTable (prune tested (plus 2000)).1 (
    reached_prune tested (plus 2000) (
      reached_remove_neighbor
        (deposit (add_neighbor (configured (plus 100) (plus 1000) floor ceiling) 1 (plus 0)) 9 2
          (plus 5000) (plus 1000))
        1
        (reached_deposit (add_neighbor (configured (plus 100) (plus 1000) floor ceiling) 1 (plus 0))
          9 2 (plus 5000) (plus 1000)
          (reached_add_neighbor (configured (plus 100) (plus 1000) floor ceiling) 1 (plus 0)
            (reached_start (plus 100) (plus 1000) floor ceiling test_IsTuned))
          refl)))
