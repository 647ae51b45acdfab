-- ===== src/Table/Tests.antt =====
-- The choice of a next hop at concrete tables: neighbours 1 and 2, with routes to 9 through both.
use ant_hoc_net.Collections.Map
use ant_hoc_net.Collections.Set
use ant_hoc_net.Address.{NodeAddress, invalid_address, node}
use ant_hoc_net.Collections.Key.{nat_key, pair_key}
use ant_hoc_net.Collections.Map.{Map}
use ant_hoc_net.Double.Fixed.{Fixed, fixed_double, minus, not_number, plus}
use ant_hoc_net.Prelude.{List, [], arith, false, inl, inr, refl, some, true, ◌∷◌, ◌≡◌}
use ant_hoc_net.Table.{
  PheromoneTable, Rng, Term, add_neighbor, advance, choose, empty_table, is_known,
  next_neighbor_node, sample, selection_terms, set_pheromone_regular, shares, term_of, weighted,
}
use ant_hoc_net.Table.Choice.{
  IsOffered, draw_from, has_route, next_neighbor_node-IsOffered, next_neighbor_node_falls_back,
  sample-eq-draw_from,
}
use ant_hoc_net.Table.Refine.{
  TableOp, neighbor_removed, regular_removed, regular_set, replay, run, run_refines, view,
  virtual_added,
}
use ant_hoc_net.Table.Validity.{IsValid, empty-IsValid, set_pheromone_regular-IsValid}

abbrev pub test_table : PheromoneTable Fixed
test_table =
    set_pheromone_regular (set_pheromone_regular empty_table (node 9) (node 1) (plus 500)) (node 9)
      (node 2) (plus 250)

pub test_table-IsValid : IsValid test_table
test_table-IsValid =
    set_pheromone_regular-IsValid (set_pheromone_regular empty_table (node 9) (node 1) (plus 500))
      (node 9) (node 2) (plus 250)
      (set_pheromone_regular-IsValid empty_table (node 9) (node 1) (plus 500) empty-IsValid)

-- a route through 1 alone
abbrev single_table : PheromoneTable Fixed
single_table = set_pheromone_regular empty_table (node 9) (node 1) (plus 500)

-- draws of 0.6
abbrev test_rng : Rng Fixed
test_rng = record { stream = λ n. plus 600; used = 0 }

-- the share of 2 is 0.2
next_is_first :
    (next_neighbor_node test_table (node 9) false (plus 2000) test_rng invalid_address).0 ≡ node 1
unfolding next_neighbor_node choose selection_terms term_of sample is_known set_pheromone_regular
    add_neighbor weighted Map.lookup Map.insert Set.insert Set.contains
next_is_first = refl

has_second_route : has_route test_table (node 9) false (plus 2000) (node 1) ≡ true
unfolding selection_terms term_of is_known set_pheromone_regular add_neighbor weighted Map.lookup
    Map.insert Set.insert Set.contains
has_second_route = refl

next_neighbor_node-IsOffered_example :
    IsOffered test_table
      (node 9)
      false
      (plus 2000)
      (node 1)
      (next_neighbor_node test_table (node 9) false (plus 2000) test_rng (node 1)).0
    × ((next_neighbor_node test_table (node 9) false (plus 2000) test_rng (node 1)).1
        ≡ advance test_rng)
next_neighbor_node-IsOffered_example =
    next_neighbor_node-IsOffered test_table (node 9) false (plus 2000) test_rng (node 1) refl
      has_second_route

no_second_route : has_route single_table (node 9) false (plus 2000) (node 1) ≡ false
unfolding selection_terms term_of is_known set_pheromone_regular add_neighbor weighted Map.lookup
    Map.insert Set.insert Set.contains
no_second_route = refl

only_route : has_route single_table (node 9) false (plus 2000) invalid_address ≡ true
unfolding selection_terms term_of is_known set_pheromone_regular add_neighbor weighted Map.lookup
    Map.insert Set.insert Set.contains
only_route = refl

next_neighbor_node_falls_back_example :
    IsOffered single_table
      (node 9)
      false
      (plus 2000)
      invalid_address
      (next_neighbor_node single_table (node 9) false (plus 2000) test_rng (node 1)).0
    × ((next_neighbor_node single_table (node 9) false (plus 2000) test_rng (node 1)).1
        ≡ advance test_rng)
next_neighbor_node_falls_back_example =
    next_neighbor_node_falls_back single_table (node 9) false (plus 2000) test_rng (node 1) refl
      no_second_route refl only_route

no_route : (exclude : NodeAddress) → has_route test_table (node 8) true (plus 2000) exclude ≡ false
unfolding selection_terms term_of is_known set_pheromone_regular add_neighbor weighted Map.lookup
    Map.insert Set.insert Set.contains
no_route exclude = refl

abbrev test_terms : List (Term Fixed)
test_terms =
    record { neighbor = node 1; weight = plus 250 }
    ∷ record { neighbor = node 2; weight = plus 0 }
    ∷ record { neighbor = node 3; weight = plus 750 }
    ∷ []

keeps_zero : (r : Fixed) → fixed_double.sub r (plus 0) ≡ r
keeps_zero (plus n) = ground arith
keeps_zero (minus n) = ground arith
keeps_zero not_number = refl

drawn_third : draw_from (shares (plus 1000) test_terms) (plus 600) ≡ some (node 3)
unfolding draw_from shares
drawn_third = refl

sample-eq-draw_from_example : sample test_terms (plus 1000) (plus 600) invalid_address ≡ node 3
sample-eq-draw_from_example =
    sample-eq-draw_from test_terms (plus 1000) (plus 600) invalid_address (node 3)
      (inl refl, (inr keeps_zero, (inl refl, tt))) refl drawn_third

-- an entry set, one removed, and a neighbour gone
abbrev test_ops : List (TableOp Fixed)
test_ops =
    regular_set (node 7) (node 3) (plus 100)
    ∷ regular_removed (node 9) (node 1)
    ∷ neighbor_removed (node 2)
    ∷ virtual_added (node 8) (node 3) (plus 50)
    ∷ []

run_refines_example : view (run test_ops test_table) ≡ replay test_ops (view test_table)
run_refines_example = run_refines test_ops test_table
