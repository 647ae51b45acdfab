-- ===== src/Engine/Tests.antt =====
-- The engine at a concrete table and configuration.
use ant_hoc_net.Collections.Set
use ant_hoc_net.Address.{NodeAddress, node}
use ant_hoc_net.Collections.Key.{nat_key, pair_key}
use ant_hoc_net.Collections.Map.{Map}
use ant_hoc_net.Config.{Config, default_config}
use ant_hoc_net.Double.Fixed.{Fixed, fixed_double, plus}
use ant_hoc_net.Engine.{clean_neighbor, evaporate_all}
use ant_hoc_net.Engine.Aging.{HasSets}
use ant_hoc_net.Engine.Cleaning.{clean_neighbor_lem, cleaned}
use ant_hoc_net.Engine.Evaporation.{evaporate_all_lem, expected}
use ant_hoc_net.Message.{AntMessage, hello, new_message}
use ant_hoc_net.Prelude.{Option, [], if◌then◌else◌, not, some, ◌&&◌, ◌==◌, ◌∷◌, ◌≡◌}
use ant_hoc_net.Table.{get_pheromone_regular, get_pheromone_virtual}
use ant_hoc_net.Table.Tests.{test_table, test_table-IsValid}

abbrev test_config : Config Fixed
test_config = record default_config { min_pheromone = plus 200 }

abbrev test_hello : AntMessage Fixed
test_hello = record new_message {
  type = hello;
  src = node 2;
  hello_dests = record { node = node 7; pheromone = plus 400 } ∷ [];
}

-- half a second at the default 0.7 per second, with a doubled rate for 9
abbrev test_rates : Option (Map NodeAddress Fixed)
test_rates = some ((node 9, plus 2000) ∷ [])

evaporate_all_example :
    (get_pheromone_regular
        (evaporate_all test_config test_table (plus 1000) test_rates)
        (node 9)
        (node 1)
      ≡ expected test_config test_table
          (plus 1000)
          test_rates
          test_table-IsValid
          test_table.dest_regular
          (node 9)
          (node 1)
          (get_pheromone_regular test_table (node 9) (node 1)))
    × (get_pheromone_virtual
          (evaporate_all test_config test_table (plus 1000) test_rates)
          (node 9)
          (node 1)
        ≡ expected test_config test_table
            (plus 1000)
            test_rates
            test_table-IsValid
            test_table.dest_virtual
            (node 9)
            (node 1)
            (get_pheromone_virtual test_table (node 9) (node 1)))
    × HasSets test_table.neighbors test_table.dest_regular test_table.dest_virtual
        (evaporate_all test_config test_table (plus 1000) test_rates)
evaporate_all_example =
    evaporate_all_lem test_config test_table (plus 1000) test_rates test_table-IsValid (node 9)
      (node 1)

clean_neighbor_example :
    (get_pheromone_regular (clean_neighbor test_config test_table (node 1)) (node 9) (node 1) ≡ (
      if node 1 == node 1
      then cleaned test_config (node 1) (get_pheromone_regular test_table (node 9) (node 1))
      else get_pheromone_regular test_table (node 9) (node 1)))
    × (get_pheromone_virtual (clean_neighbor test_config test_table (node 1)) (node 9) (node 1) ≡ (
        if node 1 == node 1
        then cleaned test_config (node 1) (get_pheromone_virtual test_table (node 9) (node 1))
        else get_pheromone_virtual test_table (node 9) (node 1)))
    × (Set.contains (node 1) (clean_neighbor test_config test_table (node 1)).neighbors
        ≡ (not (node 1 == node 1) && Set.contains (node 1) test_table.neighbors))
clean_neighbor_example =
    clean_neighbor_lem test_config (node 1) test_table test_table-IsValid (node 9) (node 1)
