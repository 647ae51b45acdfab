-- ===== src/Adaptive/Trails/Tests.antt =====
-- A table with addresses that are numbers and values in thousandths, which halves each second.
use ant_hoc_net.Collections.Map
use ant_hoc_net.Adaptive.Trails.{
  PheromoneTable, add_trail, column, configured, current, factor, find, geometric, get,
  live_entries, prune, put_column, put_entry, refresh, scan, set_at_least, size,
}
use ant_hoc_net.Collections.Key.{nat_key, pair_key}
use ant_hoc_net.Collections.Map.{Map}
use ant_hoc_net.Double.Fixed.{Fixed, fixed_double, plus}
use ant_hoc_net.Prelude.{[], refl, ℕ, ◌∷◌, ◌≡◌}

abbrev halving : PheromoneTable ℕ Fixed
halving = configured geometric (plus 500) (plus 1000) (plus 200)

abbrev two_trails : PheromoneTable ℕ Fixed
two_trails = set_at_least (add_trail halving 9 1 (plus 8000) (plus 0)) 9 2 (plus 500) (plus 1000)

halved_once : (get two_trails 9 1 (plus 2000)).0 ≡ plus 2000
unfolding get add_trail set_at_least current find put_entry column refresh factor Map.insert
    Map.replace Map.insert_new Map.lookup
halved_once = refl

-- after two seconds more the second trail, at 0.125, has evaporated
second_evaporated : (live_entries two_trails 9 (plus 3000)).0 ≡ (1, plus 1000) ∷ []
unfolding live_entries scan put_column add_trail set_at_least current find put_entry column refresh
    factor Map.insert Map.replace Map.insert_new Map.lookup
second_evaporated = refl

all_evaporated : size (prune two_trails (plus 9000)) ≡ 0
unfolding size prune live_entries scan put_column add_trail set_at_least current find put_entry
    column refresh factor Map.insert Map.erase Map.replace Map.insert_new Map.lookup Map.keys
all_evaporated = refl
