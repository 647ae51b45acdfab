-- ===== src/Generation/Tests.antt =====
-- The acceptance filter and the flood bound at concrete generations.
use ant_hoc_net.Collections.Map
use ant_hoc_net.Address.{node}
use ant_hoc_net.Collections.Key.{nat_key, pair_key}
use ant_hoc_net.Collections.Map.{Map}
use ant_hoc_net.Double.Fixed.{Fixed, fixed_double, plus}
use ant_hoc_net.Generation.{accept, allow_broadcast, empty_tracker}
use ant_hoc_net.Generation.Flood.{Event, arrival, flooding, grants, grants-le, used}
use ant_hoc_net.Generation.Validity.{IsValid, empty-IsValid, tracker-IsValid}
use ant_hoc_net.History.{Generation}
use ant_hoc_net.Prelude.{List, [], arith, pos, refl, ◌+◌, ◌∷◌, ◌≤◌}

abbrev ant : Generation
ant = (node 1, 7)

tracker-IsValid_example :
    IsValid (accept (empty_tracker 2) ant 3 (plus 500) (node 4) (plus 900) (plus 2000)).0
    × IsValid (allow_broadcast {W = Fixed} (empty_tracker 2) ant (pos 1)).0
tracker-IsValid_example =
    tracker-IsValid (empty_tracker 2) ant (empty-IsValid 2) 3 (plus 500) (node 4) (plus 900)
      (plus 2000) (pos 1)

-- two claims with an arrival between them
abbrev run : List (Event Fixed)
run = flooding ant ∷ arrival ant 3 (plus 500) (node 4) (plus 900) (plus 2000) ∷ flooding ant ∷ []

unused : used 1 ant (empty_tracker {W = Fixed} 0) ≤ 1
unfolding used Map.lookup
unused = omega arith

grants-le_example :
    grants 1 ant (empty_tracker 0) run + used 1 ant (empty_tracker {W = Fixed} 0) ≤ 1
grants-le_example = grants-le 1 ant (empty_tracker 0) run refl unused
