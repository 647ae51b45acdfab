-- ===== src/Adaptive/Tests.antt =====
-- Runs of `ForagerStore` on a small store, with addresses that are numbers.
use ant_hoc_net.Collections.Map
use ant_hoc_net.Adaptive.{
  Entry, Forager, ForagerStore, array_of, bee_dances, entry_of, put, remove_link, take_forager,
}
use ant_hoc_net.Adaptive.Links.{Crosses, remove_link_iff}
use ant_hoc_net.Adaptive.Pick.{
  IsAdditive, IsPositiveAt, pick_proportional, pick_proportional_lem, sum_from,
}
use ant_hoc_net.Adaptive.Take.{IsRouteOf, take_forager-finds}
use ant_hoc_net.Adaptive.Valid.{
  IsReached, IsReached-IsStore, IsStore, reached_put, reached_remove_link, reached_start,
}
use ant_hoc_net.Collections.Key.{nat_key, pair_key}
use ant_hoc_net.Collections.Map.{Map}
use ant_hoc_net.Double.Fixed.{Fixed, fixed_double, fixed_le, plus}
use ant_hoc_net.Prelude.{
  Among, List, [], arith, false, none, refl, some, true, ℕ, ◌↔◌, ◌∷◌, ◌≡◌, ◌⊎◌,
}

abbrev empty_store : ForagerStore ℕ Fixed
empty_store = record {
  entries = [];
  array_size = 64;
  lifetime = plus 2000;
  dance_time = plus 2000;
  max_hops = 10;
  max_dances = 8;
  cap_dances = true;
}

-- routes from 1 to 9
abbrev forager : List ℕ → Forager ℕ Fixed
forager path = record { path = path; levels = 7 ∷ []; dances = 0; stamp = plus 0 }

abbrev after_one : ForagerStore ℕ Fixed
after_one = (put empty_store 9 (forager (1 ∷ 2 ∷ 9 ∷ [])) false (plus 0)).1

abbrev after_two : ForagerStore ℕ Fixed
after_two = (put after_one 9 (forager (1 ∷ 3 ∷ 9 ∷ [])) true (plus 0)).1

-- a route of two links rates no higher than one of a single link
two_links : bee_dances 2 (7 ∷ []) 10 8 true ≡ 8
unfolding bee_dances
two_links = refl

uncapped : bee_dances 2 (7 ∷ []) 10 8 false ≡ 10
unfolding bee_dances
uncapped = refl

after_two-IsReached : IsReached 64 10 8 after_two
after_two-IsReached = reached_put after_one 9 (forager (1 ∷ 3 ∷ 9 ∷ [])) true (plus 0) (
    reached_put empty_store 9 (forager (1 ∷ 2 ∷ 9 ∷ [])) false (plus 0)
      (reached_start (plus 2000) (plus 2000)))

IsReached-IsStore_example : IsStore 64 10 8 (remove_link after_two 1 3)
IsReached-IsStore_example =
    IsReached-IsStore 64 10 8 (remove_link after_two 1 3)
      (reached_remove_link after_two 1 3 after_two-IsReached)

abbrev both : Entry ℕ Fixed
both = record {
  own = record { path = 1 ∷ 2 ∷ 9 ∷ []; levels = 7 ∷ []; dances = 8; stamp = plus 0 } ∷ [];
  foreign = record { path = 1 ∷ 3 ∷ 9 ∷ []; levels = 7 ∷ []; dances = 8; stamp = plus 0 } ∷ [];
}

both_found : Map.lookup 9 after_two.entries ≡ some both
unfolding put
both_found = refl

abbrev pick_first : ℕ → ℕ → ℕ
pick_first k n = 0

-- ten seconds later neither dances, and the first is older than its lifetime
take_forager-finds_example :
    (f : Forager ℕ Fixed) × (s : ForagerStore ℕ Fixed) × (take_forager pick_first after_two 9
        (plus 10000)
      ≡ some (some f, s))
    × IsRouteOf both f
take_forager-finds_example =
    take_forager-finds pick_first after_two 9 (plus 10000) both (λ k n h. h) both_found
      (omega arith)

remove_link_iff_example :
    Among (forager (1 ∷ 3 ∷ 9 ∷ [])) (array_of (entry_of (remove_link after_two 1 3) 9) true) ↔ (
      Among (forager (1 ∷ 3 ∷ 9 ∷ [])) (array_of (entry_of after_two 9) true)
      × ¬ Crosses {K = ℕ} 1 3 (1 ∷ 3 ∷ 9 ∷ []))
remove_link_iff_example = remove_link_iff after_two 1 3 9 true (forager (1 ∷ 3 ∷ 9 ∷ []))

gone : entry_of (remove_link after_two 1 3) 9 ≡ record { own = both.own; foreign = [] }
unfolding put remove_link
gone = refl

Fixed-IsAdditive : IsAdditive Fixed
Fixed-IsAdditive = record {
  lt_le = λ a b c. ground arith;
  le_trans = λ a b c. ground arith;
  le_nought = refl;
  add_le = λ a w. ground arith;
  add_same = λ a w. ground arith;
  add_natural = λ a w. ground arith;
}

-- the first weight is never drawn
abbrev weights : List Fixed
weights = plus 0 ∷ plus 3000 ∷ plus 1000 ∷ []

drawn : pick_proportional weights (plus 0) ≡ some 1
unfolding pick_proportional
drawn = refl

pick_proportional_example :
    ((fixed_le (sum_from (plus 0) weights) (plus 0) ≡ true)
      × (pick_proportional weights (plus 500) ≡ none))
    ⊎ ((i : ℕ) × (pick_proportional weights (plus 500) ≡ some i)
        × IsPositiveAt Fixed-IsAdditive weights i)
pick_proportional_example =
    pick_proportional_lem Fixed-IsAdditive weights (plus 500) (refl, (refl, (refl, tt))) refl
