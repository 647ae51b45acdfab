-- ===== src/Engine.antt =====
-- `PheromoneEngine` of core/src/pheromone_engine.cpp: reinforcement, time-proportional aging,
-- diffusion of a hello's adverts, and the removal of a lost neighbour.
use ant_hoc_net.Collections.Map
pub mod Aging
pub mod Loops
pub mod Evaporation
pub mod Validity
pub mod Cleaning
mod Tests
use ant_hoc_net.Address.{NodeAddress}
use ant_hoc_net.Collections.Key.{nat_key, pair_key}
use ant_hoc_net.Collections.Map.{Map}
use ant_hoc_net.Config.{Config}
use ant_hoc_net.Double.{Double, gt, nought, one}
use ant_hoc_net.Message.{AntMessage, HelloDest}
use ant_hoc_net.Prelude.{
  Bool, List, Option, [], false, foldl, if◌then◌else◌, none, not, some, ◌||◌, ◌∷◌,
}
use ant_hoc_net.Table.{
  PheromoneTable, get_pheromone_regular, get_pheromone_virtual, remove_neighbor,
  remove_pheromone_regular, remove_pheromone_virtual, set_pheromone_regular, set_pheromone_virtual,
}

module _ {W : Type 0} ⦃d : Double W⦄ where
  open d use {literal, lt, le, add, sub, mul, div, pow}

  unfoldable pub evaporate : Config W → W → W
  evaporate c ph = sub ph (mul (sub one c.alpha) ph)

  unfoldable pub reinforce : Config W → W → W → W
  reinforce c ph update = add (mul c.gamma ph) (mul (sub one c.gamma) update)

  -- the loop of `hasRegularDestination`
  unfoldable pub some_usable : Config W → PheromoneTable W → NodeAddress → List NodeAddress → Bool
  some_usable c t dest [] = false
  some_usable c t dest (n ∷ ns) =
      gt (get_pheromone_regular t dest n) c.min_pheromone || some_usable c t dest ns

  unfoldable pub has_regular_destination : Config W → PheromoneTable W → NodeAddress → Bool
  has_regular_destination c t dest = some_usable c t dest t.neighbors

  unfoldable pub update_regular :
      Config W → PheromoneTable W → NodeAddress → NodeAddress → W → PheromoneTable W
  update_regular c t dest n update =
      set_pheromone_regular t dest n (reinforce c (get_pheromone_regular t dest n) update)

  -- `factorFor` of `evaporateAll`
  unfoldable pub factor_for : Config W → W → Option (Map NodeAddress W) → NodeAddress → W
  factor_for c dt rates dest =
      let common = pow c.alpha (div dt c.evaporation_interval) in
      elim rates [
        | none ↦ common
        | some m ↦ elim (Map.lookup dest m) [
          | none ↦ common
          | some rate ↦ pow c.alpha (mul (div dt c.evaporation_interval) rate)
        ]
      ]

  -- the body of the inner loop, on the regular table
  unfoldable pub age_regular :
      Config W → W → NodeAddress → PheromoneTable W → NodeAddress → PheromoneTable W
  age_regular c f dest t n =
      let ph = get_pheromone_regular t dest n in
      let aged = mul ph f in
      if le ph nought
      then t
      else if lt aged c.min_pheromone
      then remove_pheromone_regular t dest n
      else set_pheromone_regular t dest n aged

  unfoldable pub age_virtual :
      Config W → W → NodeAddress → PheromoneTable W → NodeAddress → PheromoneTable W
  age_virtual c f dest t n =
      let ph = get_pheromone_virtual t dest n in
      let aged = mul ph f in
      if le ph nought
      then t
      else if lt aged c.min_pheromone
      then remove_pheromone_virtual t dest n
      else set_pheromone_virtual t dest n aged

  -- the outer loop's body: the neighbours are copied before the inner loop
  unfoldable pub age_regular_dest :
      Config W → (NodeAddress → W) → PheromoneTable W → NodeAddress → PheromoneTable W
  age_regular_dest c factor t dest = foldl (age_regular c (factor dest) dest) t t.neighbors

  unfoldable pub age_virtual_dest :
      Config W → (NodeAddress → W) → PheromoneTable W → NodeAddress → PheromoneTable W
  age_virtual_dest c factor t dest = foldl (age_virtual c (factor dest) dest) t t.neighbors

  unfoldable pub evaporate_all :
      Config W → PheromoneTable W → W → Option (Map NodeAddress W) → PheromoneTable W
  evaporate_all c t dt rates =
      if le dt nought || le c.evaporation_interval nought
      then t
      else let factor = factor_for c dt rates in
        let t' = foldl (age_regular_dest c factor) t t.dest_regular in
        foldl (age_virtual_dest c factor) t' t'.dest_virtual

  -- one advert of a hello from `n`
  unfoldable pub apply_advert :
      Config W → W → NodeAddress → PheromoneTable W → HelloDest W → PheromoneTable W
  apply_advert c hop_cost n t advert =
      let bootstrapped =
        if gt advert.pheromone nought
        then div one (add (div one advert.pheromone) hop_cost)
        else nought in
      set_pheromone_virtual t advert.node n
        (reinforce c (get_pheromone_virtual t advert.node n) bootstrapped)

  unfoldable pub update_virtual : Config W → PheromoneTable W → AntMessage W → W → PheromoneTable W
  update_virtual c t message hop_cost =
      if not c.enable_proactive || not c.enable_diffusion
      then t
      else foldl (apply_advert c hop_cost message.src) t message.hello_dests

  unfoldable pub clean_regular :
      Config W → NodeAddress → PheromoneTable W → NodeAddress → PheromoneTable W
  clean_regular c n t dest =
      if lt (get_pheromone_regular t dest n) c.min_pheromone
      then t
      else remove_pheromone_regular t dest n

  unfoldable pub clean_virtual :
      Config W → NodeAddress → PheromoneTable W → NodeAddress → PheromoneTable W
  clean_virtual c n t dest =
      if lt (get_pheromone_virtual t dest n) c.min_pheromone
      then t
      else remove_pheromone_virtual t dest n

  unfoldable pub clean_neighbor : Config W → PheromoneTable W → NodeAddress → PheromoneTable W
  clean_neighbor c t n =
      let t1 = foldl (clean_regular c n) t t.dest_regular in
      let t2 = foldl (clean_virtual c n) t1 t1.dest_virtual in remove_neighbor t2 n
