-- ===== src/Engine/Evaporation.antt =====
-- What one maintenance tick's `evaporateAll` leaves of every pheromone value, and of the table.
use ant_hoc_net.Collections.Set
use ant_hoc_net.Address.{NodeAddress}
use ant_hoc_net.Collections.Key.{nat_key, pair_key}
use ant_hoc_net.Collections.Map.{Map}
use ant_hoc_net.Collections.Set.{OrderedSet}
use ant_hoc_net.Collections.Visit.{foldl_frame}
use ant_hoc_net.Config.{Config}
use ant_hoc_net.Double.{Double, nought}
use ant_hoc_net.Engine.{
  age_regular, age_regular_dest, age_virtual, age_virtual_dest, evaporate_all, factor_for,
}
use ant_hoc_net.Engine.Aging.{HasSets, aged, get_regular-age_virtual, get_virtual-age_regular}
use ant_hoc_net.Engine.Loops.{
  get-outer_regular, get-outer_virtual, outer_regular-HasSets, outer_virtual-HasSets,
}
use ant_hoc_net.Prelude.{Option, ap, arith, foldl, if◌then◌else◌, refl, ◌||◌, ◌≡◌}
use ant_hoc_net.Table.{PheromoneTable, get_pheromone_regular, get_pheromone_virtual}
use ant_hoc_net.Table.Validity.{IsValid}

module _ {W : Type 0} ⦃d : Double W⦄ (c : Config W) (t : PheromoneTable W) (dt : W)
    (rates : Option (Map NodeAddress W)) (valid : IsValid t) where
  open d use {le}

  abbrev factor : NodeAddress → W
  factor = factor_for c dt rates

  -- an entry of a known destination through a current neighbour is aged; any other stays
  abbrev pub expected : OrderedSet NodeAddress → NodeAddress → NodeAddress → W → W
  expected dests dest n ph =
      if le dt nought || le c.evaporation_interval nought
      then ph
      else if Set.contains dest dests
      then (if Set.contains n t.neighbors then aged c (factor_for c dt rates dest) ph else ph)
      else ph

  abbrev Sets : PheromoneTable W → Type 0
  Sets = HasSets t.neighbors t.dest_regular t.dest_virtual

  middle : PheromoneTable W
  middle = foldl (age_regular_dest c factor) t t.dest_regular

  middle-HasSets : Sets middle
  unfolding middle
  middle-HasSets =
      outer_regular-HasSets c factor t.neighbors t.dest_regular t.dest_virtual
        valid.neighbor_regular valid.neighbor_virtual valid.neighbors_ascending t (refl, refl, refl)

  evaporate_all-eq : evaporate_all c t dt rates ≡ (
      if le dt nought || le c.evaporation_interval nought
      then t
      else foldl (age_virtual_dest c factor) middle t.dest_virtual)
  unfolding evaporate_all middle
  evaporate_all-eq =
      ap
        (λ (s : OrderedSet NodeAddress).
          if le dt nought || le c.evaporation_interval nought
          then t
          else foldl (age_virtual_dest c factor) middle s)
        middle-HasSets.2

  get-middle :
      (dest n : NodeAddress)
      → get_pheromone_regular middle dest n ≡ (
          if Set.contains dest t.dest_regular
          then (if Set.contains n t.neighbors
              then aged c (factor dest) (get_pheromone_regular t dest n)
              else get_pheromone_regular t dest n)
          else get_pheromone_regular t dest n)
  unfolding middle
  get-middle dest n =
      get-outer_regular c factor t.neighbors t.dest_regular t.dest_virtual valid.neighbor_regular
        valid.neighbor_virtual valid.neighbors_ascending t dest n (refl, refl, refl)
        valid.regular_ascending

  get_virtual-middle :
      (dest n : NodeAddress) → get_pheromone_virtual middle dest n ≡ get_pheromone_virtual t dest n
  unfolding middle age_regular_dest
  get_virtual-middle dest n =
      foldl_frame (λ s. get_pheromone_virtual s dest n) (age_regular_dest c factor)
        (λ s e.
          foldl_frame (λ u. get_pheromone_virtual u dest n) (age_regular c (factor e) e)
            (λ u m. get_virtual-age_regular c (factor e) e u m dest n) s s.neighbors)
        t t.dest_regular

  get_regular-last :
      (dest n : NodeAddress)
      → get_pheromone_regular (foldl (age_virtual_dest c factor) middle t.dest_virtual) dest n
        ≡ get_pheromone_regular middle dest n
  unfolding age_virtual_dest
  get_regular-last dest n =
      foldl_frame (λ s. get_pheromone_regular s dest n) (age_virtual_dest c factor)
        (λ s e.
          foldl_frame (λ u. get_pheromone_regular u dest n) (age_virtual c (factor e) e)
            (λ u m. get_regular-age_virtual c (factor e) e u m dest n) s s.neighbors)
        middle t.dest_virtual

  get_virtual-last :
      (dest n : NodeAddress)
      → get_pheromone_virtual (foldl (age_virtual_dest c factor) middle t.dest_virtual) dest n ≡ (
          if Set.contains dest t.dest_virtual
          then (if Set.contains n t.neighbors
              then aged c (factor dest) (get_pheromone_virtual middle dest n)
              else get_pheromone_virtual middle dest n)
          else get_pheromone_virtual middle dest n)
  get_virtual-last dest n =
      get-outer_virtual c factor t.neighbors t.dest_regular t.dest_virtual valid.neighbor_regular
        valid.neighbor_virtual valid.neighbors_ascending middle dest n middle-HasSets
        valid.virtual_ascending

  -- In a valid table one call of `evaporateAll` ages every entry of a known destination through a
  -- current neighbour exactly once, by that destination's own factor, in the regular and in the
  -- virtual table alike: a positive value is multiplied by the factor, and removed if that falls
  -- below `minPheromone`. Every other entry stays, and all stay if no time passed or the interval is
  -- not positive. The neighbours and the known destinations do not change.
  pub evaporate_all_lem :
      (dest n : NodeAddress)
      → (get_pheromone_regular (evaporate_all c t dt rates) dest n
          ≡ expected t.dest_regular dest n (get_pheromone_regular t dest n))
        × (get_pheromone_virtual (evaporate_all c t dt rates) dest n
            ≡ expected t.dest_virtual dest n (get_pheromone_virtual t dest n))
        × HasSets t.neighbors t.dest_regular t.dest_virtual (evaporate_all c t dt rates)
  evaporate_all_lem dest n = rw evaporate_all-eq (
    ground (arith, get_regular-last dest n, get-middle dest n),
    ground (arith, get_virtual-last dest n, get_virtual-middle dest n),
    ground (
      arith,
      outer_virtual-HasSets c factor t.neighbors t.dest_regular t.dest_virtual
          valid.neighbor_regular valid.neighbor_virtual valid.neighbors_ascending middle
          middle-HasSets,
    ),
  )
