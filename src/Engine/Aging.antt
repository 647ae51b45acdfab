-- ===== src/Engine/Aging.antt =====
-- `evaporateAll` entry by entry: what the two nested loops make of each pheromone value.
use ant_hoc_net.Collections.Set
use ant_hoc_net.Address.{NodeAddress}
use ant_hoc_net.Collections.Key.{nat_key, pair_key}
use ant_hoc_net.Collections.Set.{OrderedSet}
use ant_hoc_net.Config.{Config}
use ant_hoc_net.Double.{Double, nought}
use ant_hoc_net.Engine.{age_regular, age_virtual}
use ant_hoc_net.Prelude.{arith, if◌then◌else◌, true, ◌&&◌, ◌==◌, ◌≡◌}
use ant_hoc_net.Table.{
  PheromoneTable, add_neighbor, get_pheromone_regular, get_pheromone_virtual,
  remove_pheromone_regular, remove_pheromone_virtual, set_pheromone_regular, set_pheromone_virtual,
}
use ant_hoc_net.Table.Entries.{
  get-remove_regular, get-remove_virtual, get-set_regular, get-set_virtual,
  get_regular-remove_virtual, get_regular-set_virtual, get_virtual-remove_regular,
  get_virtual-set_regular,
}

module _ {W : Type 0} ⦃d : Double W⦄ (c : Config W) where
  open d use {lt, le, mul}

  -- what one visit makes of a value; below `minPheromone` an entry is removed and reads as 0
  abbrev pub aged : W → W → W
  aged f ph =
      if le ph nought then ph else if lt (mul ph f) c.min_pheromone then nought else mul ph f

  module _ (f : W) (dest : NodeAddress) (t : PheromoneTable W) (n dest' n' : NodeAddress) where
    pub get-age_regular : get_pheromone_regular (age_regular c f dest t n) dest' n' ≡ (
        if n == n' && dest == dest'
        then aged f (get_pheromone_regular t dest' n')
        else get_pheromone_regular t dest' n')
    unfolding age_regular
    get-age_regular = ground (
      arith,
      get-set_regular t dest n dest' n' (mul (get_pheromone_regular t dest n) f),
      get-remove_regular t dest n dest' n',
    )

    pub get-age_virtual : get_pheromone_virtual (age_virtual c f dest t n) dest' n' ≡ (
        if n == n' && dest == dest'
        then aged f (get_pheromone_virtual t dest' n')
        else get_pheromone_virtual t dest' n')
    unfolding age_virtual
    get-age_virtual = ground (
      arith,
      get-set_virtual t dest n dest' n' (mul (get_pheromone_virtual t dest n) f),
      get-remove_virtual t dest n dest' n',
    )

    pub get_virtual-age_regular :
        get_pheromone_virtual (age_regular c f dest t n) dest' n' ≡ get_pheromone_virtual t dest' n'
    unfolding age_regular
    get_virtual-age_regular = ground (
      arith,
      get_virtual-set_regular t dest n dest' n' (mul (get_pheromone_regular t dest n) f),
      get_virtual-remove_regular t dest n dest' n',
    )

    pub get_regular-age_virtual :
        get_pheromone_regular (age_virtual c f dest t n) dest' n' ≡ get_pheromone_regular t dest' n'
    unfolding age_virtual
    get_regular-age_virtual = ground (
      arith,
      get_regular-set_virtual t dest n dest' n' (mul (get_pheromone_virtual t dest n) f),
      get_regular-remove_virtual t dest n dest' n',
    )

-- the three sets that the loops run over
abbrev pub HasSets :
    {W : Type 0} → (neighbors regular virtual : OrderedSet NodeAddress) → PheromoneTable W → Type 0
HasSets neighbors regular virtual t =
    (t.neighbors ≡ neighbors) × (t.dest_regular ≡ regular) × (t.dest_virtual ≡ virtual)

abbrev pub In : OrderedSet NodeAddress → NodeAddress → Type 0
In s n = Set.contains n s ≡ true

module _ {W : Type 0} ⦃d : Double W⦄ (c : Config W) (N R V : OrderedSet NodeAddress)
    (regular_of : (n : NodeAddress) → In N n → In R n)
    (virtual_of : (n : NodeAddress) → In N n → In V n) where
  open d use {lt, le, mul}

  -- A visit of a known link changes none of the sets.
  pub age_regular-HasSets :
      (f : W) (dest : NodeAddress) (t : PheromoneTable W) (n : NodeAddress)
      → HasSets N R V t
      → In R dest
      → In N n
      → HasSets N R V (age_regular c f dest t n)
  unfolding age_regular set_pheromone_regular add_neighbor remove_pheromone_regular
  age_regular-HasSets f dest t n h e i = ground (
    arith,
    Set.insert-contained n N i,
    Set.insert-contained n R (regular_of n i),
    Set.insert-contained n V (virtual_of n i),
    Set.insert-contained dest R e,
  )

  pub age_virtual-HasSets :
      (f : W) (dest : NodeAddress) (t : PheromoneTable W) (n : NodeAddress)
      → HasSets N R V t
      → In V dest
      → In N n
      → HasSets N R V (age_virtual c f dest t n)
  unfolding age_virtual set_pheromone_virtual remove_pheromone_virtual
  age_virtual-HasSets f dest t n h e i = ground (arith, Set.insert-contained dest V e)
