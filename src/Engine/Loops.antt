-- ===== src/Engine/Loops.antt =====
-- The nested loops of `evaporateAll`: every link of a neighbour is aged once.
use ant_hoc_net.Collections.Set
use ant_hoc_net.Address.{NodeAddress}
use ant_hoc_net.Collections.Key.{nat_key, pair_key}
use ant_hoc_net.Collections.Set.{OrderedSet}
use ant_hoc_net.Collections.Visit.{contains→All, visit-Inv, visit_once}
use ant_hoc_net.Config.{Config}
use ant_hoc_net.Double.{Double}
use ant_hoc_net.Engine.{age_regular, age_regular_dest, age_virtual, age_virtual_dest}
use ant_hoc_net.Engine.Aging.{
  HasSets, In, age_regular-HasSets, age_virtual-HasSets, aged, get-age_regular, get-age_virtual,
}
use ant_hoc_net.Prelude.{ap, arith, foldl, if◌then◌else◌, ◌==◌, ◌≡◌}
use ant_hoc_net.Table.{PheromoneTable, get_pheromone_regular, get_pheromone_virtual}

module _ {W : Type 0} ⦃d : Double W⦄ (c : Config W) (factor : NodeAddress → W)
    (N R V : OrderedSet NodeAddress) (regular_of : (n : NodeAddress) → In N n → In R n)
    (virtual_of : (n : NodeAddress) → In N n → In V n) (asc_N : Set.IsAscending N) where
  abbrev inner_regular : NodeAddress → PheromoneTable W → NodeAddress → PheromoneTable W
  inner_regular dest = age_regular c (factor dest) dest

  abbrev inner_virtual : NodeAddress → PheromoneTable W → NodeAddress → PheromoneTable W
  inner_virtual dest = age_virtual c (factor dest) dest

  age_regular_dest-eq :
      (t : PheromoneTable W) (dest : NodeAddress)
      → t.neighbors ≡ N
      → age_regular_dest c factor t dest ≡ foldl (inner_regular dest) t N
  unfolding age_regular_dest
  age_regular_dest-eq t dest h = ap (foldl (inner_regular dest) t) h

  inner_regular-HasSets :
      (t : PheromoneTable W) (dest : NodeAddress)
      → HasSets N R V t
      → In R dest
      → HasSets N R V (age_regular_dest c factor t dest)
  inner_regular-HasSets t dest h e = rw (age_regular_dest-eq t dest h.0) (
      visit-Inv (inner_regular dest) (HasSets N R V) (In N)
        (λ s n i k. age_regular-HasSets c N R V regular_of virtual_of (factor dest) dest s n i e k)
        t N h (contains→All (In N) N (λ m i. i)))

  age_virtual_dest-eq :
      (t : PheromoneTable W) (dest : NodeAddress)
      → t.neighbors ≡ N
      → age_virtual_dest c factor t dest ≡ foldl (inner_virtual dest) t N
  unfolding age_virtual_dest
  age_virtual_dest-eq t dest h = ap (foldl (inner_virtual dest) t) h

  inner_virtual-HasSets :
      (t : PheromoneTable W) (dest : NodeAddress)
      → HasSets N R V t
      → In V dest
      → HasSets N R V (age_virtual_dest c factor t dest)
  inner_virtual-HasSets t dest h e = rw (age_virtual_dest-eq t dest h.0) (
      visit-Inv (inner_virtual dest) (HasSets N R V) (In N)
        (λ s n i k. age_virtual-HasSets c N R V regular_of virtual_of (factor dest) dest s n i e k)
        t N h (contains→All (In N) N (λ m i. i)))

  -- one outer round ages the entries of its destination, through every neighbour, and no other
  get-inner_regular :
      (n' : NodeAddress) (t : PheromoneTable W) (dest dest' : NodeAddress)
      → HasSets N R V t
      → In R dest
      → get_pheromone_regular (age_regular_dest c factor t dest) dest' n' ≡ (
          if dest == dest'
          then (if Set.contains n' N
              then aged c (factor dest') (get_pheromone_regular t dest' n')
              else get_pheromone_regular t dest' n')
          else get_pheromone_regular t dest' n')
  get-inner_regular n' t dest dest' h e =
      rw
        (
          age_regular_dest-eq t dest h.0,
          visit_once (inner_regular dest) (HasSets N R V) (In N)
              (λ s n i k.
                age_regular-HasSets c N R V regular_of virtual_of (factor dest) dest s n i e k)
              (λ s m. get_pheromone_regular s dest' m)
              (λ m ph. if dest == dest' then aged c (factor dest) ph else ph)
              (λ s n m i k. ground (arith, get-age_regular c (factor dest) dest s n dest' m)) t N n'
              h (contains→All (In N) N (λ m i. i)) asc_N,
        )
        (ground arith)

  get-inner_virtual :
      (n' : NodeAddress) (t : PheromoneTable W) (dest dest' : NodeAddress)
      → HasSets N R V t
      → In V dest
      → get_pheromone_virtual (age_virtual_dest c factor t dest) dest' n' ≡ (
          if dest == dest'
          then (if Set.contains n' N
              then aged c (factor dest') (get_pheromone_virtual t dest' n')
              else get_pheromone_virtual t dest' n')
          else get_pheromone_virtual t dest' n')
  get-inner_virtual n' t dest dest' h e =
      rw
        (
          age_virtual_dest-eq t dest h.0,
          visit_once (inner_virtual dest) (HasSets N R V) (In N)
              (λ s n i k.
                age_virtual-HasSets c N R V regular_of virtual_of (factor dest) dest s n i e k)
              (λ s m. get_pheromone_virtual s dest' m)
              (λ m ph. if dest == dest' then aged c (factor dest) ph else ph)
              (λ s n m i k. ground (arith, get-age_virtual c (factor dest) dest s n dest' m)) t N n'
              h (contains→All (In N) N (λ m i. i)) asc_N,
        )
        (ground arith)

  pub get-outer_regular :
      (t : PheromoneTable W) (dest n : NodeAddress)
      → HasSets N R V t
      → Set.IsAscending R
      → get_pheromone_regular (foldl (age_regular_dest c factor) t R) dest n ≡ (
          if Set.contains dest R
          then (if Set.contains n N
              then aged c (factor dest) (get_pheromone_regular t dest n)
              else get_pheromone_regular t dest n)
          else get_pheromone_regular t dest n)
  get-outer_regular t dest n h asc_R =
      visit_once (age_regular_dest c factor) (HasSets N R V) (In R) inner_regular-HasSets
        (λ s e. get_pheromone_regular s e n)
        (λ e ph. if Set.contains n N then aged c (factor e) ph else ph) (get-inner_regular n) t R
        dest h (contains→All (In R) R (λ m i. i)) asc_R

  pub get-outer_virtual :
      (t : PheromoneTable W) (dest n : NodeAddress)
      → HasSets N R V t
      → Set.IsAscending V
      → get_pheromone_virtual (foldl (age_virtual_dest c factor) t V) dest n ≡ (
          if Set.contains dest V
          then (if Set.contains n N
              then aged c (factor dest) (get_pheromone_virtual t dest n)
              else get_pheromone_virtual t dest n)
          else get_pheromone_virtual t dest n)
  get-outer_virtual t dest n h asc_V =
      visit_once (age_virtual_dest c factor) (HasSets N R V) (In V) inner_virtual-HasSets
        (λ s e. get_pheromone_virtual s e n)
        (λ e ph. if Set.contains n N then aged c (factor e) ph else ph) (get-inner_virtual n) t V
        dest h (contains→All (In V) V (λ m i. i)) asc_V

  pub outer_regular-HasSets :
      (t : PheromoneTable W)
      → HasSets N R V t
      → HasSets N R V (foldl (age_regular_dest c factor) t R)
  outer_regular-HasSets t h =
      visit-Inv (age_regular_dest c factor) (HasSets N R V) (In R) inner_regular-HasSets t R h
        (contains→All (In R) R (λ m i. i))

  pub outer_virtual-HasSets :
      (t : PheromoneTable W)
      → HasSets N R V t
      → HasSets N R V (foldl (age_virtual_dest c factor) t V)
  outer_virtual-HasSets t h =
      visit-Inv (age_virtual_dest c factor) (HasSets N R V) (In V) inner_virtual-HasSets t V h
        (contains→All (In V) V (λ m i. i))
