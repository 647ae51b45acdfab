-- ===== src/Engine/Validity.antt =====
-- The operations of the engine keep the invariant of the table.
use ant_hoc_net.Address.{NodeAddress}
use ant_hoc_net.Collections.Key.{nat_key, pair_key}
use ant_hoc_net.Collections.Map.{Map}
use ant_hoc_net.Collections.Visit.{foldl_inv}
use ant_hoc_net.Config.{Config}
use ant_hoc_net.Double.{Double, nought}
use ant_hoc_net.Engine.{
  age_regular, age_regular_dest, age_virtual, age_virtual_dest, apply_advert, clean_neighbor,
  clean_regular, clean_virtual, evaporate_all, factor_for, update_regular, update_virtual,
}
use ant_hoc_net.Message.{AntMessage}
use ant_hoc_net.Prelude.{Option, foldl, if_Holds, ◌||◌}
use ant_hoc_net.Table.{PheromoneTable}
use ant_hoc_net.Table.Validity.{
  IsValid, remove_neighbor-IsValid, remove_pheromone_regular-IsValid,
  remove_pheromone_virtual-IsValid, set_pheromone_regular-IsValid, set_pheromone_virtual-IsValid,
}

module _ {W : Type 0} ⦃d : Double W⦄ (c : Config W) where
  pub update_regular-IsValid :
      (t : PheromoneTable W) (dest n : NodeAddress) (v : W)
      → IsValid t
      → IsValid (update_regular c t dest n v)
  unfolding update_regular
  update_regular-IsValid t dest n v valid = set_pheromone_regular-IsValid t dest n _ valid

  age_regular-IsValid :
      (f : W) (dest : NodeAddress) (t : PheromoneTable W) (n : NodeAddress)
      → IsValid t
      → IsValid (age_regular c f dest t n)
  unfolding age_regular
  age_regular-IsValid f dest t n valid = if_Holds IsValid _ valid (
      if_Holds IsValid _ (remove_pheromone_regular-IsValid t dest n valid)
        (set_pheromone_regular-IsValid t dest n _ valid))

  age_virtual-IsValid :
      (f : W) (dest : NodeAddress) (t : PheromoneTable W) (n : NodeAddress)
      → IsValid t
      → IsValid (age_virtual c f dest t n)
  unfolding age_virtual
  age_virtual-IsValid f dest t n valid = if_Holds IsValid _ valid (
      if_Holds IsValid _ (remove_pheromone_virtual-IsValid t dest n valid)
        (set_pheromone_virtual-IsValid t dest n _ valid))

  age_regular_dest-IsValid :
      (factor : NodeAddress → W) (t : PheromoneTable W) (dest : NodeAddress)
      → IsValid t
      → IsValid (age_regular_dest c factor t dest)
  unfolding age_regular_dest
  age_regular_dest-IsValid factor t dest =
      foldl_inv IsValid (age_regular c (factor dest) dest) (age_regular-IsValid (factor dest) dest)
        t t.neighbors

  age_virtual_dest-IsValid :
      (factor : NodeAddress → W) (t : PheromoneTable W) (dest : NodeAddress)
      → IsValid t
      → IsValid (age_virtual_dest c factor t dest)
  unfolding age_virtual_dest
  age_virtual_dest-IsValid factor t dest =
      foldl_inv IsValid (age_virtual c (factor dest) dest) (age_virtual-IsValid (factor dest) dest)
        t t.neighbors

  pub evaporate_all-IsValid :
      (t : PheromoneTable W) (dt : W) (rates : Option (Map NodeAddress W))
      → IsValid t
      → IsValid (evaporate_all c t dt rates)
  unfolding evaporate_all
  evaporate_all-IsValid t dt rates valid =
      let factor = factor_for c dt rates in
      let t' = foldl (age_regular_dest c factor) t t.dest_regular in
      if_Holds IsValid (d.le dt nought || d.le c.evaporation_interval nought) valid (
        foldl_inv IsValid (age_virtual_dest c factor) (age_virtual_dest-IsValid factor) t'
          t'.dest_virtual
          (foldl_inv IsValid (age_regular_dest c factor) (age_regular_dest-IsValid factor) t
            t.dest_regular valid))

  pub update_virtual-IsValid :
      (t : PheromoneTable W) (m : AntMessage W) (hop_cost : W)
      → IsValid t
      → IsValid (update_virtual c t m hop_cost)
  unfolding update_virtual apply_advert
  update_virtual-IsValid t m hop_cost valid = if_Holds IsValid _ valid (
      foldl_inv IsValid _ (λ s a h. set_pheromone_virtual-IsValid s a.node m.src _ h) t
        m.hello_dests valid)

  clean_regular-IsValid :
      (n : NodeAddress) (t : PheromoneTable W) (dest : NodeAddress)
      → IsValid t
      → IsValid (clean_regular c n t dest)
  unfolding clean_regular
  clean_regular-IsValid n t dest valid =
      if_Holds IsValid _ valid (remove_pheromone_regular-IsValid t dest n valid)

  clean_virtual-IsValid :
      (n : NodeAddress) (t : PheromoneTable W) (dest : NodeAddress)
      → IsValid t
      → IsValid (clean_virtual c n t dest)
  unfolding clean_virtual
  clean_virtual-IsValid n t dest valid =
      if_Holds IsValid _ valid (remove_pheromone_virtual-IsValid t dest n valid)

  pub clean_neighbor-IsValid :
      (t : PheromoneTable W) (n : NodeAddress) → IsValid t → IsValid (clean_neighbor c t n)
  unfolding clean_neighbor
  clean_neighbor-IsValid t n valid =
      let t' = foldl (clean_regular c n) t t.dest_regular in
      remove_neighbor-IsValid _ n (
        foldl_inv IsValid (clean_virtual c n) (clean_virtual-IsValid n) t' t'.dest_virtual
          (foldl_inv IsValid (clean_regular c n) (clean_regular-IsValid n) t t.dest_regular valid))
