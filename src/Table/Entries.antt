-- ===== src/Table/Entries.antt =====
-- The entries of the pheromone table after each operation of core/src/pheromone_table.cpp.
use ant_hoc_net.Address.{NodeAddress}
use ant_hoc_net.Collections.Map.{map_laws}
use ant_hoc_net.Double.{Double, nought}
use ant_hoc_net.Prelude.{arith, if◌then◌else◌, refl, ◌&&◌, ◌==◌, ◌≡◌}
use ant_hoc_net.Table.{
  PheromoneTable, get_pheromone_regular, get_pheromone_virtual, remove_pheromone_regular,
  remove_pheromone_virtual, set_pheromone_regular, set_pheromone_virtual,
}

module _ {W : Type 0} ⦃d : Double W⦄ (t : PheromoneTable W) (dest n dest' n' : NodeAddress) where
  pub get-set_regular :
      (v : W)
      → get_pheromone_regular (set_pheromone_regular t dest n v) dest' n'
        ≡ (if n == n' && dest == dest' then v else get_pheromone_regular t dest' n')
  unfolding get_pheromone_regular set_pheromone_regular
  get-set_regular v = simp map_laws (ground arith)

  pub get-set_virtual :
      (v : W)
      → get_pheromone_virtual (set_pheromone_virtual t dest n v) dest' n'
        ≡ (if n == n' && dest == dest' then v else get_pheromone_virtual t dest' n')
  unfolding get_pheromone_virtual set_pheromone_virtual
  get-set_virtual v = simp map_laws (ground arith)

  pub get-remove_regular :
      get_pheromone_regular (remove_pheromone_regular t dest n) dest' n'
      ≡ (if n == n' && dest == dest' then nought else get_pheromone_regular t dest' n')
  unfolding get_pheromone_regular remove_pheromone_regular
  get-remove_regular = simp map_laws (ground arith)

  pub get-remove_virtual :
      get_pheromone_virtual (remove_pheromone_virtual t dest n) dest' n'
      ≡ (if n == n' && dest == dest' then nought else get_pheromone_virtual t dest' n')
  unfolding get_pheromone_virtual remove_pheromone_virtual
  get-remove_virtual = simp map_laws (ground arith)

  pub get_virtual-set_regular :
      (v : W)
      → get_pheromone_virtual (set_pheromone_regular t dest n v) dest' n'
        ≡ get_pheromone_virtual t dest' n'
  unfolding get_pheromone_virtual set_pheromone_regular
  get_virtual-set_regular v = refl

  pub get_regular-set_virtual :
      (v : W)
      → get_pheromone_regular (set_pheromone_virtual t dest n v) dest' n'
        ≡ get_pheromone_regular t dest' n'
  unfolding get_pheromone_regular set_pheromone_virtual
  get_regular-set_virtual v = refl

  pub get_virtual-remove_regular :
      get_pheromone_virtual (remove_pheromone_regular t dest n) dest' n'
      ≡ get_pheromone_virtual t dest' n'
  unfolding get_pheromone_virtual remove_pheromone_regular
  get_virtual-remove_regular = refl

  pub get_regular-remove_virtual :
      get_pheromone_regular (remove_pheromone_virtual t dest n) dest' n'
      ≡ get_pheromone_regular t dest' n'
  unfolding get_pheromone_regular remove_pheromone_virtual
  get_regular-remove_virtual = refl

pub ruleset entry_laws = (
  get-set_regular, get-set_virtual, get-remove_regular, get-remove_virtual, get_virtual-set_regular,
  get_regular-set_virtual, get_virtual-remove_regular, get_regular-remove_virtual,
)
