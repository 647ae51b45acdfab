-- ===== src/Table/Refine.antt =====
-- The abstract view of the pheromone table of core/src/pheromone_table.cpp: two functions and three
-- sets, without the order and the representation of the maps, and the calls as operations on it.
use ant_hoc_net.Collections.Set
use ant_hoc_net.Address.{NodeAddress}
use ant_hoc_net.Collections.Key.{nat_key, pair_key}
use ant_hoc_net.Collections.Map.{Map, map_laws}
use ant_hoc_net.Collections.Set.{set_laws}
use ant_hoc_net.Double.{Double, nought}
use ant_hoc_net.Prelude.{
  Bool, List, Option, [], ap, arith, if◌then◌else◌, not, refl, ◌&&◌, ◌==◌, ◌||◌, ◌∙◌, ◌∷◌, ◌≡◌,
}
use ant_hoc_net.Table.{
  PheromoneTable, add_neighbor, add_pheromone_regular, add_pheromone_virtual, get_pheromone_regular,
  get_pheromone_virtual, remove_neighbor, remove_pheromone_regular, remove_pheromone_virtual,
  set_link_weights, set_pheromone_regular, set_pheromone_virtual,
}

-- one call of the table's interface that changes it
pub data TableOp (W : Type 0) : Type 0 where
  neighbor_added neighbor_removed : NodeAddress → TableOp W
  regular_added virtual_added regular_set virtual_set : NodeAddress → NodeAddress → W → TableOp W
  regular_removed virtual_removed : NodeAddress → NodeAddress → TableOp W
  weights_set : Option (Map NodeAddress W) → TableOp W

-- what the readers of the table see: the pheromone towards a destination through a neighbour, the
-- neighbours, and the destinations that are known
pub record TableView (W : Type 0) : Type 0 where
  pub regular_of : NodeAddress → NodeAddress → W
  pub virtual_of : NodeAddress → NodeAddress → W
  pub is_neighbor : NodeAddress → Bool
  pub knows_regular : NodeAddress → Bool
  pub knows_virtual : NodeAddress → Bool

-- f, with one more member
with_member : NodeAddress → (NodeAddress → Bool) → NodeAddress → Bool
with_member n f n' = n == n' || f n'

module _ {W : Type 0} where
  -- f, with v towards `dest` through n
  with_entry :
      NodeAddress
      → NodeAddress
      → W
      → (NodeAddress → NodeAddress → W)
      → NodeAddress
      → NodeAddress
      → W
  with_entry dest n v f dest' n' = if n == n' && dest == dest' then v else f dest' n'

module _ {W : Type 0} ⦃d : Double W⦄ where
  pub view : PheromoneTable W → TableView W
  view t = record {
    regular_of = get_pheromone_regular t;
    virtual_of = get_pheromone_virtual t;
    is_neighbor = λ n. Set.contains n t.neighbors;
    knows_regular = λ n. Set.contains n t.dest_regular;
    knows_virtual = λ n. Set.contains n t.dest_virtual;
  }

  apply : TableOp W → PheromoneTable W → PheromoneTable W
  unfolding add_neighbor
  apply (neighbor_added n) t = add_neighbor t n
  apply (neighbor_removed n) t = remove_neighbor t n
  apply (regular_added dest n v) t = add_pheromone_regular t dest n v
  apply (virtual_added dest n v) t = add_pheromone_virtual t dest n v
  apply (regular_set dest n v) t = set_pheromone_regular t dest n v
  apply (virtual_set dest n v) t = set_pheromone_virtual t dest n v
  apply (regular_removed dest n) t = remove_pheromone_regular t dest n
  apply (virtual_removed dest n) t = remove_pheromone_virtual t dest n
  apply (weights_set w) t = set_link_weights t w

  pub run : List (TableOp W) → PheromoneTable W → PheromoneTable W
  run [] t = t
  run (op ∷ ops) t = run ops (apply op t)

  -- the same call, on the view
  meaning : TableOp W → TableView W → TableView W
  meaning (neighbor_added n) s = record s {
    is_neighbor = with_member n s.is_neighbor;
    knows_regular = with_member n s.knows_regular;
    knows_virtual = with_member n s.knows_virtual;
  }
  meaning (neighbor_removed n) s = record s {
    is_neighbor = λ n'. not (n == n') && s.is_neighbor n';
  }
  meaning (regular_added dest n v) s = record s {
    regular_of = with_entry dest n v s.regular_of;
    knows_regular = with_member dest s.knows_regular;
  }
  meaning (virtual_added dest n v) s = record s {
    virtual_of = with_entry dest n v s.virtual_of;
    knows_virtual = with_member dest s.knows_virtual;
  }
  meaning (regular_set dest n v) s = record s {
    regular_of = with_entry dest n v s.regular_of;
    is_neighbor = with_member n s.is_neighbor;
    knows_regular = with_member n (with_member dest s.knows_regular);
    knows_virtual = with_member n s.knows_virtual;
  }
  meaning (virtual_set dest n v) s = record s {
    virtual_of = with_entry dest n v s.virtual_of;
    knows_virtual = with_member dest s.knows_virtual;
  }
  meaning (regular_removed dest n) s = record s {
    regular_of = with_entry dest n nought s.regular_of;
  }
  meaning (virtual_removed dest n) s = record s {
    virtual_of = with_entry dest n nought s.virtual_of;
  }
  meaning (weights_set w) s = s

  pub replay : List (TableOp W) → TableView W → TableView W
  replay [] s = s
  replay (op ∷ ops) s = replay ops (meaning op s)

  view_ext :
      (s s' : TableView W)
      → ((dest n : NodeAddress) → s.regular_of dest n ≡ s'.regular_of dest n)
      → ((dest n : NodeAddress) → s.virtual_of dest n ≡ s'.virtual_of dest n)
      → ((n : NodeAddress) → s.is_neighbor n ≡ s'.is_neighbor n)
      → ((n : NodeAddress) → s.knows_regular n ≡ s'.knows_regular n)
      → ((n : NodeAddress) → s.knows_virtual n ≡ s'.knows_virtual n)
      → s ≡ s'
  view_ext s s' h1 h2 h3 h4 h5 = λ i. record {
    regular_of = λ dest n. h1 dest n i;
    virtual_of = λ dest n. h2 dest n i;
    is_neighbor = λ n. h3 n i;
    knows_regular = λ n. h4 n i;
    knows_virtual = λ n. h5 n i;
  }

  apply_refines : (op : TableOp W) (t : PheromoneTable W) → view (apply op t) ≡ meaning op (view t)
  unfolding view apply meaning with_member with_entry add_neighbor remove_neighbor
      add_pheromone_regular add_pheromone_virtual set_pheromone_regular set_pheromone_virtual
      remove_pheromone_regular remove_pheromone_virtual set_link_weights get_pheromone_regular
      get_pheromone_virtual
  apply_refines (neighbor_added n) t =
      view_ext (view (apply (neighbor_added n) t)) (meaning (neighbor_added n) (view t))
        (λ dest' n'. refl) (λ dest' n'. refl) (λ n'. simp set_laws refl) (λ n'. simp set_laws refl)
        (λ n'. simp set_laws refl)
  apply_refines (neighbor_removed n) t =
      view_ext (view (apply (neighbor_removed n) t)) (meaning (neighbor_removed n) (view t))
        (λ dest' n'. refl) (λ dest' n'. refl) (λ n'. simp set_laws refl) (λ n'. refl) (λ n'. refl)
  apply_refines (regular_added dest n v) t =
      view_ext (view (apply (regular_added dest n v) t)) (meaning (regular_added dest n v) (view t))
        (λ dest' n'. simp map_laws (ground arith)) (λ dest' n'. refl) (λ n'. refl)
        (λ n'. simp set_laws refl) (λ n'. refl)
  apply_refines (virtual_added dest n v) t =
      view_ext (view (apply (virtual_added dest n v) t)) (meaning (virtual_added dest n v) (view t))
        (λ dest' n'. refl) (λ dest' n'. simp map_laws (ground arith)) (λ n'. refl) (λ n'. refl)
        (λ n'. simp set_laws refl)
  apply_refines (regular_set dest n v) t =
      view_ext (view (apply (regular_set dest n v) t)) (meaning (regular_set dest n v) (view t))
        (λ dest' n'. simp map_laws (ground arith)) (λ dest' n'. refl) (λ n'. simp set_laws refl)
        (λ n'. simp set_laws refl) (λ n'. simp set_laws refl)
  apply_refines (virtual_set dest n v) t =
      view_ext (view (apply (virtual_set dest n v) t)) (meaning (virtual_set dest n v) (view t))
        (λ dest' n'. refl) (λ dest' n'. simp map_laws (ground arith)) (λ n'. refl) (λ n'. refl)
        (λ n'. simp set_laws refl)
  apply_refines (regular_removed dest n) t =
      view_ext (view (apply (regular_removed dest n) t)) (meaning (regular_removed dest n) (view t))
        (λ dest' n'. simp map_laws (ground arith)) (λ dest' n'. refl) (λ n'. refl) (λ n'. refl)
        (λ n'. refl)
  apply_refines (virtual_removed dest n) t =
      view_ext (view (apply (virtual_removed dest n) t)) (meaning (virtual_removed dest n) (view t))
        (λ dest' n'. refl) (λ dest' n'. simp map_laws (ground arith)) (λ n'. refl) (λ n'. refl)
        (λ n'. refl)
  apply_refines (weights_set w) t = refl

  -- For every table and every sequence of the nine calls that change a table: the entries that the
  -- getters then read, the neighbours and the known destinations are those that the same calls on
  -- the abstract view give. There a call writes the one entry it names, setting a regular entry also
  -- makes its neighbour a neighbour and a known destination, and removing a neighbour takes it from
  -- the neighbours alone.
  pub run_refines :
      (ops : List (TableOp W)) (t : PheromoneTable W) → view (run ops t) ≡ replay ops (view t)
  unfolding run replay
  run_refines [] t = refl
  run_refines (op ∷ ops) t = run_refines ops (apply op t) ∙ ap (replay ops) (apply_refines op t)
