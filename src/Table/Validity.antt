-- ===== src/Table/Validity.antt =====
-- The invariant of the pheromone table, and that every operation that changes the table keeps it.
use ant_hoc_net.Collections.Map
use ant_hoc_net.Collections.Set
use ant_hoc_net.Address.{NodeAddress}
use ant_hoc_net.Collections.Key.{nat_key, pair_key}
use ant_hoc_net.Collections.Map.{Map}
use ant_hoc_net.Prelude.{==_iff, arith, some, true, ◌≡◌}
use ant_hoc_net.Table.{
  PheromoneTable, add_neighbor, add_pheromone_regular, add_pheromone_virtual, empty_table,
  remove_neighbor, remove_pheromone_regular, remove_pheromone_virtual, set_pheromone_regular,
  set_pheromone_virtual,
}

-- The three sets are in order, a neighbour is a destination, and an entry's destination is known to
-- the table that the entry stands in.
pub record IsValid {W : Type 0} (t : PheromoneTable W) : Type 0 where
  pub neighbors_ascending : Set.IsAscending t.neighbors
  pub regular_ascending : Set.IsAscending t.dest_regular
  pub virtual_ascending : Set.IsAscending t.dest_virtual
  pub neighbor_regular :
      (n : NodeAddress) → Set.contains n t.neighbors ≡ true → Set.contains n t.dest_regular ≡ true
  pub neighbor_virtual :
      (n : NodeAddress) → Set.contains n t.neighbors ≡ true → Set.contains n t.dest_virtual ≡ true
  pub regular_known :
      (n dest : NodeAddress) (v : W)
      → Map.lookup (n, dest) t.regular ≡ some v
      → Set.contains dest t.dest_regular ≡ true
  pub virtual_known :
      (n dest : NodeAddress) (v : W)
      → Map.lookup (n, dest) t.virtual ≡ some v
      → Set.contains dest t.dest_virtual ≡ true

module _ {W : Type 0} where
  pub empty-IsValid : IsValid (empty_table {W = W})
  unfolding Set.contains Map.lookup
  empty-IsValid = record {
    neighbors_ascending = tt;
    regular_ascending = tt;
    virtual_ascending = tt;
    neighbor_regular = λ n h. h;
    neighbor_virtual = λ n h. h;
    regular_known = λ n dest v h. cc;
    virtual_known = λ n dest v h. cc;
  }

module _ {W : Type 0} (t : PheromoneTable W) (n : NodeAddress) (valid : IsValid t) where
  pub add_neighbor-IsValid : IsValid (add_neighbor t n)
  unfolding add_neighbor
  add_neighbor-IsValid = record {
    neighbors_ascending = Set.insert-IsAscending n t.neighbors valid.neighbors_ascending;
    regular_ascending = Set.insert-IsAscending n t.dest_regular valid.regular_ascending;
    virtual_ascending = Set.insert-IsAscending n t.dest_virtual valid.virtual_ascending;
    neighbor_regular = λ m.
        rw (Set.contains-insert n m t.neighbors, Set.contains-insert n m t.dest_regular)
          (ground (arith, valid.neighbor_regular m));
    neighbor_virtual = λ m.
        rw (Set.contains-insert n m t.neighbors, Set.contains-insert n m t.dest_virtual)
          (ground (arith, valid.neighbor_virtual m));
    regular_known = λ m dest v h.
        rw (Set.contains-insert n dest t.dest_regular)
          (ground (arith, valid.regular_known m dest v h));
    virtual_known = λ m dest v h.
        rw (Set.contains-insert n dest t.dest_virtual)
          (ground (arith, valid.virtual_known m dest v h));
  }

  pub remove_neighbor-IsValid : IsValid (remove_neighbor t n)
  unfolding remove_neighbor
  remove_neighbor-IsValid = record {
    neighbors_ascending = Set.erase-IsAscending n t.neighbors valid.neighbors_ascending;
    regular_ascending = valid.regular_ascending;
    virtual_ascending = valid.virtual_ascending;
    neighbor_regular =
        λ m. rw (Set.contains-erase n m t.neighbors) (ground (arith, valid.neighbor_regular m));
    neighbor_virtual =
        λ m. rw (Set.contains-erase n m t.neighbors) (ground (arith, valid.neighbor_virtual m));
    regular_known = valid.regular_known;
    virtual_known = valid.virtual_known;
  }

module _ {W : Type 0} (t : PheromoneTable W) (dest n : NodeAddress) (v : W)
    (valid : IsValid t) where
  pub add_pheromone_regular-IsValid : IsValid (add_pheromone_regular t dest n v)
  unfolding add_pheromone_regular
  add_pheromone_regular-IsValid = record {
    neighbors_ascending = valid.neighbors_ascending;
    regular_ascending = Set.insert-IsAscending dest t.dest_regular valid.regular_ascending;
    virtual_ascending = valid.virtual_ascending;
    neighbor_regular = λ m h.
        rw (Set.contains-insert dest m t.dest_regular) (ground (arith, valid.neighbor_regular m h));
    neighbor_virtual = valid.neighbor_virtual;
    regular_known = λ m e w.
        rw
          (
            Map.lookup-insert (n, dest) (m, e) v t.regular,
            Set.contains-insert dest e t.dest_regular,
          )
          (ground (arith, valid.regular_known m e w));
    virtual_known = valid.virtual_known;
  }

  pub set_pheromone_virtual-IsValid : IsValid (set_pheromone_virtual t dest n v)
  unfolding set_pheromone_virtual
  set_pheromone_virtual-IsValid = record {
    neighbors_ascending = valid.neighbors_ascending;
    regular_ascending = valid.regular_ascending;
    virtual_ascending = Set.insert-IsAscending dest t.dest_virtual valid.virtual_ascending;
    neighbor_regular = valid.neighbor_regular;
    neighbor_virtual = λ m h.
        rw (Set.contains-insert dest m t.dest_virtual) (ground (arith, valid.neighbor_virtual m h));
    regular_known = valid.regular_known;
    virtual_known = λ m e w.
        rw
          (
            Map.lookup-insert (n, dest) (m, e) v t.virtual,
            Set.contains-insert dest e t.dest_virtual,
          )
          (ground (arith, valid.virtual_known m e w));
  }

  pub add_pheromone_virtual-IsValid : IsValid (add_pheromone_virtual t dest n v)
  unfolding add_pheromone_virtual set_pheromone_virtual
  add_pheromone_virtual-IsValid = set_pheromone_virtual-IsValid

module _ {W : Type 0} (t : PheromoneTable W) (dest n : NodeAddress) (valid : IsValid t) where
  pub remove_pheromone_regular-IsValid : IsValid (remove_pheromone_regular t dest n)
  unfolding remove_pheromone_regular
  remove_pheromone_regular-IsValid = record {
    neighbors_ascending = valid.neighbors_ascending;
    regular_ascending = valid.regular_ascending;
    virtual_ascending = valid.virtual_ascending;
    neighbor_regular = valid.neighbor_regular;
    neighbor_virtual = valid.neighbor_virtual;
    regular_known = λ m e w.
        rw (Map.lookup-erase (n, dest) (m, e) t.regular)
          (ground (arith, valid.regular_known m e w));
    virtual_known = valid.virtual_known;
  }

  pub remove_pheromone_virtual-IsValid : IsValid (remove_pheromone_virtual t dest n)
  unfolding remove_pheromone_virtual
  remove_pheromone_virtual-IsValid = record {
    neighbors_ascending = valid.neighbors_ascending;
    regular_ascending = valid.regular_ascending;
    virtual_ascending = valid.virtual_ascending;
    neighbor_regular = valid.neighbor_regular;
    neighbor_virtual = valid.neighbor_virtual;
    regular_known = valid.regular_known;
    virtual_known = λ m e w.
        rw (Map.lookup-erase (n, dest) (m, e) t.virtual)
          (ground (arith, valid.virtual_known m e w));
  }

-- a destination that is only noted, as `setPheromoneRegular` does first
noted-IsValid :
    {W : Type 0} (t : PheromoneTable W) (dest : NodeAddress)
    → IsValid t
    → IsValid (record t { dest_regular = Set.insert dest t.dest_regular })
noted-IsValid t dest valid = record {
  neighbors_ascending = valid.neighbors_ascending;
  regular_ascending = Set.insert-IsAscending dest t.dest_regular valid.regular_ascending;
  virtual_ascending = valid.virtual_ascending;
  neighbor_regular = λ m h.
      rw (Set.contains-insert dest m t.dest_regular) (ground (arith, valid.neighbor_regular m h));
  neighbor_virtual = valid.neighbor_virtual;
  regular_known = λ m e w h.
      rw (Set.contains-insert dest e t.dest_regular) (ground (arith, valid.regular_known m e w h));
  virtual_known = valid.virtual_known;
}

-- an entry for a destination that is known
written-IsValid :
    {W : Type 0} (t : PheromoneTable W) (dest n : NodeAddress) (v : W)
    → Set.contains dest t.dest_regular ≡ true
    → IsValid t
    → IsValid (record t { regular = Map.insert (n, dest) v t.regular })
written-IsValid t dest n v noted valid = record {
  neighbors_ascending = valid.neighbors_ascending;
  regular_ascending = valid.regular_ascending;
  virtual_ascending = valid.virtual_ascending;
  neighbor_regular = valid.neighbor_regular;
  neighbor_virtual = valid.neighbor_virtual;
  regular_known = λ m e w.
      rw (Map.lookup-insert (n, dest) (m, e) v t.regular)
        (ground (arith, valid.regular_known m e w));
  virtual_known = valid.virtual_known;
}

pub set_pheromone_regular-IsValid :
    {W : Type 0} (t : PheromoneTable W) (dest n : NodeAddress) (v : W)
    → IsValid t
    → IsValid (set_pheromone_regular t dest n v)
unfolding set_pheromone_regular add_neighbor
set_pheromone_regular-IsValid t dest n v valid =
    let t' = record t { dest_regular = Set.insert dest t.dest_regular } in
    written-IsValid (add_neighbor t' n) dest n v
      (rw (Set.contains-insert n dest t'.dest_regular, Set.contains-insert dest dest t.dest_regular)
        (ground (arith, ==_iff dest dest)))
      (add_neighbor-IsValid t' n (noted-IsValid t dest valid))

pub ruleset validity_laws = (
  add_neighbor-IsValid, remove_neighbor-IsValid, set_pheromone_regular-IsValid,
  set_pheromone_virtual-IsValid, remove_pheromone_regular-IsValid, remove_pheromone_virtual-IsValid,
)
