-- ===== src/Adaptive/Bounded/Loops.antt =====
-- The loops of `BoundedPheromoneTable` over the columns.
use ant_hoc_net.Collections.Map
use ant_hoc_net.Collections.Set
use ant_hoc_net.Adaptive.Bounded.{
  BoundedPheromoneTable, Cell, Columns, add_row, column_live, drop_row, prune_columns,
  refresh_column,
}
use ant_hoc_net.Adaptive.Bounded.Inside.{
  IsColumn, IsConfigured, IsInside, erase-IsColumn, insert-IsColumn, refresh_column-IsColumn,
}
use ant_hoc_net.Collections.Every.{Every}
use ant_hoc_net.Collections.Key.{Key, nat_key, pair_key}
use ant_hoc_net.Collections.Map.{Map}
use ant_hoc_net.Double.{Double}
use ant_hoc_net.Prelude.{Bool-cases, [], inl, inr, ◌||◌, ◌∷◌}

module _ {K W : Type 0} ⦃key : Key K⦄ ⦃d : Double W⦄ where
  abbrev pub IsColumnOf : BoundedPheromoneTable K W → Map.Map K (Cell W) → Type 0
  IsColumnOf t = IsColumn t.floor t.ceiling t.neighbors

  pub Every-add_row :
      (f e : W) (ns : Set.OrderedSet K) (nb : K) (c : Cell W) (m : Columns K W)
      → IsInside f e c.value
      → Every (IsColumn f e ns) m
      → Every (IsColumn f e (Set.insert nb ns)) (add_row nb c m)
  unfolding add_row
  Every-add_row f e ns nb c [] inside h = tt
  Every-add_row f e ns nb c ((dst, col) ∷ m) inside h =
      (insert-IsColumn f e ns nb c col h.0 inside, Every-add_row f e ns nb c m inside h.1)

  pub Every-drop_row :
      (f e : W) (ns : Set.OrderedSet K) (nb : K) (m : Columns K W)
      → Every (IsColumn f e ns) m
      → Every (IsColumn f e (Set.erase nb ns)) (drop_row nb m)
  unfolding drop_row
  Every-drop_row f e ns nb [] h = tt
  Every-drop_row f e ns nb ((dst, col) ∷ m) h =
      (erase-IsColumn f e ns nb col h.0, Every-drop_row f e ns nb m h.1)

  pub Every-prune_columns :
      (t : BoundedPheromoneTable K W) (now : W) (m : Columns K W)
      → IsConfigured t
      → Every (IsColumnOf t) m
      → Every (IsColumnOf t) (prune_columns t now m)
  unfolding prune_columns
  Every-prune_columns t now [] u h = tt
  Every-prune_columns t now ((dst, col) ∷ m) u h =
      let rest = Every-prune_columns t now m u h.1 in
      let col' = refresh_column t now col in
      let ok = refresh_column-IsColumn t now t.neighbors col u h.0 in
      elim (Bool-cases (column_live t.floor col' || Set.contains dst t.neighbors)) [
        | inl e ↦ rw e (ok, rest)
        | inr e ↦ rw e rest
      ]
