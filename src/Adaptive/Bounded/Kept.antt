-- ===== src/Adaptive/Bounded/Kept.antt =====
-- What each call of `BoundedPheromoneTable` keeps of the columns.
use ant_hoc_net.Collections.Map
use ant_hoc_net.Collections.Set
use ant_hoc_net.Adaptive.Bounded.{
  BoundedPheromoneTable, Cell, add_destination, add_neighbor, cell_of, column_of, deposit,
  deposit_at, fresh, get, new_column, prune, prune_columns, prune_rows, refresh, remove_neighbor,
  row_live, std_min,
}
use ant_hoc_net.Adaptive.Bounded.Inside.{
  IsColumn, IsConfigured, IsInside, insert-IsColumn, new_column-IsColumn, refresh-IsInside,
  std_min-IsInside,
}
use ant_hoc_net.Adaptive.Bounded.Loops.{
  Every-add_row, Every-drop_row, Every-prune_columns, IsColumnOf,
}
use ant_hoc_net.Collections.Every.{Every, Every-insert, Every-lookup}
use ant_hoc_net.Collections.Key.{Key, nat_key, pair_key}
use ant_hoc_net.Collections.Map.{Map}
use ant_hoc_net.Double.{Double, nought}
use ant_hoc_net.Prelude.{
  Bool-cases, List, Option-cases, [], arith, inl, inr, refl, some, subst, true, ◌∷◌, ◌≡◌,
}

module _ {K W : Type 0} ⦃key : Key K⦄ ⦃d : Double W⦄ where
  open key use {beq, beq_iff}

  -- every column of a table has a cell for each neighbour and for no other, and every cell is between the
  -- floor and the ceiling
  abbrev pub IsTable : BoundedPheromoneTable K W → Type 0
  IsTable t = IsConfigured t × Every (IsColumnOf t) t.cells

  pub add_neighbor-IsTable :
      (t : BoundedPheromoneTable K W) (nb : K) (now : W)
      → IsTable t
      → IsTable (add_neighbor t nb now)
  unfolding add_neighbor
  add_neighbor-IsTable t nb now h = elim (Bool-cases (Set.contains nb t.neighbors)) [
    | inl e ↦ rw e h
    | inr e ↦
        let u = h.0 in
        rw e (
          u,
          Every-add_row t.floor t.ceiling t.neighbors nb (fresh t now) t.cells
              (u.floor_initial, u.initial_ceiling) h.1,
        )
  ]

  contains-add_neighbor :
      (t : BoundedPheromoneTable K W) (nb : K) (now : W)
      → Set.contains nb (add_neighbor t nb now).neighbors ≡ true
  unfolding add_neighbor
  contains-add_neighbor t nb now =
      ground (arith, Set.contains-insert nb nb t.neighbors, Map.beq_refl nb)

  -- after it the column is there, and the neighbours are those before
  pub add_destination-IsTable :
      (t : BoundedPheromoneTable K W) (dst : K) (now : W)
      → IsTable t
      → IsTable (add_destination t dst now)
        × ((add_destination t dst now).neighbors ≡ t.neighbors)
        × ((col : Map.Map K (Cell W)) × (Map.lookup dst (add_destination t dst now).cells
              ≡ some col))
  unfolding add_destination Map.lookup
  add_destination-IsTable t dst now h = elim (Option-cases (Map.lookup dst t.cells)) [
    | inl e ↦
        let u = h.0 in
        let col = new_column (fresh t now) t.neighbors [] in
        rw (add_destination, e)
          (
            (
              u,
              Every-insert (IsColumnOf t) dst col t.cells h.1 (
                  new_column-IsColumn t.floor t.ceiling t.neighbors (fresh t now)
                    (u.floor_initial, u.initial_ceiling)),
            ),
            refl,
            (col, Map.lookup-insert_self dst col t.cells),
          )
    | inr (col, e) ↦ rw (add_destination, e) (h, refl, (col, e))
  ]

  -- a cell of a column replaced by one between the floor and the ceiling
  with_cell-IsTable :
      (t : BoundedPheromoneTable K W) (dst nb : K) (col : Map.Map K (Cell W)) (c : Cell W)
      → IsTable t
      → Map.lookup dst t.cells ≡ some col
      → Set.contains nb t.neighbors ≡ true
      → IsInside t.floor t.ceiling c.value
      → IsTable (record t { cells = Map.insert dst (Map.insert nb c col) t.cells })
  with_cell-IsTable t dst nb col c h at known inside =
      let ok = Every-lookup (IsColumnOf t) dst col t.cells h.1 at in
      let more = insert-IsColumn t.floor t.ceiling t.neighbors nb c col ok inside in
      let same = Set.insert-contained nb t.neighbors known in
      (
        h.0,
        Every-insert (IsColumnOf t) dst (Map.insert nb c col) t.cells h.1
            (subst (λ ns. IsColumn t.floor t.ceiling ns (Map.insert nb c col)) same more),
      )

  -- the cell that a complete column has for a neighbour
  cell-IsInside :
      (t : BoundedPheromoneTable K W) (dst nb : K) (col : Map.Map K (Cell W))
      → IsTable t
      → Map.lookup dst t.cells ≡ some col
      → Set.contains nb t.neighbors ≡ true
      → (c : Cell W) × (Map.lookup nb col ≡ some c) × IsInside t.floor t.ceiling c.value
  cell-IsInside t dst nb col h at known =
      let ok = Every-lookup (IsColumnOf t) dst col t.cells h.1 at in
      elim (Option-cases (Map.lookup nb col)) [
        | inl e ↦ absurd (ground (arith, ok.1 nb, known, e))
        | inr (c, e) ↦
            (c, e, Every-lookup (λ x. IsInside t.floor t.ceiling x.value) nb c col ok.0 e)
      ]

  column_of_found :
      (t : BoundedPheromoneTable K W) (dst : K) (col : Map.Map K (Cell W))
      → Map.lookup dst t.cells ≡ some col
      → column_of t dst ≡ col
  unfolding column_of
  column_of_found t dst col at = rw (column_of, at) refl

  cell_of_found :
      (col : Map.Map K (Cell W)) (nb : K) (c : Cell W)
      → Map.lookup nb col ≡ some c
      → cell_of col nb ≡ c
  unfolding cell_of
  cell_of_found col nb c at = rw (cell_of, at) refl

  deposit_at-IsTable :
      (t : BoundedPheromoneTable K W) (dst nb : K) (delta now : W) (col : Map.Map K (Cell W))
      → IsTable t
      → Map.lookup dst t.cells ≡ some col
      → Set.contains nb t.neighbors ≡ true
      → d.le nought delta ≡ true
      → IsTable (deposit_at t dst nb delta now)
  unfolding deposit_at
  deposit_at-IsTable t dst nb delta now col h at known positive =
      let u = h.0 in
      let o = u.ordered in
      let (c, found, inside) = cell-IsInside t dst nb col h at known in
      let c' = refresh t c now in
      let (low, high) = refresh-IsInside t c now u inside in
      let nonneg = o.le_trans nought t.floor c'.value u.floor_nonneg low in
      let sum = d.add c'.value delta in
      let above =
        o.le_trans t.floor c'.value sum low (u.grows c'.value delta nonneg high positive) in
      let span = o.le_trans t.floor t.initial t.ceiling u.floor_initial u.initial_ceiling in
      rw (column_of_found t dst col at, cell_of_found col nb c found)
        (with_cell-IsTable t dst nb col (record c' { value = std_min t.ceiling sum }) h at known
          (std_min-IsInside o t.floor t.ceiling sum span above))

  pub deposit-IsTable :
      (t : BoundedPheromoneTable K W) (dst nb : K) (delta now : W)
      → IsTable t
      → d.le nought delta ≡ true
      → IsTable (deposit t dst nb delta now)
  unfolding deposit
  deposit-IsTable t dst nb delta now h positive =
      let t1 = add_neighbor t nb now in
      let (ok, same, (col, at)) =
        add_destination-IsTable t1 dst now (add_neighbor-IsTable t nb now h) in
      deposit_at-IsTable (add_destination t1 dst now) dst nb delta now col ok at
        (rw same (contains-add_neighbor t nb now)) positive

  pub get-IsTable :
      (t : BoundedPheromoneTable K W) (dst nb : K) (now : W)
      → IsTable t
      → IsTable (get t dst nb now).1
  unfolding get
  get-IsTable t dst nb now h = elim (Option-cases (Map.lookup dst t.cells)) [
    | inl e ↦ rw (get, e) h
    | inr (col, at) ↦ elim (Option-cases (Map.lookup nb col)) [
      | inl e ↦ rw (get, at, e) h
      | inr (c, e) ↦
          let ok = Every-lookup (IsColumnOf t) dst col t.cells h.1 at in
          let inside = Every-lookup (λ x. IsInside t.floor t.ceiling x.value) nb c col ok.0 e in
          rw (get, at, e)
            (with_cell-IsTable t dst nb col (refresh t c now) h at (ground (arith, ok.1 nb, e))
              (refresh-IsInside t c now h.0 inside))
    ]
  ]

  pub remove_neighbor-IsTable :
      (t : BoundedPheromoneTable K W) (nb : K) → IsTable t → IsTable (remove_neighbor t nb)
  unfolding remove_neighbor
  remove_neighbor-IsTable t nb h =
      (h.0, Every-drop_row t.floor t.ceiling t.neighbors nb t.cells h.1)

  prune_rows-IsTable :
      (ns : List K) (t : BoundedPheromoneTable K W) → IsTable t → IsTable (prune_rows ns t).1
  unfolding prune_rows
  prune_rows-IsTable [] t h = h
  prune_rows-IsTable (nb ∷ ns) t h = elim (Bool-cases (row_live t nb)) [
    | inl e ↦ rw e (prune_rows-IsTable ns t h)
    | inr e ↦ rw e (prune_rows-IsTable ns (remove_neighbor t nb) (remove_neighbor-IsTable t nb h))
  ]

  pub prune-IsTable :
      (t : BoundedPheromoneTable K W) (now : W) → IsTable t → IsTable (prune t now).1
  unfolding prune
  prune-IsTable t now h =
      prune_rows-IsTable t.neighbors (record t { cells = prune_columns t now t.cells })
        (h.0, Every-prune_columns t now t.cells h.0 h.1)
