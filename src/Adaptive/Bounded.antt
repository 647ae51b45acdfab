-- ===== src/Adaptive/Bounded.antt =====
-- `BoundedPheromoneTable` of ns3/baselines/adaptive/model/adaptive-tables.h: the pheromone of Termite,
-- a column for each known destination and a row for each neighbour.
pub mod Inside
pub mod Loops
pub mod Kept
pub mod Calls
mod Tests
use ant_hoc_net.Collections.Map
use ant_hoc_net.Collections.Set
use ant_hoc_net.Collections.Key.{Key, nat_key, pair_key}
use ant_hoc_net.Collections.Map.{Map}
use ant_hoc_net.Double.{Double, gt, nought}
use ant_hoc_net.Prelude.{Bool, List, [], false, foldl, if◌then◌else◌, none, some, true, ◌||◌, ◌∷◌}
use ant_hoc_net.RequestQueue.{live}
use ant_hoc_net.ShortestPath.Measure.{key}

pub record Cell (W : Type 0) : Type 0 where
  pub value : W
  pub last : W

abbrev pub Columns : Type 0 → Type 0 → Type 0
Columns K W = Map.Map K (Map.Map K (Cell W))

pub record BoundedPheromoneTable (K W : Type 0) : Type 0 where
  -- destination, then neighbour
  pub cells : Columns K W
  pub neighbors : Set.OrderedSet K
  pub rate : W
  pub initial : W
  pub floor : W
  pub ceiling : W

module _ {W : Type 0} ⦃d : Double W⦄ where
  open d use {lt}

  -- std::max(a, b) and std::min(a, b)
  abbrev pub std_max : W → W → W
  std_max a b = if lt a b then b else a

  abbrev pub std_min : W → W → W
  std_min a b = if lt b a then b else a

module _ {K W : Type 0} ⦃key : Key K⦄ ⦃d : Double W⦄ where
  open d use {add, sub, mul, exp, neg, lt}

  -- `Configure` of a new table
  abbrev pub configured : W → W → W → W → BoundedPheromoneTable K W
  configured rate initial floor ceiling = record {
    cells = [];
    neighbors = [];
    rate = rate;
    initial = initial;
    floor = floor;
    ceiling = ceiling;
  }

  abbrev pub has_neighbor : BoundedPheromoneTable K W → K → Bool
  has_neighbor t nb = Set.contains nb t.neighbors

  abbrev pub has_destination : BoundedPheromoneTable K W → K → Bool
  has_destination t dst = elim (Map.lookup dst t.cells) [ none ↦ false | some _ ↦ true ]

  -- `Refresh`
  unfoldable pub refresh : BoundedPheromoneTable K W → Cell W → W → Cell W
  refresh t c now =
      let dt = sub now c.last in
      record {
        value =
            if lt nought dt
            then std_max t.floor (mul c.value (exp (mul (neg t.rate) dt)))
            else c.value;
        last = now;
      }

  abbrev pub fresh : BoundedPheromoneTable K W → W → Cell W
  fresh t now = record { value = t.initial; last = now }

  -- the loop of `AddNeighbor` over the columns
  unfoldable pub add_row : K → Cell W → Columns K W → Columns K W
  add_row nb c [] = []
  add_row nb c ((dst, col) ∷ m) = (dst, Map.insert nb c col) ∷ add_row nb c m

  unfoldable pub add_neighbor : BoundedPheromoneTable K W → K → W → BoundedPheromoneTable K W
  add_neighbor t nb now = if Set.contains nb t.neighbors then t else record t {
    neighbors = Set.insert nb t.neighbors;
    cells = add_row nb (fresh t now) t.cells;
  }

  -- the loop of `AddDestination` over the neighbours
  unfoldable pub new_column : Cell W → Set.OrderedSet K → Map.Map K (Cell W) → Map.Map K (Cell W)
  new_column c [] col = col
  new_column c (nb ∷ ns) col = new_column c ns (Map.insert nb c col)

  unfoldable pub add_destination : BoundedPheromoneTable K W → K → W → BoundedPheromoneTable K W
  add_destination t dst now = elim (Map.lookup dst t.cells) [
    | some col ↦ t
    | none ↦
        let col = new_column (fresh t now) t.neighbors [] in
        record t { cells = Map.insert dst col t.cells }
  ]

  -- what `m_cells[d][nb]` makes where there is no column or no cell
  unfoldable pub column_of : BoundedPheromoneTable K W → K → Map.Map K (Cell W)
  column_of t dst = elim (Map.lookup dst t.cells) [ none ↦ [] | some col ↦ col ]

  unfoldable pub cell_of : Map.Map K (Cell W) → K → Cell W
  cell_of col nb = elim (Map.lookup nb col) [
    | none ↦ record { value = nought; last = nought }
    | some c ↦ c
  ]

  -- the second half of `Deposit`, once the row and the column are there
  unfoldable pub deposit_at : BoundedPheromoneTable K W → K → K → W → W → BoundedPheromoneTable K W
  deposit_at t dst nb delta now =
      let col = column_of t dst in
      let c = refresh t (cell_of col nb) now in
      let c' = record c { value = std_min t.ceiling (add c.value delta) } in
      record t { cells = Map.insert dst (Map.insert nb c' col) t.cells }

  unfoldable pub deposit : BoundedPheromoneTable K W → K → K → W → W → BoundedPheromoneTable K W
  deposit t dst nb delta now =
      deposit_at (add_destination (add_neighbor t nb now) dst now) dst nb delta now

  -- `Get`, which brings the cell up to date
  unfoldable pub get : BoundedPheromoneTable K W → K → K → W → W × BoundedPheromoneTable K W
  get t dst nb now = elim (Map.lookup dst t.cells) [
    | none ↦ (nought, t)
    | some col ↦ elim (Map.lookup nb col) [
      | none ↦ (nought, t)
      | some c ↦
          let c' = refresh t c now in
          (c'.value, record t { cells = Map.insert dst (Map.insert nb c' col) t.cells })
    ]
  ]

  unfoldable pub drop_row : K → Columns K W → Columns K W
  drop_row nb [] = []
  drop_row nb ((dst, col) ∷ m) = (dst, Map.erase nb col) ∷ drop_row nb m

  unfoldable pub remove_neighbor : BoundedPheromoneTable K W → K → BoundedPheromoneTable K W
  remove_neighbor t nb = record t {
    neighbors = Set.erase nb t.neighbors;
    cells = drop_row nb t.cells;
  }

  -- the loops of `Prune`: over the cells of a column, the columns, and the neighbours
  unfoldable pub refresh_column :
      BoundedPheromoneTable K W → W → Map.Map K (Cell W) → Map.Map K (Cell W)
  refresh_column t now [] = []
  refresh_column t now ((nb, c) ∷ col) = (nb, refresh t c now) ∷ refresh_column t now col

  unfoldable pub column_live : W → Map.Map K (Cell W) → Bool
  column_live floor col = foldl (λ live e. live || gt (e.1).value floor) false col

  unfoldable pub prune_columns : BoundedPheromoneTable K W → W → Columns K W → Columns K W
  prune_columns t now [] = []
  prune_columns t now ((dst, col) ∷ m) =
      let rest = prune_columns t now m in
      let col' = refresh_column t now col in
      if column_live t.floor col' || Set.contains dst t.neighbors then (dst, col') ∷ rest else rest

  unfoldable pub row_live : BoundedPheromoneTable K W → K → Bool
  row_live t nb =
      let in_column : Map.Map K (Cell W) → Bool =
        λ col. elim (Map.lookup nb col) [ none ↦ false | some c ↦ gt c.value t.floor ] in
      foldl (λ live e. live || in_column e.1) false t.cells

  unfoldable pub prune_rows :
      List K → BoundedPheromoneTable K W → List K × BoundedPheromoneTable K W
  prune_rows [] t = ([], t)
  prune_rows (nb ∷ ns) t =
      let live = row_live t nb in
      let rest = prune_rows ns (if live then t else remove_neighbor t nb) in
      (if live then rest.0 else nb ∷ rest.0, rest.1)

  unfoldable pub prune : BoundedPheromoneTable K W → W → List K × BoundedPheromoneTable K W
  prune t now = prune_rows t.neighbors (record t { cells = prune_columns t now t.cells })
