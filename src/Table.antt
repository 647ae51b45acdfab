-- ===== src/Table.antt =====
-- `PheromoneTable` of core/include/anthocnet/core/pheromone_table.h and core/src/pheromone_table.cpp:
-- the entries, the neighbour and destination sets, and the choice of a next hop. The scratch buffer
-- `terms_` holds nothing between two calls and is no part of the state. `link_weights` is the map
-- that `linkWeights_` points to: its owner changes it only just before it passes it again.
pub mod Entries
pub mod Validity
pub mod Choice
pub mod Refine
pub mod Tests
use ant_hoc_net.Collections.Map
use ant_hoc_net.Collections.Set
use ant_hoc_net.Address.{NodeAddress, invalid_address}
use ant_hoc_net.Collections.Key.{nat_key, pair_key}
use ant_hoc_net.Collections.Map.{Map}
use ant_hoc_net.Collections.Set.{OrderedSet}
use ant_hoc_net.Double.{Double, gt, nought, one}
use ant_hoc_net.Prelude.{
  Bool, List, Option, [], false, if◌then◌else◌, length, none, not, some, true, ℕ, ◌&&◌, ◌+◌, ◌==◌,
  ◌||◌, ◌∷◌,
}

-- (neighbor, dest)
abbrev pub Link : Type 0
Link = NodeAddress × NodeAddress

pub record PheromoneTable (W : Type 0) : Type 0 where
  pub regular : Map Link W
  pub virtual : Map Link W
  pub neighbors : OrderedSet NodeAddress
  pub dest_regular : OrderedSet NodeAddress
  pub dest_virtual : OrderedSet NodeAddress
  pub link_weights : Option (Map NodeAddress W)

-- The port `IRng`: the draws that the adapter's generator will give, and how many were taken.
pub record Rng (W : Type 0) : Type 0 where
  pub stream : ℕ → W
  pub used : ℕ

-- one candidate's selection weight, `Term`
pub record Term (W : Type 0) : Type 0 where
  pub neighbor : NodeAddress
  pub weight : W

module _ {W : Type 0} where
  abbrev pub empty_table : PheromoneTable W
  empty_table = record {
    regular = [];
    virtual = [];
    neighbors = [];
    dest_regular = [];
    dest_virtual = [];
    link_weights = none;
  }

  abbrev pub uniform : Rng W → W
  uniform rng = rng.stream rng.used

  abbrev pub advance : Rng W → Rng W
  advance rng = record rng { used = rng.used + 1 }

  unfoldable pub add_neighbor : PheromoneTable W → NodeAddress → PheromoneTable W
  add_neighbor t n = record t {
    neighbors = Set.insert n t.neighbors;
    dest_regular = Set.insert n t.dest_regular;
    dest_virtual = Set.insert n t.dest_virtual;
  }

  unfoldable pub remove_neighbor : PheromoneTable W → NodeAddress → PheromoneTable W
  remove_neighbor t n = record t { neighbors = Set.erase n t.neighbors }

  unfoldable pub add_pheromone_regular :
      PheromoneTable W → NodeAddress → NodeAddress → W → PheromoneTable W
  add_pheromone_regular t dest n value = record t {
    dest_regular = Set.insert dest t.dest_regular;
    regular = Map.insert (n, dest) value t.regular;
  }

  unfoldable pub add_pheromone_virtual :
      PheromoneTable W → NodeAddress → NodeAddress → W → PheromoneTable W
  add_pheromone_virtual t dest n value = record t {
    dest_virtual = Set.insert dest t.dest_virtual;
    virtual = Map.insert (n, dest) value t.virtual;
  }

  unfoldable pub remove_pheromone_regular :
      PheromoneTable W → NodeAddress → NodeAddress → PheromoneTable W
  remove_pheromone_regular t dest n = record t { regular = Map.erase (n, dest) t.regular }

  unfoldable pub remove_pheromone_virtual :
      PheromoneTable W → NodeAddress → NodeAddress → PheromoneTable W
  remove_pheromone_virtual t dest n = record t { virtual = Map.erase (n, dest) t.virtual }

  unfoldable pub set_pheromone_regular :
      PheromoneTable W → NodeAddress → NodeAddress → W → PheromoneTable W
  unfolding add_neighbor
  set_pheromone_regular t dest n value =
      let t' = add_neighbor (record t { dest_regular = Set.insert dest t.dest_regular }) n in
      record t' { regular = Map.insert (n, dest) value t'.regular }

  unfoldable pub set_pheromone_virtual :
      PheromoneTable W → NodeAddress → NodeAddress → W → PheromoneTable W
  set_pheromone_virtual t dest n value = record t {
    dest_virtual = Set.insert dest t.dest_virtual;
    virtual = Map.insert (n, dest) value t.virtual;
  }

  unfoldable pub num_entries : PheromoneTable W → ℕ
  num_entries t = length t.regular + length t.virtual

  unfoldable pub set_link_weights : PheromoneTable W → Option (Map NodeAddress W) → PheromoneTable W
  set_link_weights t weights = record t { link_weights = weights }

module _ {W : Type 0} ⦃d : Double W⦄ where
  open d use {lt, le, eq, add, sub, mul, div, pow, of_nat}

  abbrev pub value_or_nought : Option W → W
  value_or_nought none = nought
  value_or_nought (some v) = v

  unfoldable pub get_pheromone_regular : PheromoneTable W → NodeAddress → NodeAddress → W
  get_pheromone_regular t dest n = value_or_nought (Map.lookup (n, dest) t.regular)

  unfoldable pub get_pheromone_virtual : PheromoneTable W → NodeAddress → NodeAddress → W
  get_pheromone_virtual t dest n = value_or_nought (Map.lookup (n, dest) t.virtual)

  -- the loop of `bestRegular` and `bestVirtual` over the neighbours' values
  unfoldable pub best_of : (NodeAddress → W) → W → List NodeAddress → W
  best_of value best [] = best
  best_of value best (n ∷ ns) = best_of value (if gt (value n) best then value n else best) ns

  unfoldable pub best_regular : PheromoneTable W → NodeAddress → W
  best_regular t dest = best_of (get_pheromone_regular t dest) nought t.neighbors

  unfoldable pub best_virtual : PheromoneTable W → NodeAddress → W
  best_virtual t dest = best_of (get_pheromone_virtual t dest) nought t.neighbors

  unfoldable pub weighted : PheromoneTable W → NodeAddress → W → W
  weighted t n ph = elim t.link_weights [
    | none ↦ ph
    | some weights ↦ elim (Map.lookup n weights) [ none ↦ ph | some w ↦ mul ph w ]
  ]

  -- the weight of one neighbour, and whether it counts in the normaliser
  unfoldable pub term_of : PheromoneTable W → NodeAddress → Bool → W → NodeAddress → Term W × Bool
  term_of t dest is_proactive beta n =
      let found = Map.lookup (n, dest) t.regular in
      let hint = if is_proactive then Map.lookup (n, dest) t.virtual else none in
      let ph_r = value_or_nought found in
      let ph_v = value_or_nought hint in
      let p = pow (weighted t n (if gt ph_r ph_v then ph_r else ph_v)) beta in
      (
        record { neighbor = n; weight = p },
        is_proactive || elim found [ none ↦ false | some _ ↦ true ],
      )

  -- the terms in neighbour order, and the normaliser summed in that order
  unfoldable pub selection_terms :
      (NodeAddress → Term W × Bool) → NodeAddress → W → List NodeAddress → List (Term W) × W
  selection_terms term exclude sum [] = ([], sum)
  selection_terms term exclude sum (n ∷ ns) =
      let skipped = selection_terms term exclude sum ns in
      let (t, counted) = term n in
      let taken = selection_terms term exclude (if counted then add sum t.weight else sum) ns in
      if n == exclude then skipped else (t ∷ taken.0, taken.1)

  unfoldable pub is_known : PheromoneTable W → NodeAddress → Bool → Bool
  is_known t dest is_proactive =
      Set.contains dest t.dest_regular || (is_proactive && Set.contains dest t.dest_virtual)

  -- the sampling loop: `chosen` is the last candidate passed
  unfoldable pub sample : List (Term W) → W → W → NodeAddress → NodeAddress
  sample [] sum r chosen = chosen
  sample (t ∷ ts) sum r chosen =
      let r' = sub r (div t.weight sum) in
      let rest = sample ts sum r' t.neighbor in if le r' nought then t.neighbor else rest

  -- one call of `nextNeighborNode`, with the result of its recursive call for the A1 fallback
  unfoldable pub choose :
      PheromoneTable W
      → NodeAddress
      → Bool
      → W
      → Rng W
      → NodeAddress
      → NodeAddress × Rng W
      → NodeAddress × Rng W
  choose t dest is_proactive beta rng exclude fallback =
      let (terms, sum) =
        selection_terms (term_of t dest is_proactive beta) exclude nought t.neighbors in
      if not (is_known t dest is_proactive)
      then (invalid_address, rng)
      else if eq sum nought
      then (if not (exclude == invalid_address) then fallback else (invalid_address, rng))
      else (sample terms sum (uniform rng) invalid_address, advance rng)

  unfoldable pub next_neighbor_node :
      PheromoneTable W → NodeAddress → Bool → W → Rng W → NodeAddress → NodeAddress × Rng W
  next_neighbor_node t dest is_proactive beta rng exclude =
      choose t dest is_proactive beta rng exclude
        (choose t dest is_proactive beta rng invalid_address (invalid_address, rng))

  -- `lookup` of the source
  unfoldable pub lookup_next_hop :
      PheromoneTable W → NodeAddress → W → Rng W → NodeAddress → NodeAddress × Rng W
  lookup_next_hop t dest beta rng exclude = next_neighbor_node t dest false beta rng exclude

  unfoldable pub shares : W → List (Term W) → List (NodeAddress × W)
  shares sum [] = []
  shares sum (t ∷ ts) =
      let rest = shares sum ts in
      let p = div t.weight sum in if gt p nought then (t.neighbor, p) ∷ rest else rest

  unfoldable pub distribution :
      PheromoneTable W
      → NodeAddress
      → Bool
      → W
      → NodeAddress
      → List (NodeAddress × W)
      → List (NodeAddress × W)
  distribution t dest is_proactive beta exclude fallback =
      let (terms, sum) =
        selection_terms (term_of t dest is_proactive beta) exclude nought t.neighbors in
      if not (is_known t dest is_proactive)
      then []
      else if eq sum nought
      then (if not (exclude == invalid_address) then fallback else [])
      else shares sum terms

  unfoldable pub next_hop_distribution :
      PheromoneTable W → NodeAddress → Bool → W → NodeAddress → List (NodeAddress × W)
  next_hop_distribution t dest is_proactive beta exclude =
      distribution t dest is_proactive beta exclude
        (distribution t dest is_proactive beta invalid_address [])

  unfoldable pub walk_destinations : W → List NodeAddress → W → NodeAddress → NodeAddress
  walk_destinations step [] r dest = dest
  walk_destinations step (n ∷ ns) r dest =
      let r' = sub r step in
      let rest = walk_destinations step ns r' n in if le r' nought then n else rest

  unfoldable pub random_destination : PheromoneTable W → Rng W → NodeAddress × Rng W
  random_destination t rng =
      let size = length t.dest_regular in
      if size == 0 then (invalid_address, rng) else (
        walk_destinations (div one (of_nat size)) t.dest_regular (uniform rng) invalid_address,
        advance rng,
      )
