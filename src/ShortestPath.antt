-- ===== src/ShortestPath.antt =====
-- `ShortestPathGraph` of core/include/anthocnet/core/shortest_path.h and core/src/shortest_path.cpp:
-- shortest paths from one source, with the smallest first hop among equal ones. A node is its number;
-- `kNoNode` as a first hop is `none`. An exception is `none` of the operation that throws it.
pub mod Weight
pub mod Walk
pub mod Improve
pub mod Sound
pub mod Measure
pub mod Progress
pub mod Loop
pub mod Optimal
pub mod Answer
pub mod TieBreak
pub mod Build
mod Tests
use ant_hoc_net.Address.{node}
use ant_hoc_net.Double.{Double, nought}
use ant_hoc_net.Prelude.{
  Bool, List, Option, [], foldl, get_or, if◌then◌else◌, length, ltb, negsuc, none, not, pos,
  replicate, set, some, suc, true, zero, ℕ, ℤ, ◌&&◌, ◌++◌, ◌+◌, ◌==◌, ◌||◌, ◌∷◌,
}

pub record Edge (W : Type 0) : Type 0 where
  pub to : ℕ
  pub weight : W

-- `m_dist` and `m_firstHop`
pub record Labels (W : Type 0) : Type 0 where
  pub dist : List W
  pub first_hop : List (Option ℕ)

pub record ShortestPathGraph (W : Type 0) : Type 0 where
  pub adj : List (List (Edge W))
  pub labels : Labels W
  pub edges : ℕ
  pub source : Option ℕ

-- a node's number, if it is one of the graph
abbrev pub in_graph : ℕ → ℤ → Option ℕ
in_graph n (pos k) = if ltb k n then some k else none
in_graph n (negsuc k) = none

-- an entry of the priority queue
abbrev pub QueueItem : Type 0 → Type 0
QueueItem W = W × ℕ

-- the labels and the queue of the main loop
abbrev pub Search : Type 0 → Type 0
Search W = Labels W × List (QueueItem W)

module _ {W : Type 0} ⦃d : Double W⦄ where
  open d use {infinity, add, lt, le, eq}

  abbrev pub node_count : ShortestPathGraph W → ℕ
  node_count g = length g.adj

  -- `m_dist.assign(n, unreachable())` and `m_firstHop.assign(n, kNoNode)`
  abbrev pub unlabelled : ℕ → Labels W
  unlabelled n = record { dist = replicate n infinity; first_hop = replicate n none }

  -- the constructor
  unfoldable pub new_graph : ℤ → Option (ShortestPathGraph W)
  new_graph (pos n) =
      some (record { adj = replicate n []; labels = unlabelled n; edges = 0; source = none })
  new_graph (negsuc n) = none

  abbrev pub edges_of : List (List (Edge W)) → ℕ → List (Edge W)
  edges_of adj u = get_or adj u []

  unfoldable pub add_edge : ShortestPathGraph W → ℤ → ℤ → W → Option (ShortestPathGraph W)
  add_edge g from to weight = elim (in_graph (node_count g) from) [
    | none ↦ none
    | some u ↦ elim (in_graph (node_count g) to) [
      | none ↦ none
      | some v ↦
          if not (le nought weight)
          then none
          else some (record g {
            adj = set g.adj u (edges_of g.adj u ++ (record { to = v; weight = weight } ∷ []));
            edges = g.edges + 1;
          })
    ]
  ]

  abbrev pub dist_of : Labels W → ℕ → W
  dist_of l u = get_or l.dist u infinity

  abbrev pub hop_of : Labels W → ℕ → Option ℕ
  hop_of l u = get_or l.first_hop u none

  -- `operator<` of the pairs in the queue
  unfoldable pub item_less : QueueItem W → QueueItem W → Bool
  item_less (a, u) (b, v) = lt a b || (not (lt b a) && ltb u v)

  -- `pq.top()` and `pq.pop()`: a least entry, and the others
  unfoldable pub pop_min : List (QueueItem W) → Option (QueueItem W × List (QueueItem W))
  unfolding item_less
  pop_min [] = none
  pop_min (q ∷ qs) = elim (pop_min qs) [
    | none ↦ some (q, [])
    | some (top, rest) ↦ if item_less top q then some (top, q ∷ rest) else some (q, qs)
  ]

  -- whether a candidate replaces the label of a node
  unfoldable pub is_better : W → ℕ → W → Option ℕ → Bool
  is_better cand cand_hop have have_hop =
      lt cand have || (eq cand have && elim have_hop [ none ↦ true | some h ↦ ltb cand_hop h ])

  -- the first hop that the relaxation of an edge from u to v would give v
  abbrev pub candidate_hop : ℕ → Labels W → ℕ → ℕ → Option ℕ
  candidate_hop source l u v = if u == source then some v else hop_of l u

  -- the body of the loop over the edges of u
  unfoldable pub relax : ℕ → ℕ → Search W → Edge W → Search W
  unfolding is_better
  relax source u (l, pq) e =
      let v = e.to in
      let cand = add (dist_of l u) e.weight in
      if v == source then (l, pq) else elim (candidate_hop source l u v) [
        | none ↦ (l, pq)
        | some hop ↦
            if is_better cand hop (dist_of l v) (hop_of l v)
            then (
              record { dist = set l.dist v cand; first_hop = set l.first_hop v (some hop) },
              (cand, v) ∷ pq,
            )
            else (l, pq)
      ]

  -- what one entry of the queue makes of the search: nothing, if a better distance was settled
  unfoldable pub settle : List (List (Edge W)) → ℕ → QueueItem W → Search W → Search W
  unfolding relax
  settle adj source (top, u) (l, rest) =
      if lt (dist_of l u) top then (l, rest) else foldl (relax source u) (l, rest) (edges_of adj u)

  -- the main loop, with fuel for its rounds; `none` if the fuel runs out
  unfoldable pub search_from : ℕ → List (List (Edge W)) → ℕ → Search W → Option (Labels W)
  unfolding settle pop_min
  search_from zero adj source (l, pq) = none
  search_from (suc fuel) adj source (l, pq) = elim (pop_min pq) [
    | none ↦ some l
    | some (top, rest) ↦ search_from fuel adj source (settle adj source top (l, rest))
  ]

  -- the labels and the queue that the loop starts with
  abbrev pub start : ℕ → ℕ → Search W
  start n source = (
    record { dist = set (replicate n infinity) source nought; first_hop = replicate n none },
    (nought, source) ∷ [],
  )

  -- `computeFrom`: `none` if it throws or the fuel runs out
  unfoldable pub compute_from : ℕ → ShortestPathGraph W → ℤ → Option (ShortestPathGraph W)
  unfolding search_from
  compute_from fuel g source = elim (in_graph (node_count g) source) [
    | none ↦ none
    | some s ↦ elim (search_from fuel g.adj s (start (node_count g) s)) [
      | none ↦ none
      | some l ↦ some (record g { labels = l; source = some s })
    ]
  ]

  unfoldable pub distance_to : ShortestPathGraph W → ℤ → W
  distance_to g node = elim (in_graph (node_count g) node) [
    | none ↦ infinity
    | some v ↦ dist_of g.labels v
  ]

  unfoldable pub first_hop_to : ShortestPathGraph W → ℤ → Option ℕ
  first_hop_to g node = elim (in_graph (node_count g) node) [
    | none ↦ none
    | some v ↦ hop_of g.labels v
  ]
