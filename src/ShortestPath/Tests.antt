-- ===== src/ShortestPath/Tests.antt =====
-- Runs of `ShortestPathGraph` on a small graph.
use ant_hoc_net.Double.{Double, nought}
use ant_hoc_net.Prelude.{
  Option, [], arith, false, if◌then◌else◌, inl, leb, length, ltb, none, pos, refl, some, suc, ℕ,
  ◌&&◌, ◌*◌, ◌+◌, ◌-◌, ◌<◌, ◌∷◌, ◌≡◌, ◌≤◌,
}
use ant_hoc_net.ShortestPath.{
  Edge, ShortestPathGraph, add_edge, compute_from, distance_to, first_hop_to, new_graph, unlabelled,
}
use ant_hoc_net.ShortestPath.Answer.{
  IsShortestFrom, compute_from-IsShortestFrom, compute_from-smallest_hop,
}
use ant_hoc_net.ShortestPath.Build.{IsBuilt, IsBuilt-IsGraph, built_new, built_with_edge}
use ant_hoc_net.ShortestPath.Measure.{effort, key, total}
use ant_hoc_net.ShortestPath.Optimal.{rounds}
use ant_hoc_net.ShortestPath.TieBreak.{IsExact, LeavesSource}
use ant_hoc_net.ShortestPath.Walk.{IsGraph, IsWalk, cost}
use ant_hoc_net.ShortestPath.Weight.{IsMeasure}

-- numbers up to a hundred, which stands for infinity: sums stop there
data Capped : Type 0 where
  capped : ℕ → Capped

abbrev rank_of : Capped → ℕ
rank_of (capped n) = if ltb n 100 then n else 100

instance abbrev capped_double : Double Capped
capped_double = record {
  literal = λ m e. capped m;
  of_nat = capped;
  infinity = capped 100;
  nan = capped 100;
  neg = λ a. a;
  add = λ a b. capped (rank_of a + rank_of b);
  sub = λ a b. capped (rank_of a - rank_of b);
  mul = λ a b. capped (rank_of a * rank_of b);
  div = λ a b. a;
  pow = λ a b. a;
  exp = λ a. a;
  sqrt = λ a. a;
  fabs = λ a. a;
  lt = λ a b. ltb (rank_of a) (rank_of b);
  le = λ a b. leb (rank_of a) (rank_of b);
  eq = λ a b. leb (rank_of a) (rank_of b) && leb (rank_of b) (rank_of a);
  is_nan = λ a. false;
  is_finite = λ a. ltb (rank_of a) 100;
}

Capped-IsMeasure : IsMeasure Capped
Capped-IsMeasure = record {
  rank = rank_of;
  lt_rank = λ a b. ground arith;
  eq_rank = λ a b. ground arith;
  le_nought = refl;
  le_infinity = λ a. ground arith;
  le_trans = λ a b c. ground arith;
  lt_le = λ a b. ground arith;
  eq_le = λ a b. refl;
  add_le = λ a w. ground arith;
  add_mono = λ a b w. ground arith;
}

abbrev edge : ℕ → ℕ → Edge Capped
edge v w = record { to = v; weight = capped w }

abbrev or_empty : Option (ShortestPathGraph Capped) → ShortestPathGraph Capped
or_empty (some g) = g
or_empty none = record { adj = []; labels = unlabelled 0; edges = 0; source = none }

abbrev g0 : ShortestPathGraph Capped
g0 = or_empty (new_graph (pos 5))

abbrev g1 : ShortestPathGraph Capped
g1 = or_empty (add_edge g0 (pos 0) (pos 2) (capped 1))

abbrev g2 : ShortestPathGraph Capped
g2 = or_empty (add_edge g1 (pos 2) (pos 3) (capped 1))

abbrev g3 : ShortestPathGraph Capped
g3 = or_empty (add_edge g2 (pos 0) (pos 1) (capped 1))

-- two walks of the same length lead from 0 to 3, and nothing leads to 4
abbrev square : ShortestPathGraph Capped
square = or_empty (add_edge g3 (pos 1) (pos 3) (capped 1))

g0-IsBuilt : IsBuilt g0
unfolding new_graph
g0-IsBuilt = built_new (pos 5) g0 refl

g1-IsBuilt : IsBuilt g1
unfolding new_graph add_edge
g1-IsBuilt = built_with_edge g0 g1 (pos 0) (pos 2) (capped 1) g0-IsBuilt refl

g2-IsBuilt : IsBuilt g2
unfolding new_graph add_edge
g2-IsBuilt = built_with_edge g1 g2 (pos 2) (pos 3) (capped 1) g1-IsBuilt refl

g3-IsBuilt : IsBuilt g3
unfolding new_graph add_edge
g3-IsBuilt = built_with_edge g2 g3 (pos 0) (pos 1) (capped 1) g2-IsBuilt refl

square-IsBuilt : IsBuilt square
unfolding new_graph add_edge
square-IsBuilt = built_with_edge g3 square (pos 1) (pos 3) (capped 1) g3-IsBuilt refl

IsBuilt-IsGraph_example : IsGraph Capped-IsMeasure square.adj
IsBuilt-IsGraph_example = IsBuilt-IsGraph Capped-IsMeasure square square-IsBuilt

square-small : 0 < length square.adj
unfolding new_graph add_edge
square-small = omega arith

abbrev square_fuel : ℕ
square_fuel = suc (rounds Capped-IsMeasure square.adj 0 IsBuilt-IsGraph_example square-small)

compute_from-IsShortestFrom_example :
    (g : ShortestPathGraph Capped) × (compute_from square_fuel square (pos 0) ≡ some g)
    × IsShortestFrom square.adj 0 g
compute_from-IsShortestFrom_example =
    compute_from-IsShortestFrom Capped-IsMeasure square 0 IsBuilt-IsGraph_example square-small
      square_fuel (omega arith)

-- the answers for node 3: the length of its two walks, and the smaller first hop
abbrev answer : ShortestPathGraph Capped
answer = or_empty (compute_from 20 square (pos 0))

distance_of_3 : distance_to answer (pos 3) ≡ capped 2
unfolding new_graph add_edge compute_from distance_to
distance_of_3 = refl

hop_of_3 : first_hop_to answer (pos 3) ≡ some 1
unfolding new_graph add_edge compute_from first_hop_to
hop_of_3 = refl

-- the walk by way of 2, which is as long as the one by way of 1
by_2-IsWalk : IsWalk square.adj 0 (edge 2 1 ∷ edge 3 1 ∷ []) 3
unfolding new_graph add_edge IsWalk
by_2-IsWalk = (inl refl, (inl refl, refl))

by_2-LeavesSource : LeavesSource square.adj 0 (edge 2 1 ∷ edge 3 1 ∷ [])
unfolding LeavesSource
by_2-LeavesSource = (refl, (refl, tt))

by_2-IsExact : IsExact square.adj 0 2 (capped 1) (edge 3 1 ∷ [])
unfolding IsExact
by_2-IsExact = (λ walk leads less. ground arith, tt)

by_2-length : cost nought (edge 2 1 ∷ edge 3 1 ∷ []) ≡ distance_to answer (pos 3)
unfolding new_graph add_edge compute_from distance_to cost
by_2-length = refl

square-three : 3 < length square.adj
unfolding new_graph add_edge
square-three = omega arith

square_runs : compute_from square_fuel square (pos 0) ≡ some answer
unfolding new_graph add_edge compute_from effort total key Capped-IsMeasure
square_runs = refl

compute_from-smallest_hop_example : (hop : ℕ) × (first_hop_to answer (pos 3) ≡ some hop) × (hop ≤ 2)
compute_from-smallest_hop_example =
    compute_from-smallest_hop Capped-IsMeasure square answer 0 IsBuilt-IsGraph_example square-small
      square_fuel (omega arith) square_runs (edge 2 1) (edge 3 1 ∷ []) 3 square-three by_2-IsWalk
      by_2-LeavesSource by_2-IsExact by_2-length
