-- ===== src/ShortestPath/Answer.antt =====
-- What `computeFrom` answers, for every graph and every source.
use ant_hoc_net.Double.{Double, nought}
use ant_hoc_net.Prelude.{
  ==_iff, Bool-cases, List, ap, arith, false≢true, inl, inr, length, lt→ltb, none, pos, refl, some,
  suc, sym, true, zero, ℕ, ◌<◌, ◌==◌, ◌∙◌, ◌∷◌, ◌≡◌, ◌≤◌, ◌⊎◌,
}
use ant_hoc_net.ShortestPath.{
  Edge, Labels, ShortestPathGraph, compute_from, dist_of, distance_to, first_hop_to, hop_of, start,
}
use ant_hoc_net.ShortestPath.Loop.{Settled, search_from-Settled}
use ant_hoc_net.ShortestPath.Optimal.{rounds, start-Keeps, walk_from_source}
use ant_hoc_net.ShortestPath.TieBreak.{IsExact, LeavesSource, smallest_hop}
use ant_hoc_net.ShortestPath.Walk.{IsGraph, IsWalk, cost, head_hop}
use ant_hoc_net.ShortestPath.Weight.{IsMeasure}

-- The promise of `ShortestPathGraph`: the answers after `computeFrom(s)`.
pub record IsShortestFrom {W : Type 0} ⦃d : Double W⦄ (adj : List (List (Edge W))) (s : ℕ)
    (g : ShortestPathGraph W) : Type 0 where
  -- no walk is shorter than the distance
  pub least :
      (v : ℕ) (walk : List (Edge W))
      → v < length adj
      → IsWalk adj s walk v
      → d.le (distance_to g (pos v)) (cost nought walk) ≡ true
  -- a node with a first hop is reached through it by a walk of that length
  pub attained :
      (v hop : ℕ)
      → v < length adj
      → first_hop_to g (pos v) ≡ some hop
      → (walk : List (Edge W)) × IsWalk adj s walk v
        × (head_hop walk ≡ some hop)
        × (cost nought walk ≡ distance_to g (pos v))
  -- a node without one is the source, or no walk leads there and it is infinitely far
  pub unreachable :
      (v : ℕ)
      → v < length adj
      → first_hop_to g (pos v) ≡ none
      → (v ≡ s)
        ⊎ (((walk : List (Edge W)) → ¬ IsWalk adj s walk v) × (distance_to g (pos v) ≡ d.infinity))
  pub source_distance : distance_to g (pos s) ≡ nought
  pub source_hop : first_hop_to g (pos s) ≡ none

module _ {W : Type 0} ⦃d : Double W⦄ (m : IsMeasure W) where
  module _ (g : ShortestPathGraph W) (s : ℕ) (graph : IsGraph m g.adj) (small : s < length g.adj)
      (l : Labels W) where
    abbrev answer : ShortestPathGraph W
    answer = record g { labels = l; source = some s }

  module _ (g : ShortestPathGraph W) (s : ℕ) (graph : IsGraph m g.adj) (small : s < length g.adj)
      (l : Labels W) (end : Settled m g.adj s graph l) where
    distance_eq :
        (v : ℕ) → v < length g.adj → distance_to (answer g s graph small l) (pos v) ≡ dist_of l v
    unfolding distance_to
    distance_eq v h = rw (lt→ltb v (length g.adj) h, distance_to) refl

    hop_eq :
        (v : ℕ) → v < length g.adj → first_hop_to (answer g s graph small l) (pos v) ≡ hop_of l v
    unfolding first_hop_to
    hop_eq v h = rw (lt→ltb v (length g.adj) h, first_hop_to) refl

    answer-IsShortestFrom : IsShortestFrom g.adj s (answer g s graph small l)
    answer-IsShortestFrom = record {
      least = λ v walk h leads.
          rw (distance_eq v h) (walk_from_source m g.adj s graph l end walk v leads).1;
      attained = λ v hop h e.
          let r = end.sound.reached v hop (sym (hop_eq v h) ∙ e) in
          (r.walk, r.leads, r.head, r.length_eq ∙ sym (distance_eq v h));
      unreachable = λ v h e.
          let blank : hop_of l v ≡ none = sym (hop_eq v h) ∙ e in
          elim (Bool-cases (v == s)) [
            | inl hit ↦ inl ((==_iff v s).0 hit)
            | inr miss ↦ inr (
              λ walk leads. elim (walk_from_source m g.adj s graph l end walk v leads).0 [
                | inl at ↦ false≢true (sym miss ∙ (==_iff v s).1 at)
                | inr (hop, k) ↦ cc (blank, k)
              ],
              distance_eq v h ∙ end.sound.blank v miss blank,
            )
          ];
      source_distance = distance_eq s small ∙ end.sound.source_dist;
      source_hop = hop_eq s small ∙ end.sound.source_hop;
    }

  module _ (g : ShortestPathGraph W) (s : ℕ) (graph : IsGraph m g.adj)
      (small : s < length g.adj) where
    compute_from-Settled :
        (fuel : ℕ)
        → rounds m g.adj s graph small < fuel
        → (l : Labels W) × (compute_from fuel g (pos s) ≡ some (answer g s graph small l))
          × Settled m g.adj s graph l
    unfolding compute_from
    compute_from-Settled zero h = absurd (omega arith)
    compute_from-Settled (suc fuel) h =
        let run =
          search_from-Settled m g.adj s graph fuel (start (length g.adj) s)
            (start-Keeps m g.adj s graph small fuel (omega arith)) in
        (run.0, rw (lt→ltb s (length g.adj) small, run.1, compute_from) refl, run.2)

  -- For a graph whose edges end in it and whose weights are not negative, and a source in it: with as
  -- much fuel as `rounds`, a number that the graph's size and the numbers' ranks give, `computeFrom`
  -- ends, and its answers are those of `IsShortestFrom`, sums being taken in the arithmetic at hand.
  pub compute_from-IsShortestFrom :
      (g : ShortestPathGraph W) (s : ℕ) (graph : IsGraph m g.adj) (small : s < length g.adj)
      (fuel : ℕ)
      → rounds m g.adj s graph small < fuel
      → (g' : ShortestPathGraph W) × (compute_from fuel g (pos s) ≡ some g')
        × IsShortestFrom g.adj s g'
  compute_from-IsShortestFrom g s graph small fuel h =
      let (l, run, end) = compute_from-Settled g s graph small fuel h in
      (answer g s graph small l, run, answer-IsShortestFrom g s graph small l end)

  -- Under the same conditions, if a walk of one edge or more does not come back to the source, its sums
  -- keep a strict order, and its length is the distance that `distanceTo` answers, then the node it leads
  -- to has a first hop, not greater than the first node of the walk.
  pub compute_from-smallest_hop :
      (g g' : ShortestPathGraph W) (s : ℕ) (graph : IsGraph m g.adj) (small : s < length g.adj)
      (fuel : ℕ)
      → rounds m g.adj s graph small < fuel
      → compute_from fuel g (pos s) ≡ some g'
      → (e : Edge W) (es : List (Edge W)) (v : ℕ) → v < length g.adj
      → IsWalk g.adj s (e ∷ es) v
      → LeavesSource g.adj s (e ∷ es)
      → IsExact g.adj s e.to (d.add nought e.weight) es
      → cost nought (e ∷ es) ≡ distance_to g' (pos v)
      → (hop : ℕ) × (first_hop_to g' (pos v) ≡ some hop) × (hop ≤ e.to)
  compute_from-smallest_hop g g' s graph small fuel h run e es v hv walk leaves exact same =
      let (l, ran, end) = compute_from-Settled g s graph small fuel h in
      let at : answer g s graph small l ≡ g' = cc (run, ran) in
      let here : cost nought (e ∷ es) ≡ dist_of l v =
        same
        ∙ ap (λ (x : ShortestPathGraph W). distance_to x (pos v)) (sym at)
        ∙ distance_eq g s graph small l end v hv in
      let (hop, label, least) = smallest_hop m g.adj s graph l end e es v walk leaves exact here in
      (
        hop,
        ap (λ (x : ShortestPathGraph W). first_hop_to x (pos v)) (sym at)
            ∙ hop_eq g s graph small l end v hv
            ∙ label,
        least,
      )
