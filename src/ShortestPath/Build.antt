-- ===== src/ShortestPath/Build.antt =====
-- The graphs that the constructor, `addEdge` and `computeFrom` build.
use ant_hoc_net.Double.{Double, nought}
use ant_hoc_net.Prelude.{
  Among, append-Among, Bool-cases, List, Option-cases, [], ap, arith, get_or, get_or-replicate,
  get_or-set, if◌then◌else◌, inl, inr, length, length-set, negsuc, none, pos, refl, replicate, set,
  some, subst, sym, ℕ, ℤ, ◌++◌, ◌+◌, ◌<◌, ◌==◌, ◌∙◌, ◌∷◌, ◌≡◌, ◌⊎◌,
}
use ant_hoc_net.ShortestPath.{
  Edge, ShortestPathGraph, add_edge, compute_from, edges_of, in_graph, new_graph, node_count,
  search_from, start,
}
use ant_hoc_net.ShortestPath.Walk.{IsGraph}
use ant_hoc_net.ShortestPath.Weight.{IsMeasure, IsNatural}

-- the graphs that a program gets from the operations that did not throw
pub data IsBuilt {W : Type 0} ⦃d : Double W⦄ : ShortestPathGraph W → Type 0 where
  built_new : (n : ℤ) (g : ShortestPathGraph W) → new_graph n ≡ some g → IsBuilt g
  built_with_edge :
      (g g' : ShortestPathGraph W) (from to : ℤ) (weight : W)
      → IsBuilt g
      → add_edge g from to weight ≡ some g'
      → IsBuilt g'
  built_answer :
      (g g' : ShortestPathGraph W) (fuel : ℕ) (source : ℤ)
      → IsBuilt g
      → compute_from fuel g source ≡ some g'
      → IsBuilt g'

module _ {W : Type 0} ⦃d : Double W⦄ (m : IsMeasure W) where
  in_graph-lt : (n k : ℕ) (i : ℤ) → in_graph n i ≡ some k → k < n
  in_graph-lt n k (pos j) h = ground arith
  in_graph-lt n k (negsuc j) h = ground arith

  no_edges : (n : ℕ) → IsGraph m (replicate n [])
  no_edges n u e i = absurd (subst (λ (es : List (Edge W)). Among e es) (get_or-replicate n u []) i)

  adj_eq : (g h : ShortestPathGraph W) → some g ≡ some h → g.adj ≡ h.adj
  adj_eq g h e = let same : g ≡ h = cc in ap (λ (x : ShortestPathGraph W). x.adj) same

  adj_of :
      (adj : List (List (Edge W))) (g : ShortestPathGraph W)
      → adj ≡ g.adj
      → IsGraph m adj
      → IsGraph m g.adj
  adj_of adj g e graph = subst (λ (x : List (List (Edge W))). IsGraph m x) e graph

  new_graph-IsGraph : (n : ℤ) (g : ShortestPathGraph W) → new_graph n ≡ some g → IsGraph m g.adj
  unfolding new_graph
  new_graph-IsGraph (pos n) g h = adj_of (replicate n []) g (adj_eq _ g h) (no_edges n)
  new_graph-IsGraph (negsuc n) g h = absurd cc

  -- the graph that `addEdge` leaves
  abbrev with_edge : ShortestPathGraph W → ℕ → ℕ → W → ShortestPathGraph W
  with_edge g u v weight = record g {
    adj = set g.adj u (edges_of g.adj u ++ (record { to = v; weight = weight } ∷ []));
    edges = g.edges + 1;
  }

  -- `addEdge` throws, or it adds the edge to a node of the graph
  add_edge-cases :
      (g : ShortestPathGraph W) (from to : ℤ) (weight : W)
      → (add_edge g from to weight ≡ none)
        ⊎ ((u v : ℕ) × (in_graph (node_count g) from ≡ some u)
            × (in_graph (node_count g) to ≡ some v)
            × IsNatural m weight
            × (add_edge g from to weight ≡ some (with_edge g u v weight)))
  unfolding add_edge
  add_edge-cases g from to weight = elim (Option-cases (in_graph (node_count g) from)) [
    | inl out ↦ inl (rw (out, add_edge) refl)
    | inr (u, at_u) ↦ elim (Option-cases (in_graph (node_count g) to)) [
      | inl out ↦ inl (rw (at_u, out, add_edge) refl)
      | inr (v, at_v) ↦ elim (Bool-cases (d.le nought weight)) [
        | inl ok ↦ inr (u, v, at_u, at_v, ok, rw (at_u, at_v, ok, add_edge) refl)
        | inr low ↦ inl (rw (at_u, at_v, low, add_edge) refl)
      ]
    ]
  ]

  with_edge-IsGraph :
      (g : ShortestPathGraph W) (u v : ℕ) (weight : W)
      → IsGraph m g.adj
      → u < length g.adj
      → v < length g.adj
      → IsNatural m weight
      → IsGraph m (with_edge g u v weight).adj
  with_edge-IsGraph g u v weight graph hu hv natural x e i =
      let new : List (Edge W) = edges_of g.adj u ++ (record { to = v; weight = weight } ∷ []) in
      let size = length-set g.adj u new in
      let i' : Among e (if u == x then new else get_or g.adj x []) =
        subst (λ (es : List (Edge W)). Among e es) (get_or-set g.adj u x new [] hu) i in
      let inside : (e.to < length g.adj) × IsNatural m e.weight = elim (Bool-cases (u == x)) [
        | inl hit ↦
            elim (append-Among e (edges_of g.adj u) (record { to = v; weight = weight } ∷ [])
              (rw hit at i')) [
                | inl old ↦ graph u e old
                | inr (inl fresh) ↦
                    subst (λ (y : Edge W). (y.to < length g.adj) × IsNatural m y.weight) (sym fresh)
                      (hv, natural)
                | inr (inr none_left) ↦ elim none_left [ ]
              ]
        | inr miss ↦ graph x e (rw miss at i')
      ] in
      (omega (arith, size, inside.0), inside.1)

  add_edge-IsGraph :
      (g g' : ShortestPathGraph W) (from to : ℤ) (weight : W)
      → IsGraph m g.adj
      → add_edge g from to weight ≡ some g'
      → IsGraph m g'.adj
  add_edge-IsGraph g g' from to weight graph h = elim (add_edge-cases g from to weight) [
    | inl fails ↦ absurd (cc (h, fails))
    | inr (u, v, at_u, at_v, natural, e) ↦
        adj_of (with_edge g u v weight).adj g' (adj_eq (with_edge g u v weight) g' (sym e ∙ h)) (
          with_edge-IsGraph g u v weight graph (in_graph-lt (node_count g) u from at_u)
            (in_graph-lt (node_count g) v to at_v) natural)
  ]

  compute_from-IsGraph :
      (g g' : ShortestPathGraph W) (fuel : ℕ) (source : ℤ)
      → IsGraph m g.adj
      → compute_from fuel g source ≡ some g'
      → IsGraph m g'.adj
  unfolding compute_from
  compute_from-IsGraph g g' fuel source graph h =
      elim (Option-cases (in_graph (node_count g) source)) [
        | inl out ↦ absurd (cc (rw (out, compute_from) at h))
        | inr (s, at_s) ↦ elim (Option-cases (search_from fuel g.adj s (start (node_count g) s))) [
          | inl short ↦ absurd (cc (rw (at_s, short, compute_from) at h))
          | inr (l, run) ↦
              let e : some (record g { labels = l; source = some s }) ≡ some g' =
                rw (at_s, run, compute_from) at h in
              adj_of g.adj g' (adj_eq (record g { labels = l; source = some s }) g' e) graph
        ]
      ]

  -- In every graph that the constructor, `addEdge` and `computeFrom` build, the edges end in the graph
  -- and their weights are not negative.
  pub IsBuilt-IsGraph : (g : ShortestPathGraph W) → IsBuilt g → IsGraph m g.adj
  IsBuilt-IsGraph _ (built_new n g e) = new_graph-IsGraph n g e
  IsBuilt-IsGraph _ (built_with_edge g g' from to weight b e) =
      add_edge-IsGraph g g' from to weight (IsBuilt-IsGraph g b) e
  IsBuilt-IsGraph _ (built_answer g g' fuel source b e) =
      compute_from-IsGraph g g' fuel source (IsBuilt-IsGraph g b) e
