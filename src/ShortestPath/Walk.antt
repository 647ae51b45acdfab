-- ===== src/ShortestPath/Walk.antt =====
-- Walks in a graph, and what their weights add up to.
use ant_hoc_net.Double.{Double}
use ant_hoc_net.Prelude.{
  Among, List, Option, [], get_or, length, none, refl, some, subst, sym, ℕ, ◌++◌, ◌<◌, ◌∷◌, ◌≡◌,
}
use ant_hoc_net.ShortestPath.{Edge}
use ant_hoc_net.ShortestPath.Weight.{IsMeasure, IsNatural}

module _ {W : Type 0} ⦃d : Double W⦄ where
  -- the sum of the weights in the order of the walk, as the search adds them up
  unfoldable pub cost : W → List (Edge W) → W
  cost c [] = c
  cost c (e ∷ es) = cost (d.add c e.weight) es

  pub cost-append :
      (c : W) (es : List (Edge W)) (e : Edge W)
      → cost c (es ++ (e ∷ [])) ≡ d.add (cost c es) e.weight
  unfolding cost
  cost-append c [] e = refl
  cost-append c (x ∷ es) e = cost-append (d.add c x.weight) es e

module _ {W : Type 0} where
  -- the node after the start of a walk
  abbrev pub head_hop : List (Edge W) → Option ℕ
  head_hop [] = none
  head_hop (e ∷ es) = some e.to

  pub head_hop-append :
      (es : List (Edge W)) (e : Edge W) (h : ℕ)
      → head_hop es ≡ some h
      → head_hop (es ++ (e ∷ [])) ≡ some h
  head_hop-append [] e h k = cc
  head_hop-append (x ∷ es) e h k = k

module _ {W : Type 0} (adj : List (List (Edge W))) where
  -- the edges lead from u to v one after another
  unfoldable pub IsWalk : ℕ → List (Edge W) → ℕ → Type 0
  IsWalk u [] v = u ≡ v
  IsWalk u (e ∷ es) v = Among e (get_or adj u []) × IsWalk e.to es v

  pub IsWalk-append :
      (u : ℕ) (es : List (Edge W)) (v : ℕ) (e : Edge W)
      → IsWalk u es v
      → Among e (get_or adj v [])
      → IsWalk u (es ++ (e ∷ [])) e.to
  unfolding IsWalk
  IsWalk-append u [] v e walk i = (subst (λ (x : ℕ). Among e (get_or adj x [])) (sym walk) i, refl)
  IsWalk-append u (x ∷ es) v e walk i = (walk.0, IsWalk-append x.to es v e walk.1 i)

module _ {W : Type 0} ⦃d : Double W⦄ (m : IsMeasure W) (adj : List (List (Edge W))) where
  -- every edge ends in the graph, and its weight is not negative
  abbrev pub IsGraph : Type 0
  IsGraph =
      (u : ℕ) (e : Edge W) → Among e (get_or adj u []) → (e.to < length adj) × IsNatural m e.weight
