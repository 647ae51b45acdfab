-- ===== src/ShortestPath/TieBreak.antt =====
-- The choice of `computeFrom` between walks of the same length: the smallest first hop, when sums on
-- the walk are exact enough to keep a strict order.
use ant_hoc_net.Double.{Double, nought}
use ant_hoc_net.Prelude.{
  ==_iff, Among, Bool-cases, List, [], ap, arith, false, false≢true, inl, inr, not, refl, some,
  subst, sym, true, ℕ, ◌==◌, ◌∙◌, ◌∷◌, ◌≡◌, ◌≤◌,
}
use ant_hoc_net.ShortestPath.{Edge, Labels, candidate_hop, dist_of, edges_of, hop_of, is_better}
use ant_hoc_net.ShortestPath.Improve.{IsQuiet}
use ant_hoc_net.ShortestPath.Loop.{Settled}
use ant_hoc_net.ShortestPath.Optimal.{IsLabelled, edge_bound}
use ant_hoc_net.ShortestPath.Walk.{IsGraph, IsWalk, cost}
use ant_hoc_net.ShortestPath.Weight.{IsMeasure, IsNatural, add-IsNatural, le_refl}

module _ {W : Type 0} ⦃d : Double W⦄ (adj : List (List (Edge W))) (s : ℕ) where
  -- the walk does not come back to the source
  unfoldable pub LeavesSource : List (Edge W) → Type 0
  LeavesSource [] = Unit
  LeavesSource (e ∷ es) = ((e.to == s) ≡ false) × LeavesSource es

  -- from u on, with the length c before it: a shorter walk to a node of the walk stays shorter by the
  -- edge that follows. Rounding may break this, sums of whole numbers below 2^53 do not.
  unfoldable pub IsExact : ℕ → W → List (Edge W) → Type 0
  IsExact u c [] = Unit
  IsExact u c (e ∷ es) =
      ((walk : List (Edge W))
        → IsWalk adj s walk u
        → d.lt (cost nought walk) c ≡ true
        → d.lt (d.add (cost nought walk) e.weight) (d.add c e.weight) ≡ true)
      × IsExact e.to (d.add c e.weight) es

module _ {W : Type 0} ⦃d : Double W⦄ (m : IsMeasure W) (adj : List (List (Edge W))) (s : ℕ)
    (graph : IsGraph m adj) (l : Labels W) (end : Settled m adj s graph l) where
  open d use {add, le, lt}

  -- the label of u is not behind a length of c by way of k
  record NoWorse (u : ℕ) (c : W) (k : ℕ) : Type 0 where
    hop : ℕ
    label : hop_of l u ≡ some hop
    near : le (dist_of l u) c ≡ true
    tie : le c (dist_of l u) ≡ true → hop ≤ k

  -- of two candidates of the same length the label keeps the smaller first hop
  quiet_tie :
      (cand have : W) (hop k : ℕ)
      → IsNatural m cand
      → IsNatural m have
      → le cand have ≡ true
      → le have cand ≡ true
      → is_better cand hop have (some k) ≡ false
      → k ≤ hop
  unfolding is_better
  quiet_tie cand have hop k hc hh a b quiet = ground (arith, m.eq_le cand have)

  -- the label of the end of an edge, when the candidate by way of `hop` is not behind c by way of k
  edge_NoWorse :
      (u : ℕ) (e : Edge W) (hop k : ℕ) (c : W)
      → Among e (edges_of adj u)
      → (e.to == s) ≡ false
      → candidate_hop s l u e.to ≡ some hop
      → IsLabelled m adj s graph l u
      → IsNatural m c
      → le (add (dist_of l u) e.weight) c ≡ true
      → (le c (add (dist_of l u) e.weight) ≡ true → hop ≤ k)
      → NoWorse e.to c k
  unfolding IsQuiet
  edge_NoWorse u e hop k c i away cand labelled hc near tie =
      let longer = add (dist_of l u) e.weight in
      let natural : IsNatural m longer =
        add-IsNatural m (dist_of l u) e.weight (end.sound.natural u) (graph u e i).1 in
      let bound = edge_bound m adj s graph l end u e i labelled in
      let quiet = end.quiet u e i hop away cand in
      elim bound.0 [
        | inl at ↦ absurd (false≢true (sym away ∙ (==_iff e.to s).1 at))
        | inr (h, label) ↦ record {
          hop = h;
          label = label;
          near = m.le_trans (dist_of l e.to) longer c bound.1 near;
          tie = λ back.
              let lower : le longer (dist_of l e.to) ≡ true =
                m.le_trans longer c (dist_of l e.to) near back in
              let same =
                quiet_tie longer (dist_of l e.to) hop h natural (end.sound.natural e.to) lower
                  bound.1 (rw label at quiet) in
              let first = tie (m.le_trans c (dist_of l e.to) longer back bound.1) in omega arith;
        }
      ]

  -- an edge from a node other than the source
  step_NoWorse :
      (u : ℕ) (e : Edge W) (k : ℕ) (c : W)
      → Among e (edges_of adj u)
      → (u == s) ≡ false
      → (e.to == s) ≡ false
      → IsNatural m c
      → ((walk : List (Edge W))
          → IsWalk adj s walk u
          → lt (cost nought walk) c ≡ true
          → lt (add (cost nought walk) e.weight) (add c e.weight) ≡ true)
      → NoWorse u c k
      → NoWorse e.to (add c e.weight) k
  step_NoWorse u e k c i not_source away hc exact now =
      let weight = (graph u e i).1 in
      let r = end.sound.reached u now.hop now.label in
      let du = end.sound.natural u in
      edge_NoWorse u e now.hop k (add c e.weight) i away (rw not_source now.label)
        (inr (now.hop, now.label)) (add-IsNatural m c e.weight hc weight)
        (m.add_mono (dist_of l u) c e.weight du weight now.near)
        (λ back. elim (Bool-cases (le c (dist_of l u))) [
          | inl same ↦ now.tie same
          | inr less ↦
              let strict : lt (dist_of l u) c ≡ true =
                m.lt_le (dist_of l u) c du hc ∙ ap not less in
              let still : lt (add (dist_of l u) e.weight) (add c e.weight) ≡ true =
                rw (← r.length_eq) (exact r.walk r.leads (rw r.length_eq strict)) in
              absurd (
                false≢true (
                  sym (ap not back)
                  ∙ sym (
                      m.lt_le (add (dist_of l u) e.weight) (add c e.weight)
                        (add-IsNatural m (dist_of l u) e.weight du weight)
                        (add-IsNatural m c e.weight hc weight))
                  ∙ still))
        ])

  walk_NoWorse :
      (u : ℕ) (es : List (Edge W)) (v k : ℕ) (c : W)
      → IsWalk adj u es v
      → (u == s) ≡ false
      → LeavesSource adj s es
      → IsExact adj s u c es
      → IsNatural m c
      → NoWorse u c k
      → NoWorse v (cost c es) k
  unfolding IsWalk cost IsExact LeavesSource
  walk_NoWorse u [] v k c walk not_source leaves exact hc now =
      subst (λ (x : ℕ). NoWorse x c k) walk now
  walk_NoWorse u (e ∷ es) v k c walk not_source leaves exact hc now =
      walk_NoWorse e.to es v k (add c e.weight) walk.1 leaves.0 leaves.1 exact.1
        (add-IsNatural m c e.weight hc (graph u e walk.0).1)
        (step_NoWorse u e k c walk.0 not_source leaves.0 hc exact.0 now)

  -- no walk of the same length has a smaller first hop than the label
  pub smallest_hop :
      (e : Edge W) (es : List (Edge W)) (v : ℕ)
      → IsWalk adj s (e ∷ es) v
      → LeavesSource adj s (e ∷ es)
      → IsExact adj s e.to (add nought e.weight) es
      → cost nought (e ∷ es) ≡ dist_of l v
      → (hop : ℕ) × (hop_of l v ≡ some hop) × (hop ≤ e.to)
  unfolding IsWalk cost LeavesSource
  smallest_hop e es v walk leaves exact same =
      let weight = (graph s e walk.0).1 in
      let c = add nought e.weight in
      let hc : IsNatural m c = add-IsNatural m nought e.weight m.le_nought weight in
      let here : add (dist_of l s) e.weight ≡ c =
        ap (λ (x : W). add x e.weight) end.sound.source_dist in
      let first : NoWorse e.to c e.to =
        edge_NoWorse s e e.to e.to c walk.0 leaves.0 (rw ((==_iff s s).1 refl) refl) (inl refl) hc
          (rw here (le_refl m c hc)) (λ back. omega arith) in
      let last = walk_NoWorse e.to es v e.to c walk.1 leaves.0 leaves.1 exact hc first in
      (last.hop, last.label, last.tie (rw same (le_refl m (dist_of l v) (end.sound.natural v))))
