-- ===== src/ShortestPath/Optimal.antt =====
-- `computeFrom` finds shortest walks.
use ant_hoc_net.Double.{Double, nought}
use ant_hoc_net.History.{bound}
use ant_hoc_net.Prelude.{
  ==_iff, Among, Bool-cases, List, Option-cases, [], ap, arith, false, false≢true, get_or-replicate,
  get_or-set, if◌then◌else◌, inl, inr, length, length-replicate, length-set, none, refl, replicate,
  some, subst, sym, true, ℕ, ◌<◌, ◌==◌, ◌∙◌, ◌∷◌, ◌≡◌, ◌≤◌, ◌⊎◌,
}
use ant_hoc_net.ShortestPath.{
  Edge, Labels, QueueItem, candidate_hop, dist_of, edges_of, hop_of, is_better, start,
}
use ant_hoc_net.ShortestPath.Improve.{IsQuiet}
use ant_hoc_net.ShortestPath.Loop.{Everywhere, Settled}
use ant_hoc_net.ShortestPath.Measure.{effort}
use ant_hoc_net.ShortestPath.Progress.{Keeps}
use ant_hoc_net.ShortestPath.Sound.{IsSound}
use ant_hoc_net.ShortestPath.Walk.{IsGraph, IsWalk, cost}
use ant_hoc_net.ShortestPath.Weight.{
  IsMeasure, IsNatural, add-IsNatural, infinity-IsNatural, is_better-infinity, le_of_not_better,
}

module _ {W : Type 0} ⦃d : Double W⦄ (m : IsMeasure W) (adj : List (List (Edge W))) (s : ℕ)
    (graph : IsGraph m adj) where
  open d use {add, le, infinity}

  -- the source, or a node with a first hop
  abbrev pub IsLabelled : Labels W → ℕ → Type 0
  IsLabelled l u = (u ≡ s) ⊎ ((hop : ℕ) × (hop_of l u ≡ some hop))

  candidate :
      (l : Labels W) (u v : ℕ) → IsLabelled l u → (hop : ℕ) × (candidate_hop s l u v ≡ some hop)
  candidate l u v labelled = elim (Bool-cases (u == s)) [
    | inl hit ↦ (v, rw hit refl)
    | inr miss ↦ elim labelled [
      | inl at ↦ absurd (false≢true (sym miss ∙ (==_iff u s).1 at))
      | inr (hop, e) ↦ (hop, rw miss e)
    ]
  ]

  module _ (l : Labels W) (end : Settled m adj s graph l) where
    -- an edge from a labelled node ends in a labelled node, not farther than the edge leads
    pub edge_bound :
        (u : ℕ) (e : Edge W)
        → Among e (edges_of adj u)
        → IsLabelled l u
        → IsLabelled l e.to × (le (dist_of l e.to) (add (dist_of l u) e.weight) ≡ true)
    unfolding IsQuiet
    edge_bound u e i labelled =
        let natural : IsNatural m (add (dist_of l u) e.weight) =
          add-IsNatural m (dist_of l u) e.weight (end.sound.natural u) (graph u e i).1 in
        elim (Bool-cases (e.to == s)) [
          | inl hit ↦
              let at : e.to ≡ s = (==_iff e.to s).0 hit in
              (
                inl at,
                subst (λ (c : W). le c (add (dist_of l u) e.weight) ≡ true)
                    (sym (ap (dist_of l) at ∙ end.sound.source_dist)) natural,
              )
          | inr miss ↦
              let (hop, c) = candidate l u e.to labelled in
              let quiet : is_better (add (dist_of l u) e.weight) hop (dist_of l e.to)
                    (hop_of l e.to)
                  ≡ false =
                end.quiet u e i hop miss c in
              elim (Option-cases (hop_of l e.to)) [
                | inl blank ↦
                    let far : dist_of l e.to ≡ infinity = end.sound.blank e.to miss blank in
                    absurd (
                      false≢true (
                        sym (rw (far, blank) at quiet)
                        ∙ is_better-infinity m (add (dist_of l u) e.weight) hop natural))
                | inr (k, e_k) ↦ (
                  inr (k, e_k),
                  le_of_not_better m (add (dist_of l u) e.weight) (dist_of l e.to) hop
                      (hop_of l e.to) natural (end.sound.natural e.to) quiet,
                )
              ]
        ]

    walk_bound :
        (u : ℕ) (es : List (Edge W)) (v : ℕ) (c : W)
        → IsWalk adj u es v
        → IsLabelled l u
        → IsNatural m c
        → le (dist_of l u) c ≡ true
        → IsLabelled l v × (le (dist_of l v) (cost c es) ≡ true)
    unfolding IsWalk cost
    walk_bound u [] v c walk labelled hc near = (
      subst (λ (x : ℕ). IsLabelled l x) walk labelled,
      subst (λ (x : ℕ). le (dist_of l x) c ≡ true) walk near,
    )
    walk_bound u (e ∷ es) v c walk labelled hc near =
        let weight = (graph u e walk.0).1 in
        let step = edge_bound u e walk.0 labelled in
        let longer = m.add_mono (dist_of l u) c e.weight (end.sound.natural u) weight near in
        walk_bound e.to es v (add c e.weight) walk.1 step.0 (add-IsNatural m c e.weight hc weight)
          (m.le_trans (dist_of l e.to) (add (dist_of l u) e.weight) (add c e.weight) step.1 longer)

    pub walk_from_source :
        (es : List (Edge W)) (v : ℕ)
        → IsWalk adj s es v
        → IsLabelled l v × (le (dist_of l v) (cost nought es) ≡ true)
    walk_from_source es v walk =
        let near : le (dist_of l s) nought ≡ true = rw end.sound.source_dist m.le_nought in
        walk_bound s es v nought walk (inl refl) m.le_nought near

  module _ (small : s < length adj) where
    abbrev first : Labels W
    first = (start (length adj) s).0

    start_dist : (x : ℕ) → dist_of first x ≡ (if s == x then nought else infinity)
    start_dist x =
        get_or-set (replicate (length adj) infinity) s x nought infinity
          (omega (arith, length-replicate (length adj) infinity))
        ∙ ap (λ (c : W). if s == x then nought else c) (get_or-replicate (length adj) x infinity)

    start_hop : (x : ℕ) → hop_of first x ≡ none
    start_hop x = get_or-replicate (length adj) x none

    start-IsSound : IsSound m adj s first
    start-IsSound = record {
      dist_size =
          length-set (replicate (length adj) infinity) s nought
          ∙ length-replicate (length adj) infinity;
      hop_size = length-replicate (length adj) none;
      reached = λ v hop h. cc (start_hop v);
      blank = λ v away h. ground (arith, start_dist v);
      source_hop = start_hop s;
      source_dist = ground (arith, start_dist s);
      natural = λ v. ground (arith, start_dist v, m.le_nought, infinity-IsNatural m);
    }

    -- the rounds that are enough
    abbrev pub rounds : ℕ
    rounds = effort m (length adj) (start (length adj) s)

    pub start-Keeps :
        (bound : ℕ)
        → rounds ≤ bound
        → Keeps m adj s bound (start (length adj) s) (Everywhere m adj s graph)
    unfolding IsQuiet
    start-Keeps bound h = record {
      sound = start-IsSound;
      parts = λ x. elim (Bool-cases (x == s)) [
        | inl hit ↦
            let at : x ≡ s = (==_iff x s).0 hit in
            inl (
              inl (
                subst (λ (y : ℕ). ◌≡◌ {A = QueueItem W} (dist_of first y, y) (nought, s)) (sym at)
                  (ap (λ (c : W). let q : QueueItem W = (c, s) in q) start-IsSound.source_dist)))
        | inr miss ↦ inr (λ e i hop away c. cc (start_hop x, rw miss at c))
      ];
      paid = h;
    }
