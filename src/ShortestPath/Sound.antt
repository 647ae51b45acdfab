-- ===== src/ShortestPath/Sound.antt =====
-- Every label that the search sets is the length of a walk from the source.
use ant_hoc_net.Double.{Double, nought}
use ant_hoc_net.Prelude.{
  ==_iff, Among, Bool-cases, List, [], ap, arith, false, if◌then◌else◌, inl, inr, length,
  length-set, none, refl, some, subst, sym, true, ℕ, ◌++◌, ◌<◌, ◌==◌, ◌∙◌, ◌∷◌, ◌≡◌,
}
use ant_hoc_net.ShortestPath.{Edge, Labels, dist_of, edges_of, hop_of, is_better}
use ant_hoc_net.ShortestPath.Improve.{Improves, IsQuiet, dist_of-improve, hop_of-improve, improve}
use ant_hoc_net.ShortestPath.Walk.{
  IsGraph, IsWalk, IsWalk-append, cost, cost-append, head_hop, head_hop-append,
}
use ant_hoc_net.ShortestPath.Weight.{IsMeasure, IsNatural, add-IsNatural, is_better-IsBelow}

module _ {W : Type 0} ⦃d : Double W⦄ (m : IsMeasure W) (adj : List (List (Edge W))) (s : ℕ) where
  open d use {add, infinity}

  -- a walk from the source with the length and the first hop of the label of v
  pub record Reached (l : Labels W) (v hop : ℕ) : Type 0 where
    pub walk : List (Edge W)
    pub leads : IsWalk adj s walk v
    pub length_eq : cost nought walk ≡ dist_of l v
    pub head : head_hop walk ≡ some hop
    pub in_graph : hop < length adj

  pub record IsSound (l : Labels W) : Type 0 where
    pub dist_size : length l.dist ≡ length adj
    pub hop_size : length l.first_hop ≡ length adj
    pub reached : (v hop : ℕ) → hop_of l v ≡ some hop → Reached l v hop
    pub blank : (v : ℕ) → (v == s) ≡ false → hop_of l v ≡ none → dist_of l v ≡ infinity
    pub source_hop : hop_of l s ≡ none
    pub source_dist : dist_of l s ≡ nought
    pub natural : (v : ℕ) → IsNatural m (dist_of l v)

  module _ (graph : IsGraph m adj) (l : Labels W) (sound : IsSound l) (u : ℕ) (e : Edge W)
      (i : Among e (edges_of adj u)) (imp : Improves s l u e) where
    abbrev longer : W
    longer = add (dist_of l u) e.weight

    longer-IsNatural : IsNatural m longer
    longer-IsNatural = add-IsNatural m (dist_of l u) e.weight (sound.natural u) (graph u e i).1

    pub dist_after :
        (x : ℕ)
        → dist_of (improve l e.to longer imp.hop) x ≡ (if e.to == x then longer else dist_of l x)
    dist_after x =
        dist_of-improve l e.to x longer imp.hop (omega (arith, sound.dist_size, (graph u e i).0))

    hop_after :
        (x : ℕ)
        → hop_of (improve l e.to longer imp.hop) x
          ≡ (if e.to == x then some imp.hop else hop_of l x)
    hop_after x =
        hop_of-improve l e.to x longer imp.hop (omega (arith, sound.hop_size, (graph u e i).0))

    pub dist_new : dist_of (improve l e.to longer imp.hop) e.to ≡ longer
    dist_new = ground (arith, dist_after e.to)

    -- the walk to u, and the edge
    pub extended : Reached (improve l e.to longer imp.hop) e.to imp.hop
    extended = elim (Bool-cases (u == s)) [
      | inl at_source ↦
          let here : u ≡ s = (==_iff u s).0 at_source in
          let first : e.to ≡ imp.hop = ground (arith, imp.candidate) in
          record {
            walk = e ∷ [];
            leads = unfold IsWalk in (subst (λ (x : ℕ). Among e (edges_of adj x)) here i, refl);
            length_eq =
                unfold cost in
                (ap (λ (x : W). add x e.weight) (sym (ap (dist_of l) here ∙ sound.source_dist))
                  ∙ sym dist_new);
            head = ap some first;
            in_graph = rw (← first) (graph u e i).0;
          }
      | inr away ↦
          let via : hop_of l u ≡ some imp.hop = ground (arith, imp.candidate) in
          let r = sound.reached u imp.hop via in
          record {
            walk = r.walk ++ (e ∷ []);
            leads = IsWalk-append adj s r.walk u e r.leads i;
            length_eq =
                cost-append nought r.walk e
                ∙ ap (λ (x : W). add x e.weight) r.length_eq
                ∙ sym dist_new;
            head = head_hop-append r.walk e imp.hop r.head;
            in_graph = r.in_graph;
          }
    ]

    Reached-after :
        (v hop : ℕ)
        → hop_of (improve l e.to longer imp.hop) v ≡ some hop
        → Reached (improve l e.to longer imp.hop) v hop
    Reached-after v hop h = elim (Bool-cases (e.to == v)) [
      | inl same ↦
          let at : e.to ≡ v = (==_iff e.to v).0 same in
          let by : imp.hop ≡ hop = ground (arith, hop_after v) in
          subst (λ (k : ℕ). Reached (improve l e.to longer imp.hop) v k) by
            (subst (λ (x : ℕ). Reached (improve l e.to longer imp.hop) x imp.hop) at extended)
      | inr other ↦
          let r = sound.reached v hop (ground (arith, hop_after v)) in
          let same : dist_of (improve l e.to longer imp.hop) v ≡ dist_of l v =
            ground (arith, dist_after v) in
          record {
            walk = r.walk;
            leads = r.leads;
            length_eq = r.length_eq ∙ sym same;
            head = r.head;
            in_graph = r.in_graph;
          }
    ]

    pub improve-IsSound : IsSound (improve l e.to longer imp.hop)
    improve-IsSound = record {
      dist_size = length-set l.dist e.to longer ∙ sound.dist_size;
      hop_size = length-set l.first_hop e.to (some imp.hop) ∙ sound.hop_size;
      reached = Reached-after;
      blank = λ v away h. ground (arith, dist_after v, hop_after v, sound.blank v away);
      source_hop = ground (arith, hop_after s, sound.source_hop, imp.not_source);
      source_dist = ground (arith, dist_after s, sound.source_dist, imp.not_source);
      natural = λ v. ground (arith, dist_after v, sound.natural v, longer-IsNatural);
    }

    -- an edge that improved nothing still improves nothing, if its own node is not the improved one
    pub improve-IsQuiet :
        (x : ℕ) (f : Edge W)
        → (e.to == x) ≡ false
        → Among f (edges_of adj x)
        → IsQuiet s l x f
        → IsQuiet s (improve l e.to longer imp.hop) x f
    unfolding IsQuiet
    improve-IsQuiet x f other among quiet hop away c =
        let l' = improve l e.to longer imp.hop in
        let dist_x : dist_of l' x ≡ dist_of l x = ground (arith, dist_after x) in
        let hop_x : hop_of l' x ≡ hop_of l x = ground (arith, hop_after x) in
        let before : is_better (add (dist_of l x) f.weight) hop (dist_of l f.to) (hop_of l f.to)
            ≡ false =
          quiet hop away (ground (arith, hop_x)) in
        let cand_IsNatural : IsNatural m (add (dist_of l x) f.weight) =
          add-IsNatural m (dist_of l x) f.weight (sound.natural x) (graph x f among).1 in
        elim (Bool-cases (e.to == f.to)) [
          | inl hit ↦
              let at : e.to ≡ f.to = (==_iff e.to f.to).0 hit in
              let dist_f : dist_of l' f.to ≡ longer = ground (arith, dist_after f.to) in
              let hop_f : hop_of l' f.to ≡ some imp.hop = ground (arith, hop_after f.to) in
              let better : is_better longer imp.hop (dist_of l f.to) (hop_of l f.to) ≡ true =
                subst (λ (k : ℕ). is_better longer imp.hop (dist_of l k) (hop_of l k) ≡ true) at
                  imp.better in
              rw (dist_x, dist_f, hop_f)
                (ground (
                  arith,
                  before,
                  is_better-IsBelow m longer (dist_of l f.to) imp.hop (hop_of l f.to)
                      longer-IsNatural (sound.natural f.to) better (add (dist_of l x) f.weight) hop
                      cand_IsNatural,
                ))
          | inr miss ↦
              let dist_f : dist_of l' f.to ≡ dist_of l f.to = ground (arith, dist_after f.to) in
              let hop_f : hop_of l' f.to ≡ hop_of l f.to = ground (arith, hop_after f.to) in
              rw (dist_x, dist_f, hop_f) before
        ]

    -- the edge that improved the label of another node improves it no more
    pub relaxed-IsQuiet : (e.to == u) ≡ false → IsQuiet s (improve l e.to longer imp.hop) u e
    unfolding IsQuiet is_better
    relaxed-IsQuiet other hop away c =
        let l' = improve l e.to longer imp.hop in
        let dist_u : dist_of l' u ≡ dist_of l u = ground (arith, dist_after u) in
        let hop_u : hop_of l' u ≡ hop_of l u = ground (arith, hop_after u) in
        let hop_e : hop_of l' e.to ≡ some imp.hop = ground (arith, hop_after e.to) in
        let same : hop ≡ imp.hop = ground (arith, hop_u, imp.candidate) in
        rw (dist_u, dist_new, hop_e, same)
          (ground (
            arith,
            m.lt_le longer longer longer-IsNatural longer-IsNatural,
            m.lt_rank longer longer,
          ))
