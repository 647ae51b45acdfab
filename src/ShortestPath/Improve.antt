-- ===== src/ShortestPath/Improve.antt =====
-- The two things that the relaxation of an edge can do.
use ant_hoc_net.Double.{Double}
use ant_hoc_net.Prelude.{
  Bool-cases, List, Option-cases, arith, false, false≢true, get_or-set, if◌then◌else◌, inl, inr,
  length, none, refl, set, some, sym, true, ℕ, ◌<◌, ◌==◌, ◌∙◌, ◌∷◌, ◌≡◌, ◌⊎◌,
}
use ant_hoc_net.ShortestPath.{
  Edge, Labels, QueueItem, Search, candidate_hop, dist_of, hop_of, is_better, relax,
}

module _ {W : Type 0} where
  -- a node gets a new label
  abbrev pub improve : Labels W → ℕ → W → ℕ → Labels W
  improve l v c hop = record { dist = set l.dist v c; first_hop = set l.first_hop v (some hop) }

module _ {W : Type 0} ⦃d : Double W⦄ where
  open d use {add}

  pub dist_of-improve :
      (l : Labels W) (v x : ℕ) (c : W) (hop : ℕ)
      → v < length l.dist
      → dist_of (improve l v c hop) x ≡ (if v == x then c else dist_of l x)
  dist_of-improve l v x c hop h = get_or-set l.dist v x c d.infinity h

  pub hop_of-improve :
      (l : Labels W) (v x : ℕ) (c : W) (hop : ℕ)
      → v < length l.first_hop
      → hop_of (improve l v c hop) x ≡ (if v == x then some hop else hop_of l x)
  hop_of-improve l v x c hop h = get_or-set l.first_hop v x (some hop) none h

  module _ (s : ℕ) where
    -- the edge e from u does not improve the label of its end
    unfoldable pub IsQuiet : Labels W → ℕ → Edge W → Type 0
    IsQuiet l u e =
        (hop : ℕ)
        → (e.to == s) ≡ false
        → candidate_hop s l u e.to ≡ some hop
        → is_better (add (dist_of l u) e.weight) hop (dist_of l e.to) (hop_of l e.to) ≡ false

    -- the edge e from u improves the label of its end, by way of `hop`
    pub record Improves (l : Labels W) (u : ℕ) (e : Edge W) : Type 0 where
      pub hop : ℕ
      pub not_source : (e.to == s) ≡ false
      pub candidate : candidate_hop s l u e.to ≡ some hop
      pub better :
          is_better (add (dist_of l u) e.weight) hop (dist_of l e.to) (hop_of l e.to) ≡ true

    abbrev pub improved :
        (l : Labels W) (pq : List (QueueItem W)) (u : ℕ) (e : Edge W) → Improves l u e → Search W
    improved l pq u e i =
        (improve l e.to (add (dist_of l u) e.weight) i.hop, (add (dist_of l u) e.weight, e.to) ∷ pq)

    pub relax-cases :
        (l : Labels W) (pq : List (QueueItem W)) (u : ℕ) (e : Edge W)
        → ((relax s u (l, pq) e ≡ (l, pq)) × IsQuiet l u e)
          ⊎ ((i : Improves l u e) × (relax s u (l, pq) e ≡ improved l pq u e i))
    unfolding relax IsQuiet
    relax-cases l pq u e = elim (Bool-cases (e.to == s)) [
      | inl at_source ↦ inl (rw at_source, λ hop away. absurd (false≢true (sym away ∙ at_source)))
      | inr away ↦ elim (Option-cases (candidate_hop s l u e.to)) [
        | inl blank ↦ inl (rw (away, blank) refl, λ hop w c. cc)
        | inr (hop, c) ↦
            elim (Bool-cases
              (is_better (add (dist_of l u) e.weight) hop (dist_of l e.to) (hop_of l e.to))) [
                | inl better ↦ inr (
                  record { hop = hop; not_source = away; candidate = c; better = better },
                  rw (away, c, better) refl,
                )
                | inr not_better ↦ inl (rw (away, c, not_better) refl, λ new w k. ground arith)
              ]
      ]
    ]
