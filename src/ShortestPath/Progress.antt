-- ===== src/ShortestPath/Progress.antt =====
-- A node whose label changed is in the queue, or all its edges have been relaxed since.
use ant_hoc_net.Double.{Double}
use ant_hoc_net.History.{bound}
use ant_hoc_net.Prelude.{
  ==_iff, Among, Bool-cases, List, [], ap, arith, false, foldl, inl, inr, length, refl, subst, sym,
  ℕ, ◌==◌, ◌∷◌, ◌≡◌, ◌≤◌, ◌⊎◌,
}
use ant_hoc_net.ShortestPath.{Edge, Labels, QueueItem, Search, dist_of, edges_of, relax}
use ant_hoc_net.ShortestPath.Improve.{Improves, IsQuiet, improve, improved, relax-cases}
use ant_hoc_net.ShortestPath.Measure.{effort, effort-improve}
use ant_hoc_net.ShortestPath.Sound.{
  IsSound, dist_after, dist_new, extended, improve-IsQuiet, improve-IsSound, relaxed-IsQuiet,
}
use ant_hoc_net.ShortestPath.Walk.{IsGraph}
use ant_hoc_net.ShortestPath.Weight.{IsMeasure}

module _ {W : Type 0} ⦃d : Double W⦄ (m : IsMeasure W) (adj : List (List (Edge W))) (s : ℕ) where
  open d use {add, lt}

  -- x is in the queue with its distance, or the edges in D do not improve any label
  abbrev pub Part : Search W → ℕ → (Edge W → Type 0) → Type 0
  Part (l, pq) x D = Among (dist_of l x, x) pq ⊎ ((e : Edge W) → D e → IsQuiet s l x e)

  pub Part-mono :
      (o : Search W) (x : ℕ) (D E : Edge W → Type 0)
      → ((e : Edge W) → E e → D e)
      → Part o x D
      → Part o x E
  Part-mono o x D E f (inl i) = inl i
  Part-mono o x D E f (inr h) = inr (λ e k. h e (f e k))

  pub Part-join :
      (o : Search W) (x : ℕ) (D E : Edge W → Type 0)
      → Part o x D
      → Part o x E
      → Part o x (λ e. D e ⊎ E e)
  Part-join o x D E (inl i) q = inl i
  Part-join o x D E (inr h) (inl i) = inl i
  Part-join o x D E (inr h) (inr k) = inr (λ e. λ c. elim c [ inl a ↦ h e a | inr b ↦ k e b ])

  -- what the search keeps true: sound labels, and every node in the queue or relaxed as far as D says
  pub record Keeps (bound : ℕ) (o : Search W) (D : ℕ → Edge W → Type 0) : Type 0 where
    pub sound : IsSound m adj s o.0
    pub parts : (x : ℕ) → Part o x (D x)
    pub paid : effort m (length adj) o ≤ bound

  -- the edges of D, and e of u
  abbrev With : (ℕ → Edge W → Type 0) → ℕ → Edge W → ℕ → Edge W → Type 0
  With D u e x f = D x f ⊎ ((x ≡ u) × (f ≡ e))

  module _ (graph : IsGraph m adj) where
    improved-Part :
        (l : Labels W) (pq : List (QueueItem W)) (u : ℕ) (e : Edge W) (D : ℕ → Edge W → Type 0)
        (sound : IsSound m adj s l) (i : Among e (edges_of adj u)) (imp : Improves s l u e)
        → ((x : ℕ) (f : Edge W) → D x f → Among f (edges_of adj x))
        → ((x : ℕ) → Part (l, pq) x (D x))
        → (x : ℕ) → Part (improved s l pq u e imp) x (With D u e x)
    improved-Part l pq u e D sound i imp inside parts x =
        let l' = improve l e.to (add (dist_of l u) e.weight) imp.hop in
        elim (Bool-cases (e.to == x)) [
          | inl hit ↦
              let at : e.to ≡ x = (==_iff e.to x).0 hit in
              inl (
                inl (
                  subst
                    (λ (k : ℕ).
                      ◌≡◌ {A = QueueItem W} (dist_of l' k, k) (add (dist_of l u) e.weight, e.to))
                    at
                    (ap (λ (c : W). let q : QueueItem W = (c, e.to) in q)
                      (dist_new m adj s graph l sound u e i imp))))
          | inr miss ↦
              let dist_x : dist_of l' x ≡ dist_of l x =
                ground (arith, dist_after m adj s graph l sound u e i imp x) in
              elim (parts x) [
                | inl queued ↦ inl (inr (subst (λ (c : W). Among (c, x) pq) (sym dist_x) queued))
                | inr quiet ↦ inr (λ f. λ c. elim c [
                  | inl old ↦
                      improve-IsQuiet m adj s graph l sound u e i imp x f miss (inside x f old)
                        (quiet f old)
                  | inr (x_eq, f_eq) ↦
                      subst (λ (g : Edge W). IsQuiet s l' x g) (sym f_eq)
                        (subst (λ (k : ℕ). IsQuiet s l' k e) (sym x_eq)
                          (relaxed-IsQuiet m adj s graph l sound u e i imp
                            (subst (λ (k : ℕ). (e.to == k) ≡ false) x_eq miss)))
                ])
              ]
        ]

    relax-Keeps :
        (bound : ℕ) (o : Search W) (u : ℕ) (e : Edge W) (D : ℕ → Edge W → Type 0)
        → Among e (edges_of adj u)
        → ((x : ℕ) (f : Edge W) → D x f → Among f (edges_of adj x))
        → Keeps bound o D
        → Keeps bound (relax s u o e) (With D u e)
    relax-Keeps bound (l, pq) u e D i inside k = elim (relax-cases s l pq u e) [
      | inl (same, quiet) ↦
          subst (λ (o : Search W). Keeps bound o (With D u e)) (sym same)
            (record {
              sound = k.sound;
              parts = λ x. elim (k.parts x) [
                | inl queued ↦ inl queued
                | inr old ↦ inr (λ f. λ c. elim c [
                  | inl before ↦ old f before
                  | inr (x_eq, f_eq) ↦
                      subst (λ (g : Edge W). IsQuiet s l x g) (sym f_eq)
                        (subst (λ (y : ℕ). IsQuiet s l y e) (sym x_eq) quiet)
                ])
              ];
              paid = k.paid;
            })
      | inr (imp, new) ↦
          subst (λ (o : Search W). Keeps bound o (With D u e)) (sym new)
            (record {
              sound = improve-IsSound m adj s graph l k.sound u e i imp;
              parts = improved-Part l pq u e D k.sound i imp inside k.parts;
              paid = omega (
                arith,
                effort-improve m (length adj) l pq e.to (add (dist_of l u) e.weight) imp.hop
                    (omega (arith, k.sound.dist_size, (graph u e i).0))
                    (omega (arith, k.sound.hop_size, (graph u e i).0))
                    (extended m adj s graph l k.sound u e i imp).in_graph imp.better,
                k.paid,
              );
            })
    ]

    -- the loop over the edges of u
    pub edges-Keeps :
        (bound : ℕ) (es : List (Edge W)) (o : Search W) (u : ℕ) (D : ℕ → Edge W → Type 0)
        → ((e : Edge W) → Among e es → Among e (edges_of adj u))
        → ((x : ℕ) (f : Edge W) → D x f → Among f (edges_of adj x))
        → Keeps bound o D
        → Keeps bound (foldl (relax s u) o es) (λ x f. D x f ⊎ ((x ≡ u) × Among f es))
    edges-Keeps bound [] o u D some_of inside k = record {
      sound = k.sound;
      parts = λ x.
          Part-mono o x (D x) (λ f. D x f ⊎ ((x ≡ u) × ⊥))
            (λ f c. elim c [ inl a ↦ a | inr (e, h) ↦ absurd h ]) (k.parts x);
      paid = k.paid;
    }
    edges-Keeps bound (e ∷ es) o u D some_of inside k =
        let step = relax-Keeps bound o u e D (some_of e (inl refl)) inside k in
        let inside' : (x : ℕ) (f : Edge W) → With D u e x f → Among f (edges_of adj x) = λ x f c.
          elim c [
            | inl old ↦ inside x f old
            | inr (x_eq, f_eq) ↦
                subst (λ (g : Edge W). Among g (edges_of adj x)) (sym f_eq)
                  (subst (λ (y : ℕ). Among e (edges_of adj y)) (sym x_eq) (some_of e (inl refl)))
          ] in
        let rest =
          edges-Keeps bound es (relax s u o e) u (With D u e) (λ f i. some_of f (inr i)) inside'
            step in
        record {
          sound = rest.sound;
          parts = λ x.
              Part-mono (foldl (relax s u) o (e ∷ es)) x _ _
                (λ f. λ c. elim c [
                  | inl old ↦ inl (inl old)
                  | inr (at, inl head) ↦ inl (inr (at, head))
                  | inr (at, inr tail) ↦ inr (at, tail)
                ])
                (rest.parts x);
          paid = rest.paid;
        }
