-- ===== src/ShortestPath/Loop.antt =====
-- The main loop: it ends, and with an empty queue every edge is relaxed.
use ant_hoc_net.Double.{Double}
use ant_hoc_net.History.{bound}
use ant_hoc_net.Message.{still}
use ant_hoc_net.Prelude.{
  ==_iff, Among, Bool-cases, List, [], ap, arith, false, false≢true, inl, inr, length, none, refl,
  some, subst, suc, sym, zero, ℕ, ◌+◌, ◌==◌, ◌∙◌, ◌∷◌, ◌≡◌, ◌⊎◌,
}
use ant_hoc_net.ShortestPath.{
  Edge, Labels, QueueItem, Search, dist_of, edges_of, item_less, pop_min, search_from, settle,
}
use ant_hoc_net.ShortestPath.Improve.{IsQuiet}
use ant_hoc_net.ShortestPath.Measure.{effort-pop, length-le-effort}
use ant_hoc_net.ShortestPath.Progress.{Keeps, Part, Part-mono, edges-Keeps}
use ant_hoc_net.ShortestPath.Sound.{IsSound}
use ant_hoc_net.ShortestPath.Walk.{IsGraph}
use ant_hoc_net.ShortestPath.Weight.{IsMeasure}

-- one entry taken out of a queue
pub data Removes {Q : Type 0} : Q → List Q → List Q → Type 0 where
  first : {x : Q} {xs : List Q} → Removes x xs (x ∷ xs)
  later : {x y : Q} {xs ys : List Q} → Removes y ys xs → Removes y (x ∷ ys) (x ∷ xs)

Removes-Among :
    {Q : Type 0} {top : Q} {rest pq : List Q} (q : Q)
    → Removes top rest pq
    → Among q pq
    → (q ≡ top) ⊎ Among q rest
Removes-Among q first (inl e) = inl e
Removes-Among q first (inr i) = inr i
Removes-Among q (later r) (inl e) = inr (inl e)
Removes-Among q (later r) (inr i) = elim (Removes-Among q r i) [
  | inl e ↦ inl e
  | inr k ↦ inr (inr k)
]

length-Removes :
    {Q : Type 0} {top : Q} {rest pq : List Q} → Removes top rest pq → length pq ≡ length rest + 1
length-Removes first = omega arith
length-Removes (later r) = omega (arith, length-Removes r)

module _ {W : Type 0} ⦃d : Double W⦄ where
  -- what `pop_min` takes out of a queue
  record Popped (pq : List (QueueItem W)) : Type 0 where
    top : QueueItem W
    rest : List (QueueItem W)
    pops : pop_min pq ≡ some (top, rest)
    removes : Removes top rest pq

  pop_min-cases : (pq : List (QueueItem W)) → ((pq ≡ []) × (pop_min pq ≡ none)) ⊎ Popped pq
  unfolding pop_min
  pop_min-cases [] = inl (refl, refl)
  pop_min-cases (x ∷ xs) = elim (pop_min-cases xs) [
    | inl (empty, e) ↦ inr (record {
      top = x;
      rest = [];
      pops = rw e refl;
      removes = subst (λ (ys : List (QueueItem W)). Removes x [] (x ∷ ys)) (sym empty) first;
    })
    | inr p ↦ elim (Bool-cases (item_less p.top x)) [
      | inl less ↦ inr (record {
        top = p.top;
        rest = x ∷ p.rest;
        pops = rw (p.pops, less) refl;
        removes = later p.removes;
      })
      | inr not_less ↦
          inr (record { top = x; rest = xs; pops = rw (p.pops, not_less) refl; removes = first })
    ]
  ]

module _ {W : Type 0} ⦃d : Double W⦄ (m : IsMeasure W) (adj : List (List (Edge W))) (s : ℕ)
    (graph : IsGraph m adj) where
  open d use {lt}

  -- all edges of every node
  abbrev pub Everywhere : ℕ → Edge W → Type 0
  Everywhere x e = Among e (edges_of adj x)

  -- the labels at the end
  pub record Settled (l : Labels W) : Type 0 where
    pub sound : IsSound m adj s l
    pub quiet : (u : ℕ) (e : Edge W) → Among e (edges_of adj u) → IsQuiet s l u e

  abbrev Others : ℕ → ℕ → Edge W → Type 0
  Others u x e = ((x == u) ≡ false) × Among e (edges_of adj x)

  settle-Keeps :
      (bound : ℕ) (l : Labels W) (pq rest : List (QueueItem W)) (top : W) (u : ℕ)
      → Removes (top, u) rest pq
      → Keeps m adj s (suc bound) (l, pq) Everywhere
      → Keeps m adj s bound (settle adj s (top, u) (l, rest)) Everywhere
  unfolding settle
  settle-Keeps bound l pq rest top u r k = elim (Bool-cases (lt (dist_of l u) top)) [
    | inl stale ↦
        let here : (x : ℕ) → Part m adj s (l, rest) x (Everywhere x) = λ x. elim (k.parts x) [
          | inr quiet ↦ inr quiet
          | inl queued ↦ elim (Removes-Among (dist_of l x, x) r queued) [
            | inr still ↦ inl still
            | inl popped ↦
                let same : dist_of l u ≡ top =
                  ap (dist_of l) (sym (ap (λ (q : QueueItem W). q.1) popped))
                  ∙ ap (λ (q : QueueItem W). q.0) popped in
                absurd (omega (arith, m.lt_rank (dist_of l u) top stale, ap m.rank same))
          ]
        ] in
        rw stale (record {
          sound = k.sound;
          parts = here;
          paid = effort-pop m (length adj) l pq rest bound (length-Removes r) k.paid;
        })
    | inr fresh ↦
        let start' : Keeps m adj s bound (l, rest) (Others u) = record {
          sound = k.sound;
          parts = λ x. elim (k.parts x) [
            | inr quiet ↦ inr (λ e c. quiet e c.1)
            | inl queued ↦ elim (Removes-Among (dist_of l x, x) r queued) [
              | inr still ↦ inl still
              | inl popped ↦ inr (λ e c.
                  absurd
                    (false≢true (sym c.0 ∙ (==_iff x u).1 (ap (λ (q : QueueItem W). q.1) popped))))
            ]
          ];
          paid = effort-pop m (length adj) l pq rest bound (length-Removes r) k.paid;
        } in
        let end =
          edges-Keeps m adj s graph bound (edges_of adj u) (l, rest) u (Others u) (λ e i. i)
            (λ x e c. c.1) start' in
        rw fresh (record {
          sound = end.sound;
          parts = λ x.
              Part-mono m adj s _ x _ (Everywhere x)
                (λ e i. elim (Bool-cases (x == u)) [
                  | inl hit ↦
                      let at : x ≡ u = (==_iff x u).0 hit in
                      inr (at, subst (λ (y : ℕ). Among e (edges_of adj y)) at i)
                  | inr miss ↦ inl (miss, i)
                ])
                (end.parts x);
          paid = end.paid;
        })
  ]

  nothing_queued :
      (bound : ℕ) (l : Labels W) (pq : List (QueueItem W))
      → pq ≡ []
      → Keeps m adj s bound (l, pq) Everywhere
      → Settled l
  nothing_queued bound l pq empty k = record {
    sound = k.sound;
    quiet = λ u e i. elim (k.parts u) [
      | inl queued ↦
          absurd (subst (λ (q : List (QueueItem W)). Among (dist_of l u, u) q) empty queued)
      | inr quiet ↦ quiet e i
    ];
  }

  -- With enough fuel the loop ends, and its labels are sound and settled.
  pub search_from-Settled :
      (fuel : ℕ) (o : Search W)
      → Keeps m adj s fuel o Everywhere
      → (l : Labels W) × (search_from (suc fuel) adj s o ≡ some l) × Settled l
  unfolding search_from
  search_from-Settled zero (l, pq) k = elim (pop_min-cases pq) [
    | inl (empty, e) ↦ (l, rw (e, search_from) refl, nothing_queued zero l pq empty k)
    | inr p ↦
        absurd
          (omega (arith, length-Removes p.removes, length-le-effort m (length adj) l pq, k.paid))
  ]
  search_from-Settled (suc fuel) (l, pq) k = elim (pop_min-cases pq) [
    | inl (empty, e) ↦ (l, rw (e, search_from) refl, nothing_queued (suc fuel) l pq empty k)
    | inr p ↦
        let rest =
          search_from-Settled fuel (settle adj s p.top (l, p.rest))
            (settle-Keeps fuel l pq p.rest p.top.0 p.top.1 p.removes k) in
        (rest.0, rw (p.pops, search_from) rest.1, rest.2)
  ]
