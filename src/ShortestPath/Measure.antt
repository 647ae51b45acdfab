-- ===== src/ShortestPath/Measure.antt =====
-- What each improvement of a label uses up: a number that bounds the rounds of the search.
use ant_hoc_net.Double.{Double}
use ant_hoc_net.History.{bound}
use ant_hoc_net.Prelude.{
  Bool-cases, List, Option, [], arith, get_or, inl, inr, length, none, set, some, suc, true, zero,
  ℕ, ◌*◌, ◌+◌, ◌<◌, ◌∷◌, ◌≡◌, ◌≤◌,
}
use ant_hoc_net.ShortestPath.{Labels, QueueItem, Search, dist_of, hop_of, is_better}
use ant_hoc_net.ShortestPath.Improve.{improve}
use ant_hoc_net.ShortestPath.Weight.{IsMeasure}

module _ {W : Type 0} ⦃d : Double W⦄ (m : IsMeasure W) (n : ℕ) where
  open d use {infinity}

  abbrev hop_rank : Option ℕ → ℕ
  hop_rank none = n + 1
  hop_rank (some h) = h

  -- distance first, then the first hop
  unfoldable pub key : W → Option ℕ → ℕ
  key c hop = m.rank c * (n + 2) + hop_rank hop

  unfoldable pub total : List W → List (Option ℕ) → ℕ
  total [] hops = 0
  total (c ∷ cs) [] = 0
  total (c ∷ cs) (hop ∷ hops) = key c hop + total cs hops

  -- an improvement is paid for, and leaves one entry in the queue
  unfoldable pub effort : Search W → ℕ
  effort (l, pq) = 2 * total l.dist l.first_hop + length pq

  total-set :
      (cs : List W) (hops : List (Option ℕ)) (v : ℕ) (c : W) (hop : Option ℕ)
      → v < length cs
      → v < length hops
      → total (set cs v c) (set hops v hop) + key (get_or cs v infinity) (get_or hops v none)
        ≡ total cs hops + key c hop
  unfolding total
  total-set [] hops v c hop h k = absurd (omega arith)
  total-set (x ∷ cs) [] v c hop h k = absurd (omega arith)
  total-set (x ∷ cs) (y ∷ hops) zero c hop h k = omega arith
  total-set (x ∷ cs) (y ∷ hops) (suc v) c hop h k =
      omega (arith, total-set cs hops v c hop (omega arith) (omega arith))

  times_mono : (a b : ℕ) → a < b → a * (n + 2) + (n + 2) ≤ b * (n + 2)
  times_mono a b h = grind arith

  key-lt :
      (cand : W) (hop : ℕ) (have : W) (k : Option ℕ)
      → hop < n
      → is_better cand hop have k ≡ true
      → key cand (some hop) < key have k
  unfolding is_better key
  key-lt cand hop have k h better = elim (Bool-cases (d.lt cand have)) [
    | inl less ↦ omega (arith, times_mono (m.rank cand) (m.rank have) (m.lt_rank cand have less))
    | inr not_less ↦
        let same : m.rank cand ≡ m.rank have = m.eq_rank cand have (ground arith) in
        rw same (ground arith)
  ]

  pub effort-improve :
      (l : Labels W) (pq : List (QueueItem W)) (v : ℕ) (c : W) (hop : ℕ)
      → v < length l.dist
      → v < length l.first_hop
      → hop < n
      → is_better c hop (dist_of l v) (hop_of l v) ≡ true
      → effort (improve l v c hop, (c, v) ∷ pq) ≤ effort (l, pq)
  unfolding effort
  effort-improve l pq v c hop h k small better = omega (
    arith,
    total-set l.dist l.first_hop v c (some hop) h k,
    key-lt c hop (dist_of l v) (hop_of l v) small better,
  )

  pub effort-pop :
      (l : Labels W) (pq rest : List (QueueItem W)) (bound : ℕ)
      → length pq ≡ length rest + 1
      → effort (l, pq) ≤ suc bound
      → effort (l, rest) ≤ bound
  unfolding effort
  effort-pop l pq rest bound e h = omega (arith, e, h)

  pub length-le-effort : (l : Labels W) (pq : List (QueueItem W)) → length pq ≤ effort (l, pq)
  unfolding effort
  length-le-effort l pq = omega arith
