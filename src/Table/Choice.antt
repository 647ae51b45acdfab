-- ===== src/Table/Choice.antt =====
-- The next hop that `nextNeighborNode` chooses: a neighbour, not the excluded one while another
-- route exists, with one draw for each success, and in accord with `nextHopDistribution`.
use ant_hoc_net.Collections.Set
use ant_hoc_net.Address.{NodeAddress, invalid_address}
use ant_hoc_net.Collections.Key.{nat_key, pair_key}
use ant_hoc_net.Collections.Visit.{contains→All}
use ant_hoc_net.Double.{Double, gt, nought}
use ant_hoc_net.Generation.Flood.{used}
use ant_hoc_net.Prelude.{
  All, Bool, Bool-cases, List, Option, [], arith, false, false≢true, if_Holds, if◌then◌else◌, inl,
  inr, none, not, refl, some, sym, true, ◌&&◌, ◌==◌, ◌∙◌, ◌∷◌, ◌≡◌, ◌⊎◌,
}
use ant_hoc_net.Table.{
  PheromoneTable, Rng, Term, advance, choose, is_known, next_neighbor_node, sample, selection_terms,
  shares, term_of, uniform,
}

module _ {W : Type 0} ⦃d : Double W⦄ where
  open d use {eq, le, sub, div}

  abbrev NeighborHolds : (NodeAddress → Type 0) → Term W → Type 0
  NeighborHolds P t = P t.neighbor

  -- the loop returns the neighbour of a term, or what it began with
  sample_Holds :
      (P : NodeAddress → Type 0) (ts : List (Term W)) (sum r : W) (chosen : NodeAddress)
      → All (NeighborHolds P) ts
      → P chosen
      → P (sample ts sum r chosen)
  unfolding sample
  sample_Holds P [] sum r chosen h k = k
  sample_Holds P (t ∷ ts) sum r chosen h k =
      if_Holds P (le (sub r (div t.weight sum)) nought) h.0
        (sample_Holds P ts sum (sub r (div t.weight sum)) t.neighbor h.1 h.0)

  -- with a term at hand it does not return what it began with
  sample-cons_Holds :
      (P : NodeAddress → Type 0) (t : Term W) (ts : List (Term W)) (sum r : W)
      (chosen : NodeAddress)
      → All (NeighborHolds P) (t ∷ ts)
      → P (sample (t ∷ ts) sum r chosen)
  unfolding sample
  sample-cons_Holds P t ts sum r chosen h =
      if_Holds P (le (sub r (div t.weight sum)) nought) h.0
        (sample_Holds P ts sum (sub r (div t.weight sum)) t.neighbor h.1 h.0)

  module _ (term : NodeAddress → Term W × Bool) (exclude : NodeAddress)
      (P : NodeAddress → Type 0) where
    selection_terms_Holds :
        (sum : W) (ns : List NodeAddress)
        → ((n : NodeAddress) → (term n).0.neighbor ≡ n)
        → All (λ n. (n == exclude) ≡ false → P n) ns
        → All (NeighborHolds P) (selection_terms term exclude sum ns).0
    unfolding selection_terms
    selection_terms_Holds sum [] same h = tt
    selection_terms_Holds sum (n ∷ ns) same h = elim (Bool-cases (n == exclude)) [
      | inl e ↦ rw e (selection_terms_Holds sum ns same h.1)
      | inr e ↦ rw e (
        rw (same n) (h.0 e),
        selection_terms_Holds (if (term n).1 then d.add sum (term n).0.weight else sum) ns same h.1,
      )
    ]

  selection_terms-nil :
      (term : NodeAddress → Term W × Bool) (exclude : NodeAddress) (sum : W) (ns : List NodeAddress)
      → (selection_terms term exclude sum ns).0 ≡ []
      → (selection_terms term exclude sum ns).1 ≡ sum
  unfolding selection_terms
  selection_terms-nil term exclude sum [] h = refl
  selection_terms-nil term exclude sum (n ∷ ns) h = elim (Bool-cases (n == exclude)) [
    | inl e ↦ rw e (selection_terms-nil term exclude sum ns (rw e at h))
    | inr e ↦ cc (rw e at h)
  ]

  module _ (t : PheromoneTable W) (dest : NodeAddress) (is_proactive : Bool) (beta : W) where
    -- the candidates and their normaliser when `exclude` is left out
    abbrev pub candidates : NodeAddress → List (Term W) × W
    candidates exclude =
        selection_terms (term_of t dest is_proactive beta) exclude nought t.neighbors

    -- some candidate other than `exclude` has weight
    abbrev pub has_route : NodeAddress → Bool
    has_route exclude = is_known t dest is_proactive && not (eq (candidates exclude).1 nought)

    term_of-neighbor : (n : NodeAddress) → (term_of t dest is_proactive beta n).0.neighbor ≡ n
    unfolding term_of
    term_of-neighbor n = refl

    -- a current neighbour other than the excluded one
    abbrev pub IsOffered : NodeAddress → NodeAddress → Type 0
    IsOffered exclude n = (Set.contains n t.neighbors ≡ true) × ((n == exclude) ≡ false)

    candidates_Holds :
        (exclude : NodeAddress) → All (NeighborHolds (IsOffered exclude)) (candidates exclude).0
    candidates_Holds exclude =
        selection_terms_Holds (term_of t dest is_proactive beta) exclude (IsOffered exclude) nought
          t.neighbors term_of-neighbor
          (contains→All (λ n. (n == exclude) ≡ false → IsOffered exclude n) t.neighbors
            (λ n i e. (i, e)))

    -- with weight there is a candidate
    sample-IsOffered :
        (exclude : NodeAddress) (r : W)
        → eq nought nought ≡ true
        → eq (candidates exclude).1 nought ≡ false
        → IsOffered exclude (sample (candidates exclude).0 (candidates exclude).1 r invalid_address)
    sample-IsOffered exclude r zero_eq h = go (candidates exclude).0 refl
      where
        go :
            (ts : List (Term W))
            → (candidates exclude).0 ≡ ts
            → IsOffered exclude
                (sample (candidates exclude).0 (candidates exclude).1 r invalid_address)
        go [] e = absurd (
            false≢true (
              sym h
              ∙ rw
                  (selection_terms-nil (term_of t dest is_proactive beta) exclude nought t.neighbors
                    e)
                  zero_eq))
        go (x ∷ xs) e = rw e (
            sample-cons_Holds (IsOffered exclude) x xs _ r invalid_address
              (rw e at (candidates_Holds exclude)))

    module _ (rng : Rng W) where
      choose-some :
          (exclude : NodeAddress) (fallback : NodeAddress × Rng W)
          → eq nought nought ≡ true
          → has_route exclude ≡ true
          → IsOffered exclude (choose t dest is_proactive beta rng exclude fallback).0
            × ((choose t dest is_proactive beta rng exclude fallback).1 ≡ advance rng)
      unfolding choose
      choose-some exclude fallback zero_eq h =
          let known : is_known t dest is_proactive ≡ true = ground arith in
          let weight : eq (candidates exclude).1 nought ≡ false = ground arith in
          rw (known, weight) (sample-IsOffered exclude (uniform rng) zero_eq weight, refl)

      choose-none :
          (exclude : NodeAddress) (fallback : NodeAddress × Rng W)
          → has_route exclude ≡ false
          → choose t dest is_proactive beta rng exclude fallback ≡ (
              if is_known t dest is_proactive && not (exclude == invalid_address)
              then fallback
              else (invalid_address, rng))
      unfolding choose
      choose-none exclude fallback h = ground arith

      -- If 0.0 == 0.0 and some candidate other than `exclude` has weight, the next hop is a current
      -- neighbour other than `exclude`, and exactly one random number is drawn.
      pub next_neighbor_node-IsOffered :
          (exclude : NodeAddress)
          → eq nought nought ≡ true
          → has_route exclude ≡ true
          → IsOffered exclude (next_neighbor_node t dest is_proactive beta rng exclude).0
            × ((next_neighbor_node t dest is_proactive beta rng exclude).1 ≡ advance rng)
      unfolding next_neighbor_node
      next_neighbor_node-IsOffered exclude zero_eq =
          choose-some exclude
            (choose t dest is_proactive beta rng invalid_address (invalid_address, rng)) zero_eq

      -- If 0.0 == 0.0 and the excluded address is a real one: with no candidate of weight besides
      -- it, but one once it is allowed again (the A1 fallback), the next hop is a current neighbour,
      -- and exactly one random number is drawn.
      pub next_neighbor_node_falls_back :
          (exclude : NodeAddress)
          → eq nought nought ≡ true
          → has_route exclude ≡ false
          → (exclude == invalid_address) ≡ false
          → has_route invalid_address ≡ true
          → IsOffered invalid_address (next_neighbor_node t dest is_proactive beta rng exclude).0
            × ((next_neighbor_node t dest is_proactive beta rng exclude).1 ≡ advance rng)
      unfolding next_neighbor_node
      next_neighbor_node_falls_back exclude zero_eq no_way real way =
          let last : NodeAddress × Rng W = (invalid_address, rng) in
          rw
            (
              choose-none exclude (choose t dest is_proactive beta rng invalid_address last) no_way,
              real,
            )
            (ground (arith, choose-some invalid_address last zero_eq way))

  -- the walk along a published distribution: the first entry at which `r` is used up
  unfoldable pub draw_from : List (NodeAddress × W) → W → Option NodeAddress
  draw_from [] r = none
  draw_from ((n, p) ∷ ps) r =
      let rest = draw_from ps (sub r p) in if le (sub r p) nought then some n else rest

  -- a share is positive, or is a zero
  abbrev pub IsShare : W → Type 0
  IsShare p = (gt p nought ≡ true) ⊎ ((r : W) → sub r p ≡ r)

  -- For a draw above 0 and shares that are positive or zero, the sampling loop of
  -- `nextNeighborNode` picks the neighbour at which the walk along the entries that
  -- `nextHopDistribution` publishes uses the draw up.
  pub sample-eq-draw_from :
      (ts : List (Term W)) (sum r : W) (chosen n : NodeAddress)
      → All (λ t. IsShare (div t.weight sum)) ts
      → le r nought ≡ false
      → draw_from (shares sum ts) r ≡ some n
      → sample ts sum r chosen ≡ n
  unfolding sample draw_from shares
  sample-eq-draw_from [] sum r chosen n h above e = cc
  sample-eq-draw_from (t ∷ ts) sum r chosen n (share, h) above e =
      elim (Bool-cases (gt (div t.weight sum) nought)) [
        | inl positive ↦ elim (Bool-cases (le (sub r (div t.weight sum)) nought)) [
          | inl used ↦ ground arith
          | inr left ↦ rw left (
              sample-eq-draw_from ts sum (sub r (div t.weight sum)) t.neighbor n h left
                (ground arith))
        ]
        | inr zero_share ↦ elim share [
          | inl positive ↦ absurd (false≢true (sym zero_share ∙ positive))
          | inr keeps ↦
              rw (keeps r, above)
                (sample-eq-draw_from ts sum r t.neighbor n h above (rw zero_share at e))
        ]
      ]
