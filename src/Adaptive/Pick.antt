-- ===== src/Adaptive/Pick.antt =====
-- `PickProportional` of ns3/baselines/adaptive/model/adaptive-tables.h: a draw in proportion to
-- weights.
use ant_hoc_net.Double.{Double, gt, nought}
use ant_hoc_net.Prelude.{
  All, Bool-cases, List, Option, Option-cases, [], ap, arith, false, false≢true, get_elem?,
  if◌then◌else◌, inl, inr, none, refl, some, subst, suc, sym, true, ℕ, ◌+◌, ◌∙◌, ◌∷◌, ◌≡◌, ◌⊎◌,
}

module _ {W : Type 0} ⦃d : Double W⦄ where
  open d use {add, mul, lt, le}

  abbrev pub sum_from : W → List W → W
  sum_from acc [] = acc
  sum_from acc (w ∷ ws) = sum_from (add acc w) ws

  -- the first index whose running sum is above the target
  unfoldable pub first_above : W → W → List W → Option ℕ
  first_above target acc [] = none
  first_above target acc (w ∷ ws) =
      if lt target (add acc w)
      then some 0
      else elim (first_above target (add acc w) ws) [ none ↦ none | some i ↦ some (i + 1) ]

  -- the last index of a weight above 0.0
  unfoldable pub last_positive : List W → Option ℕ
  last_positive [] = none
  last_positive (w ∷ ws) = elim (last_positive ws) [
    | some i ↦ some (i + 1)
    | none ↦ if gt w nought then some 0 else none
  ]

  -- `PickProportional`; `none` is -1
  unfoldable pub pick_proportional : List W → W → Option ℕ
  unfolding first_above last_positive
  pick_proportional weights u =
      let sum = sum_from nought weights in
      if le sum nought then none else elim (first_above (mul u sum) nought weights) [
        | some i ↦ some i
        | none ↦ last_positive weights
      ]

-- What the draw relies on of the numbers, all facts of IEEE 754 arithmetic on numbers that are not
-- NaN: the order is total, and adding a number that is not above 0.0 does not make a sum larger.
pub record IsAdditive (W : Type 0) ⦃d : Double W⦄ : Type 0 where
  pub lt_le : (a b c : W) → d.lt a b ≡ true → d.le b c ≡ true → d.lt a c ≡ true
  pub le_trans : (a b c : W) → d.le a b ≡ true → d.le b c ≡ true → d.le a c ≡ true
  pub le_nought : d.le nought nought ≡ true
  pub add_le :
      (a w : W)
      → d.le a nought ≡ true
      → d.lt nought w ≡ false
      → d.le nought w ≡ true
      → d.le (d.add a w) nought ≡ true
  pub add_same :
      (a w : W)
      → d.le nought a ≡ true
      → d.lt nought w ≡ false
      → d.le nought w ≡ true
      → d.le (d.add a w) a ≡ true
  pub add_natural :
      (a w : W) → d.le nought a ≡ true → d.le nought w ≡ true → d.le nought (d.add a w) ≡ true

module _ {W : Type 0} ⦃d : Double W⦄ (m : IsAdditive W) where
  open d use {add, mul, lt, le}

  -- the weight at an index is above 0.0
  abbrev pub IsPositiveAt : List W → ℕ → Type 0
  IsPositiveAt ws i = (w : W) × (get_elem? ws i ≡ some w) × (lt nought w ≡ true)

  first_above-IsPositiveAt :
      (target acc : W) (ws : List W) (i : ℕ)
      → All (λ w. le nought w ≡ true) ws
      → le nought acc ≡ true
      → lt target acc ≡ false
      → first_above target acc ws ≡ some i
      → IsPositiveAt ws i
  unfolding first_above
  first_above-IsPositiveAt target acc [] i all ha below h = absurd cc
  first_above-IsPositiveAt target acc (w ∷ ws) i all ha below h =
      elim (Bool-cases (lt target (add acc w))) [
        | inl above ↦ elim (Bool-cases (lt nought w)) [
          | inl positive ↦
              let at : 0 ≡ i = cc (rw above at h) in
              subst (λ (j : ℕ). IsPositiveAt (w ∷ ws) j) at (w, refl, positive)
          | inr zero' ↦ absurd (
              false≢true (
                sym below ∙ m.lt_le target (add acc w) acc above (m.add_same acc w ha zero' all.0)))
        ]
        | inr not_above ↦ elim (Option-cases (first_above target (add acc w) ws)) [
          | inl ends ↦ absurd (cc (rw (not_above, ends) at h))
          | inr (j, e) ↦
              let at : j + 1 ≡ i = cc (rw (not_above, e) at h) in
              let later =
                first_above-IsPositiveAt target (add acc w) ws j all.1
                  (m.add_natural acc w ha all.0) not_above e in
              let next : suc j ≡ i = omega (arith, at) in
              subst (λ (n : ℕ). IsPositiveAt (w ∷ ws) n) next later
        ]
      ]

  last_positive-cases :
      (ws : List W)
      → ((last_positive ws ≡ none) × All (λ w. lt nought w ≡ false) ws)
        ⊎ ((i : ℕ) × (last_positive ws ≡ some i) × IsPositiveAt ws i)
  unfolding last_positive
  last_positive-cases [] = inl (refl, tt)
  last_positive-cases (w ∷ ws) = elim (last_positive-cases ws) [
    | inr (i, e, at) ↦
        inr (
          suc i,
          rw (e, last_positive) (let same : i + 1 ≡ suc i = omega arith in ap some same),
          at,
        )
    | inl (e, none_left) ↦ elim (Bool-cases (lt nought w)) [
      | inl positive ↦ inr (0, rw (e, last_positive, positive) refl, (w, refl, positive))
      | inr zero' ↦ inl (rw (e, last_positive, zero') refl, (zero', none_left))
    ]
  ]

  -- weights of which none is above 0.0 have no sum above it
  sum_from-nought :
      (acc : W) (ws : List W)
      → All (λ w. le nought w ≡ true) ws
      → All (λ w. lt nought w ≡ false) ws
      → le acc nought ≡ true
      → le (sum_from acc ws) nought ≡ true
  sum_from-nought acc [] all zeros h = h
  sum_from-nought acc (w ∷ ws) all zeros h =
      sum_from-nought (add acc w) ws all.1 zeros.1 (m.add_le acc w h zeros.0 all.0)

  -- If no weight is below 0.0 and the scaled draw is not either, then `PickProportional` gives -1 exactly
  -- where the sum is not above 0.0, and otherwise the index of a weight above 0.0.
  pub pick_proportional_lem :
      (weights : List W) (u : W)
      → All (λ w. le nought w ≡ true) weights
      → lt (mul u (sum_from nought weights)) nought ≡ false
      → ((le (sum_from nought weights) nought ≡ true) × (pick_proportional weights u ≡ none))
        ⊎ ((i : ℕ) × (pick_proportional weights u ≡ some i) × IsPositiveAt weights i)
  unfolding pick_proportional
  pick_proportional_lem weights u all draw =
      elim (Bool-cases (le (sum_from nought weights) nought)) [
        | inl empty ↦ inl (empty, rw empty refl)
        | inr full ↦
            elim (Option-cases (first_above (mul u (sum_from nought weights)) nought weights)) [
              | inr (i, e) ↦ inr (
                i,
                rw (full, e) refl,
                first_above-IsPositiveAt (mul u (sum_from nought weights)) nought weights i all
                    m.le_nought draw e,
              )
              | inl rounded ↦ elim (last_positive-cases weights) [
                | inl (e, zeros) ↦
                    absurd
                      (false≢true (sym full ∙ sum_from-nought nought weights all zeros m.le_nought))
                | inr (i, e, at) ↦ inr (i, rw (full, rounded, e) refl, at)
              ]
            ]
      ]
