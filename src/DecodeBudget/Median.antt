-- ===== src/DecodeBudget/Median.antt =====
-- The search for the radius at which the decode probability of
-- ns3/baselines/oracle/model/oracle-decode-budget.cc crosses 1/2.
use ant_hoc_net.DecodeBudget.{
  NakagamiProfile, Special, TwoRayBudget, bisect, half, median_radius, nakagami_link_probability,
  nakagami_median_radius, start_width, widen,
}
use ant_hoc_net.Double.{Double, ge, nought}
use ant_hoc_net.Prelude.{
  Bool-cases, Option, arith, false, inl, inr, none, refl, some, suc, true, zero, ℕ, ◌&&◌, ◌^◌, ◌≡◌,
  ◌⊎◌,
}

module _ {W : Type 0} ⦃d : Double W⦄ where
  -- a width, doubled so many times
  unfoldable pub doubled : ℕ → W → W
  doubled zero hi = hi
  doubled (suc n) hi = doubled n (d.mul hi (d.literal 2 0))

module _ {W : Type 0} ⦃d : Double W⦄ (probability : W → W) where
  -- what the search answers: no radius, or one at which a frame is decoded at least every other time
  abbrev pub IsMedian : W → Type 0
  IsMedian r = (r ≡ nought) ⊎ (ge (probability r) half ≡ true)

  IsEnd : Option (W × W) → Type 0
  IsEnd none = ⊥
  IsEnd (some (lo, hi)) = IsMedian lo

  -- the search for a bracket ends, at the latest where the limit is passed
  widen-IsEnd :
      (n : ℕ) (lo hi : W)
      → d.lt (doubled n hi) (d.literal (10 ^ 7) 0) ≡ false
      → IsMedian lo
      → IsEnd (widen (suc n) probability lo hi)
  unfolding widen doubled IsEnd
  widen-IsEnd zero lo hi h m =
      elim (Bool-cases (ge (probability hi) half && d.lt hi (d.literal (10 ^ 7) 0))) [
        | inl c ↦ absurd (ground (arith, c, h))
        | inr c ↦ rw c m
      ]
  widen-IsEnd (suc n) lo hi h m =
      elim (Bool-cases (ge (probability hi) half && d.lt hi (d.literal (10 ^ 7) 0))) [
        | inl c ↦
            let twice = d.mul hi (d.literal 2 0) in
            let likely : ge (probability hi) half ≡ true = ground (arith, c) in
            rw c (widen-IsEnd n hi twice h (inr likely))
        | inr c ↦ rw c m
      ]

  bisect-IsMedian : (n : ℕ) (lo hi : W) → IsMedian lo → IsMedian (bisect n probability lo hi)
  unfolding bisect
  bisect-IsMedian zero lo hi m = m
  bisect-IsMedian (suc n) lo hi m =
      let mid = d.mul half (d.add lo hi) in
      elim (Bool-cases (ge (probability mid) half)) [
        | inl c ↦ rw c (bisect-IsMedian n mid hi (inr c))
        | inr c ↦ rw c (bisect-IsMedian n lo mid m)
      ]

  search-IsMedian :
      (bracket : Option (W × W))
      → IsEnd bracket
      → (r : W) × (elim bracket [
        | none ↦ none
        | some (lo, hi) ↦ some (bisect 100 probability lo hi)
      ]
          ≡ some r)
        × IsMedian r
  unfolding IsEnd
  search-IsMedian none h = absurd h
  search-IsMedian (some (lo, hi)) h =
      (bisect 100 probability lo hi, refl, bisect-IsMedian 100 lo hi h)

  median_radius-IsMedian :
      (n : ℕ) (width : W)
      → d.lt (doubled n width) (d.literal (10 ^ 7) 0) ≡ false
      → (r : W) × (median_radius (suc n) probability width ≡ some r) × IsMedian r
  unfolding median_radius
  median_radius-IsMedian n width h = elim (Bool-cases (d.lt (probability nought) half)) [
    | inl c ↦ rw (median_radius, c) (nought, refl, inl refl)
    | inr c ↦
        rw (median_radius, c)
          (search-IsMedian (widen (suc n) probability nought width)
            (widen-IsEnd n nought width h (inl refl)))
  ]

-- If the first width of the bracket, doubled k times, is not below 10 ^ 7, then k + 1 rounds of
-- doubling are enough: the search for the median radius ends, with no radius (0.0), or with one at which
-- the probability of a link is 1/2 or more.
pub nakagami_median_radius-IsMedian :
    {W : Type 0} ⦃d : Double W⦄ ⦃special : Special W⦄ (b : TwoRayBudget W) (n : NakagamiProfile W)
    (threshold : W) (k : ℕ)
    → d.lt (doubled k (start_width b)) (d.literal (10 ^ 7) 0) ≡ false
    → (r : W) × (nakagami_median_radius (suc k) b n threshold ≡ some r)
      × IsMedian (nakagami_link_probability b n threshold) r
unfolding nakagami_median_radius
nakagami_median_radius-IsMedian b n threshold k h =
    median_radius-IsMedian (nakagami_link_probability b n threshold) k (start_width b) h
