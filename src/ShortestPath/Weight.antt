-- ===== src/ShortestPath/Weight.antt =====
-- What the search relies on of the numbers that measure paths, and the order of the labels.
use ant_hoc_net.Double.{Double, nought}
use ant_hoc_net.Prelude.{Option, arith, false, none, not, some, true, ℕ, ◌&&◌, ◌<◌, ◌≡◌}
use ant_hoc_net.ShortestPath.{is_better}

-- Facts of IEEE 754 arithmetic on numbers that are not negative, infinity included: the order is
-- total, adding a weight does not make a sum smaller and keeps the order, and the numbers are ranked
-- (by their bit patterns). No law says that a sum is exact.
pub record IsMeasure (W : Type 0) ⦃d : Double W⦄ : Type 0 where
  pub rank : W → ℕ
  pub lt_rank : (a b : W) → d.lt a b ≡ true → rank a < rank b
  pub eq_rank : (a b : W) → d.eq a b ≡ true → rank a ≡ rank b
  pub le_nought : d.le nought nought ≡ true
  pub le_infinity : (a : W) → d.le nought a ≡ true → d.le a d.infinity ≡ true
  pub le_trans : (a b c : W) → d.le a b ≡ true → d.le b c ≡ true → d.le a c ≡ true
  pub lt_le : (a b : W) → d.le nought a ≡ true → d.le nought b ≡ true → d.lt a b ≡ not (d.le b a)
  pub eq_le : (a b : W) → d.eq a b ≡ (d.le a b && d.le b a)
  pub add_le : (a w : W) → d.le nought a ≡ true → d.le nought w ≡ true → d.le a (d.add a w) ≡ true
  pub add_mono :
      (a b w : W)
      → d.le nought a ≡ true
      → d.le nought w ≡ true
      → d.le a b ≡ true
      → d.le (d.add a w) (d.add b w) ≡ true

module _ {W : Type 0} ⦃d : Double W⦄ (m : IsMeasure W) where
  open d use {add, le, lt, infinity}

  -- a number that is not negative
  abbrev pub IsNatural : W → Type 0
  IsNatural a = le nought a ≡ true

  pub add-IsNatural : (a w : W) → IsNatural a → IsNatural w → IsNatural (add a w)
  add-IsNatural a w ha hw = m.le_trans nought a (add a w) ha (m.add_le a w ha hw)

  pub infinity-IsNatural : IsNatural infinity
  infinity-IsNatural = m.le_infinity nought m.le_nought

  pub le_refl : (a : W) → IsNatural a → le a a ≡ true
  le_refl a h = ground (arith, m.lt_le a a h h, m.lt_rank a a)

  le_total : (a b : W) → IsNatural a → IsNatural b → le b a ≡ false → le a b ≡ true
  le_total a b ha hb h =
      ground (arith, m.lt_le a b ha hb, m.lt_le b a hb ha, m.lt_rank a b, m.lt_rank b a)

  -- the labels of a node only get better
  abbrev pub IsBelow : W → Option ℕ → W → Option ℕ → Type 0
  IsBelow a h b k =
      (cand : W) (hop : ℕ)
      → IsNatural cand
      → is_better cand hop a h ≡ true
      → is_better cand hop b k ≡ true

  pub is_better-IsBelow :
      (a b : W) (hop : ℕ) (k : Option ℕ)
      → IsNatural a
      → IsNatural b
      → is_better a hop b k ≡ true
      → IsBelow a (some hop) b k
  unfolding is_better
  is_better-IsBelow a b hop k ha hb better cand new hc h = ground (
    arith,
    m.lt_le cand a hc ha,
    m.lt_le cand b hc hb,
    m.lt_le a b ha hb,
    m.eq_le cand a,
    m.eq_le cand b,
    m.eq_le a b,
    m.le_trans cand a b,
    m.le_trans b a cand,
    m.le_trans b cand a,
    m.le_trans a b cand,
    le_total a b ha hb,
    le_total cand a hc ha,
    le_total cand b hc hb,
  )

  -- a candidate that is not better is no nearer
  pub le_of_not_better :
      (cand have : W) (hop : ℕ) (k : Option ℕ)
      → IsNatural cand
      → IsNatural have
      → is_better cand hop have k ≡ false
      → le have cand ≡ true
  unfolding is_better
  le_of_not_better cand have hop k hc hh h = ground (arith, m.lt_le cand have hc hh)

  -- a node that has no first hop takes any candidate
  pub is_better-infinity :
      (cand : W) (hop : ℕ) → IsNatural cand → is_better cand hop infinity none ≡ true
  unfolding is_better
  is_better-infinity cand hop hc = ground (
    arith,
    m.lt_le cand infinity hc infinity-IsNatural,
    m.eq_le cand infinity,
    m.le_infinity cand hc,
  )
