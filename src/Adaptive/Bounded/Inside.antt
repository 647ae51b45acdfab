-- ===== src/Adaptive/Bounded/Inside.antt =====
-- The cells of a column of `BoundedPheromoneTable`, under the steps that its calls are made of.
use ant_hoc_net.Collections.Map
use ant_hoc_net.Collections.Set
use ant_hoc_net.Adaptive.Bounded.{
  BoundedPheromoneTable, Cell, new_column, refresh, refresh_column, std_max, std_min,
}
use ant_hoc_net.Collections.Every.{
  Every, Every-erase, Every-insert, present, present-erase, present-insert,
}
use ant_hoc_net.Collections.Key.{Key, nat_key, pair_key}
use ant_hoc_net.Collections.Map.{Map}
use ant_hoc_net.Double.{Double, IsOrdered, nought}
use ant_hoc_net.Prelude.{Bool-cases, [], arith, inl, inr, refl, true, ◌||◌, ◌∙◌, ◌∷◌, ◌≡◌}

pub record IsTuned (W : Type 0) ⦃d : Double W⦄ (rate initial floor ceiling : W) : Type 0 where
  pub ordered : IsOrdered W
  pub floor_nonneg : d.le nought floor ≡ true
  pub floor_initial : d.le floor initial ≡ true
  pub initial_ceiling : d.le initial ceiling ≡ true
  -- no value up to the ceiling grows by decaying
  pub decays :
      (v dt : W)
      → d.le nought v ≡ true
      → d.le v ceiling ≡ true
      → d.lt nought dt ≡ true
      → d.le (d.mul v (d.exp (d.mul (d.neg rate) dt))) v ≡ true
  -- and none shrinks when zero or more is added
  pub grows :
      (v delta : W)
      → d.le nought v ≡ true
      → d.le v ceiling ≡ true
      → d.le nought delta ≡ true
      → d.le v (d.add v delta) ≡ true

module _ {W : Type 0} ⦃d : Double W⦄ where
  open d use {lt, le, exp, mul, neg}

  abbrev pub IsInside : W → W → W → Type 0
  IsInside floor ceiling v = (le floor v ≡ true) × (le v ceiling ≡ true)

  lt-le : (o : IsOrdered W) (a b : W) → lt a b ≡ true → le a b ≡ true
  lt-le o a b h =
      let numbers = o.lt_nan a b h in
      ground (arith, o.lt_iff a b numbers.0 numbers.1, o.le_total b a numbers.1 numbers.0)

  std_max-IsInside :
      (o : IsOrdered W) (f c x : W) → le f c ≡ true → le x c ≡ true → IsInside f c (std_max f x)
  std_max-IsInside o f c x fc xc = elim (Bool-cases (lt f x)) [
    | inl e ↦ rw e (lt-le o f x e, xc)
    | inr e ↦ rw e (o.le_refl f (o.le_nan f c fc).0, fc)
  ]

  pub std_min-IsInside :
      (o : IsOrdered W) (f c x : W) → le f c ≡ true → le f x ≡ true → IsInside f c (std_min c x)
  std_min-IsInside o f c x fc fx = elim (Bool-cases (lt x c)) [
    | inl e ↦ rw e (fx, lt-le o x c e)
    | inr e ↦ rw e (fc, o.le_refl c (o.le_nan f c fc).1)
  ]

module _ {K W : Type 0} ⦃key : Key K⦄ ⦃d : Double W⦄ where
  open d use {lt, le, exp, mul, neg, sub}
  open key use {beq, beq_iff}

  abbrev pub IsConfigured : BoundedPheromoneTable K W → Type 0
  IsConfigured t = IsTuned W t.rate t.initial t.floor t.ceiling

  pub refresh-IsInside :
      (t : BoundedPheromoneTable K W) (c : Cell W) (now : W)
      → IsConfigured t
      → IsInside t.floor t.ceiling c.value
      → IsInside t.floor t.ceiling (refresh t c now).value
  unfolding refresh
  refresh-IsInside t c now u h = elim (Bool-cases (lt nought (sub now c.last))) [
    | inl e ↦
        let o = u.ordered in
        let left = mul c.value (exp (mul (neg t.rate) (sub now c.last))) in
        let nonneg = o.le_trans nought t.floor c.value u.floor_nonneg h.0 in
        let smaller = u.decays c.value (sub now c.last) nonneg h.1 e in
        rw e (
          std_max-IsInside o t.floor t.ceiling left (o.le_trans t.floor c.value t.ceiling h.0 h.1)
            (o.le_trans left c.value t.ceiling smaller h.1))
    | inr e ↦ rw e h
  ]

  -- every cell of a column between the floor and the ceiling, and one for each neighbour
  abbrev pub IsColumn : W → W → Set.OrderedSet K → Map.Map K (Cell W) → Type 0
  IsColumn floor ceiling ns col =
      Every (λ c. IsInside floor ceiling c.value) col
      × ((nb : K) → present nb col ≡ Set.contains nb ns)

  pub insert-IsColumn :
      (f e : W) (ns : Set.OrderedSet K) (nb : K) (c : Cell W) (col : Map.Map K (Cell W))
      → IsColumn f e ns col
      → IsInside f e c.value
      → IsColumn f e (Set.insert nb ns) (Map.insert nb c col)
  insert-IsColumn f e ns nb c col h inside = (
    Every-insert (λ x. IsInside f e x.value) nb c col h.0 inside,
    λ j. ground (arith, present-insert nb j c col, Set.contains-insert nb j ns, h.1 j),
  )

  pub erase-IsColumn :
      (f e : W) (ns : Set.OrderedSet K) (nb : K) (col : Map.Map K (Cell W))
      → IsColumn f e ns col
      → IsColumn f e (Set.erase nb ns) (Map.erase nb col)
  erase-IsColumn f e ns nb col h = (
    Every-erase (λ x. IsInside f e x.value) nb col h.0,
    λ j. ground (arith, present-erase nb j col, Set.contains-erase nb j ns, h.1 j),
  )

  Every-new_column :
      (f e : W) (c : Cell W) (ns : Set.OrderedSet K) (col : Map.Map K (Cell W))
      → IsInside f e c.value
      → Every (λ x. IsInside f e x.value) col
      → Every (λ x. IsInside f e x.value) (new_column c ns col)
  unfolding new_column
  Every-new_column f e c [] col inside h = h
  Every-new_column f e c (nb ∷ ns) col inside h =
      Every-new_column f e c ns (Map.insert nb c col) inside
        (Every-insert (λ x. IsInside f e x.value) nb c col h inside)

  present-new_column :
      (j : K) (c : Cell W) (ns : Set.OrderedSet K) (col : Map.Map K (Cell W))
      → present j (new_column c ns col) ≡ (Set.contains j ns || present j col)
  unfolding new_column Set.contains
  present-new_column j c [] col = refl
  present-new_column j c (nb ∷ ns) col =
      ground (arith, present-new_column j c ns (Map.insert nb c col), present-insert nb j c col)

  pub new_column-IsColumn :
      (f e : W) (ns : Set.OrderedSet K) (c : Cell W)
      → IsInside f e c.value
      → IsColumn f e ns (new_column c ns [])
  unfolding Map.lookup
  new_column-IsColumn f e ns c inside =
      (Every-new_column f e c ns [] inside tt, λ j. ground (arith, present-new_column j c ns []))

  Every-refresh_column :
      (t : BoundedPheromoneTable K W) (now : W) (col : Map.Map K (Cell W))
      → IsConfigured t
      → Every (λ x. IsInside t.floor t.ceiling x.value) col
      → Every (λ x. IsInside t.floor t.ceiling x.value) (refresh_column t now col)
  unfolding refresh_column
  Every-refresh_column t now [] u h = tt
  Every-refresh_column t now ((nb, c) ∷ col) u h =
      (refresh-IsInside t c now u h.0, Every-refresh_column t now col u h.1)

  present-refresh_column :
      (j : K) (t : BoundedPheromoneTable K W) (now : W) (col : Map.Map K (Cell W))
      → present j (refresh_column t now col) ≡ present j col
  unfolding refresh_column Map.lookup
  present-refresh_column j t now [] = refl
  present-refresh_column j t now ((nb, c) ∷ col) =
      ground (arith, present-refresh_column j t now col)

  pub refresh_column-IsColumn :
      (t : BoundedPheromoneTable K W) (now : W) (ns : Set.OrderedSet K) (col : Map.Map K (Cell W))
      → IsConfigured t
      → IsColumn t.floor t.ceiling ns col
      → IsColumn t.floor t.ceiling ns (refresh_column t now col)
  refresh_column-IsColumn t now ns col u h =
      (Every-refresh_column t now col u h.0, λ j. present-refresh_column j t now col ∙ h.1 j)
