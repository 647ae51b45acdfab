-- ===== src/Adaptive/Arrays.antt =====
-- What holds of all elements of an array holds of those that `swap_out` and `pop_back` leave.
use ant_hoc_net.Adaptive.{pop_back, swap_out}
use ant_hoc_net.Prelude.{
  All, Bool-cases, List, [], ap, arith, get_elem?, inl, inr, length, length-set, none, refl, set,
  some, subst, suc, zero, ℕ, ◌+◌, ◌<◌, ◌==◌, ◌∷◌, ◌≡◌, ◌⊎◌,
}

module _ {A : Type 0} where
  pub length-pop_back :
      (xs : List A)
      → ((xs ≡ []) × (pop_back xs ≡ none))
        ⊎ ((init : List A) × (last : A) × (pop_back xs ≡ some (init, last))
            × (length xs ≡ suc (length init)))
  unfolding pop_back
  length-pop_back [] = inl (refl, refl)
  length-pop_back (x ∷ xs) = elim (length-pop_back xs) [
    | inl (at, e) ↦ inr ([], x, rw (e, pop_back) refl, ap (λ (ys : List A). suc (length ys)) at)
    | inr (init, last, e, size) ↦ inr (x ∷ init, last, rw (e, pop_back) refl, ap suc size)
  ]

  pub length-swap_out : (x : A) (xs : List A) (i : ℕ) → length (swap_out (x ∷ xs) i) ≡ length xs
  unfolding swap_out
  length-swap_out x xs i = elim (length-pop_back (x ∷ xs)) [
    | inl (at, e) ↦ absurd cc
    | inr (init, last, e, size) ↦ rw (e, swap_out) (ground (arith, length-set init i last))
  ]

  module _ (P : A → Type 0) where
    pub All-set : (xs : List A) (i : ℕ) (v : A) → All P xs → P v → All P (set xs i v)
    All-set [] i v all p = tt
    All-set (x ∷ xs) zero v all p = (p, all.1)
    All-set (x ∷ xs) (suc i) v all p = (all.0, All-set xs i v all.1 p)

    pub All-get_elem? : (xs : List A) (i : ℕ) (v : A) → All P xs → get_elem? xs i ≡ some v → P v
    All-get_elem? [] i v all e = absurd cc
    All-get_elem? (x ∷ xs) zero v all e = let same : x ≡ v = cc in subst P same all.0
    All-get_elem? (x ∷ xs) (suc i) v all e = All-get_elem? xs i v all.1 e

    pub All-pop_back :
        (xs init : List A) (last : A)
        → pop_back xs ≡ some (init, last)
        → All P xs
        → All P init × P last
    unfolding pop_back
    All-pop_back [] init last e all = absurd cc
    All-pop_back (x ∷ xs) init last e all = elim (length-pop_back xs) [
      | inl (at, k) ↦
          let h = rw (k, pop_back) at e in
          let empty : [] ≡ init = cc in
          let same : x ≡ last = cc in (subst (All P) empty tt, subst P same all.0)
      | inr (ys, y, k, size) ↦
          let h = rw (k, pop_back) at e in
          let more : x ∷ ys ≡ init = cc in
          let same : y ≡ last = cc in
          let rest = All-pop_back xs ys y k all.1 in
          (subst (All P) more (all.0, rest.0), subst P same rest.1)
    ]

    pub All-swap_out : (xs : List A) (i : ℕ) → All P xs → All P (swap_out xs i)
    unfolding swap_out
    All-swap_out xs i all = elim (length-pop_back xs) [
      | inl (at, e) ↦ rw (e, swap_out) tt
      | inr (init, last, e, size) ↦
          let parts = All-pop_back xs init last e all in
          elim (Bool-cases (i + 1 == length xs)) [
            | inl at_end ↦ rw (e, swap_out, at_end) parts.0
            | inr inside ↦ rw (e, swap_out, inside) (All-set init i last parts.0 parts.1)
          ]
    ]

  pub get_elem?-in_range :
      (xs : List A) (i : ℕ) → i < length xs → (v : A) × (get_elem? xs i ≡ some v)
  get_elem?-in_range [] i h = absurd (omega arith)
  get_elem?-in_range (x ∷ xs) zero h = (x, refl)
  get_elem?-in_range (x ∷ xs) (suc i) h = get_elem?-in_range xs i (omega arith)
