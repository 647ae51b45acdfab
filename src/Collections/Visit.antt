-- ===== src/Collections/Visit.antt =====
-- A loop over an ordered set that changes, at each element, what is kept for that element alone:
-- each one is visited exactly once.
use ant_hoc_net.Collections.Set
use ant_hoc_net.Collections.Key.{nat_key, pair_key}
use ant_hoc_net.Prelude.{
  ==_iff, All, List, [], arith, false, foldl, if◌then◌else◌, ltb, refl, true, ℕ, ◌==◌, ◌∙◌, ◌∷◌,
  ◌≡◌,
}

pub not-contains_above :
    (n : ℕ) (s : Set.OrderedSet ℕ) → All (λ i. ltb n i ≡ true) s → Set.contains n s ≡ false
unfolding Set.contains
not-contains_above n [] h = refl
not-contains_above n (i ∷ s) h = ground (arith, not-contains_above n s h.1)

pub contains→All {κ} :
    (P : ℕ → Type κ) (s : Set.OrderedSet ℕ) → ((n : ℕ) → Set.contains n s ≡ true → P n) → All P s
unfolding Set.contains
contains→All P [] h = tt
contains→All P (n ∷ s) h =
    (h n (ground (arith, ==_iff n n)), contains→All P s (λ m e. h m (ground arith)))

module _ {ℓ} {S : Type ℓ} (step : S → ℕ → S) (Inv : S → Type 0) (Fits : ℕ → Type 0)
    (keeps : (s : S) (n : ℕ) → Inv s → Fits n → Inv (step s n)) where
  pub visit-Inv : (s : S) (ns : Set.OrderedSet ℕ) → Inv s → All Fits ns → Inv (foldl step s ns)
  visit-Inv s [] i f = i
  visit-Inv s (n ∷ ns) i f = visit-Inv (step s n) ns (keeps s n i f.0) f.1

  module _ {κ} {A : Type κ} (get : S → ℕ → A) (after : ℕ → A → A)
      (point : (s : S) (n m : ℕ)
        → Inv s
        → Fits n
        → get (step s n) m ≡ (if n == m then after m (get s m) else get s m)) where
    pub visit_once :
        (s : S) (ns : Set.OrderedSet ℕ) (m : ℕ)
        → Inv s
        → All Fits ns
        → Set.IsAscending ns
        → get (foldl step s ns) m ≡ (if Set.contains m ns then after m (get s m) else get s m)
    unfolding Set.contains
    visit_once s [] m i f a = refl
    visit_once s (n ∷ ns) m i f a =
        rw (visit_once (step s n) ns m (keeps s n i f.0) f.1 a.1, point s n m i f.0)
          (ground (arith, not-contains_above n ns a.0, ==_iff n m))

-- what no round changes, the loop does not change
pub foldl_frame {ℓ κ ι} :
    {S : Type ℓ} {A : Type κ} {B : Type ι} (get : S → A) (step : S → B → S)
    → ((s : S) (b : B) → get (step s b) ≡ get s)
    → (s : S) (bs : List B) → get (foldl step s bs) ≡ get s
foldl_frame get step frame s [] = refl
foldl_frame get step frame s (b ∷ bs) = foldl_frame get step frame (step s b) bs ∙ frame s b

-- an invariant of every round
pub foldl_inv {ℓ ι} :
    {S : Type ℓ} {B : Type ι} (P : S → Type 0) (step : S → B → S)
    → ((s : S) (b : B) → P s → P (step s b))
    → (s : S) (bs : List B) → P s
    → P (foldl step s bs)
foldl_inv P step keeps s [] h = h
foldl_inv P step keeps s (b ∷ bs) h = foldl_inv P step keeps (step s b) bs (keeps s b h)
