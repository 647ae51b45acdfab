-- ===== src/Collections/Set.antt =====
-- `std::set`: a list in ascending order.
use ant_hoc_net.Collections.Key.{Key}
use ant_hoc_net.Prelude.{
  All, All-mono, Bool, Bool-cases, List, [], arith, false, if◌then◌else◌, inl, inr, length, not,
  true, ◌&&◌, ◌+◌, ◌||◌, ◌∷◌, ◌≡◌, ◌≤◌,
}

abbrev pub OrderedSet {ℓ} : Type ℓ → Type ℓ
OrderedSet K = List K

module _ {ℓ} {K : Type ℓ} ⦃key : Key K⦄ where
  open key use {beq, less, beq_iff, less_irrefl, less_trans, less_total}

  unfoldable pub contains : K → OrderedSet K → Bool
  contains k [] = false
  contains k (j ∷ s) = beq j k || contains k s

  insert_new : K → OrderedSet K → OrderedSet K
  insert_new k [] = k ∷ []
  insert_new k (j ∷ s) = if less k j then k ∷ j ∷ s else j ∷ insert_new k s

  -- a present key stays as it is
  unfoldable pub insert : K → OrderedSet K → OrderedSet K
  unfolding insert_new contains
  insert k s = if contains k s then s else insert_new k s

  unfoldable pub erase : K → OrderedSet K → OrderedSet K
  erase k [] = []
  erase k (j ∷ s) = let rest = erase k s in if beq j k then rest else j ∷ rest

  -- every element is below all that follow it
  abbrev pub IsAscending : OrderedSet K → Type ℓ
  IsAscending [] = Unit
  IsAscending (j ∷ s) = All (λ i. less j i ≡ true) s × IsAscending s

  contains-insert_new :
      (k j : K) (s : OrderedSet K) → contains j (insert_new k s) ≡ (beq k j || contains j s)
  unfolding contains insert_new
  contains-insert_new k j [] = ground arith
  contains-insert_new k j (i ∷ s) = ground (arith, contains-insert_new k j s)

  length-insert_new : (k : K) (s : OrderedSet K) → length (insert_new k s) ≤ length s + 1
  unfolding insert_new
  length-insert_new k [] = omega arith
  length-insert_new k (i ∷ s) = ground (arith, length-insert_new k s)

  pub contains-insert :
      (k j : K) (s : OrderedSet K) → contains j (insert k s) ≡ (beq k j || contains j s)
  unfolding insert
  contains-insert k j s = ground (arith, contains-insert_new k j s, beq_iff k j)

  pub contains-erase :
      (k j : K) (s : OrderedSet K) → contains j (erase k s) ≡ (not (beq k j) && contains j s)
  unfolding contains erase
  contains-erase k j [] = ground arith
  contains-erase k j (i ∷ s) =
      ground (arith, contains-erase k j s, beq_iff k j, beq_iff i k, beq_iff i j)

  pub insert-contained : (k : K) (s : OrderedSet K) → contains k s ≡ true → insert k s ≡ s
  unfolding insert
  insert-contained k s h = ground arith

  -- the induction hypothesis of the next lemma, for one bound below all of the set
  All-insert_new :
      (P : K → Type 0) (k : K) (s : OrderedSet K) → P k → All P s → All P (insert_new k s)
  unfolding insert_new
  All-insert_new P k [] hk h = (hk, tt)
  All-insert_new P k (j ∷ s) hk h = elim (Bool-cases (less k j)) [
    | inl e ↦ rw e (hk, h)
    | inr e ↦ rw e (h.0, All-insert_new P k s hk h.1)
  ]

  All-above :
      (k j : K) (s : OrderedSet K)
      → less k j ≡ true
      → All (λ i. less j i ≡ true) s
      → All (λ i. less k i ≡ true) s
  All-above k j s h =
      All-mono (λ i. less j i ≡ true) (λ i. less k i ≡ true) s (λ i. less_trans k j i h)

  insert_new-IsAscending :
      (k : K) (s : OrderedSet K)
      → IsAscending s
      → contains k s ≡ false
      → IsAscending (insert_new k s)
  unfolding insert_new contains
  insert_new-IsAscending k [] h new = (tt, tt)
  insert_new-IsAscending k (j ∷ s) h new = elim (Bool-cases (less k j)) [
    | inl e ↦ rw e ((e, All-above k j s e h.0), h)
    | inr e ↦ rw e (
      All-insert_new (λ i. less j i ≡ true) k s
          (ground (arith, less_total k j, beq_iff k j, beq_iff j k)) h.0,
      insert_new-IsAscending k s h.1 (ground arith),
    )
  ]

  pub insert-IsAscending : (k : K) (s : OrderedSet K) → IsAscending s → IsAscending (insert k s)
  unfolding insert
  insert-IsAscending k s h = elim (Bool-cases (contains k s)) [
    | inl e ↦ rw e h
    | inr e ↦ rw e (insert_new-IsAscending k s h e)
  ]

  All-erase : (P : K → Type 0) (k : K) (s : OrderedSet K) → All P s → All P (erase k s)
  unfolding erase
  All-erase P k [] h = tt
  All-erase P k (j ∷ s) h = elim (Bool-cases (beq j k)) [
    | inl e ↦ rw e (All-erase P k s h.1)
    | inr e ↦ rw e (h.0, All-erase P k s h.1)
  ]

  pub erase-IsAscending : (k : K) (s : OrderedSet K) → IsAscending s → IsAscending (erase k s)
  unfolding erase
  erase-IsAscending k [] h = tt
  erase-IsAscending k (j ∷ s) h = elim (Bool-cases (beq j k)) [
    | inl e ↦ rw e (erase-IsAscending k s h.1)
    | inr e ↦ rw e (All-erase (λ i. less j i ≡ true) k s h.0, erase-IsAscending k s h.1)
  ]

  pub length-insert : (k : K) (s : OrderedSet K) → length (insert k s) ≤ length s + 1
  unfolding insert
  length-insert k s = ground (arith, length-insert_new k s)

  pub length-erase : (k : K) (s : OrderedSet K) → length (erase k s) ≤ length s
  unfolding erase
  length-erase k [] = omega arith
  length-erase k (j ∷ s) = ground (arith, length-erase k s)

  pub length-erase_contained :
      (k : K) (s : OrderedSet K) → contains k s ≡ true → length (erase k s) + 1 ≤ length s
  unfolding contains erase
  length-erase_contained k [] h = cc
  length-erase_contained k (j ∷ s) h = ground (arith, length-erase k s, length-erase_contained k s)

pub ruleset set_laws = (contains-insert, contains-erase)
