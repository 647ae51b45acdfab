-- ===== src/History/Fifo.antt =====
-- The loop that both trackers bound their memory with, over any container with an erase.
use ant_hoc_net.Collections.Set
use ant_hoc_net.Collections.Key.{nat_key, pair_beq_iff, pair_key}
use ant_hoc_net.History.{Generation, bound, evict}
use ant_hoc_net.Prelude.{
  ==_iff, Bool, List, [], arith, false, if_Holds, inl, inr, length, length-append, ltb, ltb-false,
  not, refl, true, ℕ, ◌&&◌, ◌++◌, ◌+◌, ◌<◌, ◌==◌, ◌||◌, ◌∷◌, ◌≡◌, ◌≤◌, ◌⊎◌,
}

-- every pair stands in the list once
abbrev pub Distinct : List Generation → Type 0
Distinct [] = Unit
Distinct (k ∷ ks) = (Set.contains k ks ≡ false) × Distinct ks

pub contains-append :
    (k j : Generation) (ks : List Generation)
    → Set.contains k (ks ++ (j ∷ [])) ≡ (Set.contains k ks || pair_key.beq j k)
unfolding Set.contains
contains-append k j [] = ground arith
contains-append k j (i ∷ ks) = ground (arith, contains-append k j ks)

pub Distinct-append :
    (ks : List Generation) (j : Generation)
    → Distinct ks
    → Set.contains j ks ≡ false
    → Distinct (ks ++ (j ∷ []))
unfolding Set.contains
Distinct-append [] j h new = (refl, tt)
Distinct-append (k ∷ ks) j h new = (
  rw (contains-append k j ks) (ground (arith, h.0, pair_beq_iff k j, pair_beq_iff j k)),
  Distinct-append ks j h.1 (ground arith),
)

-- `key` is in the list, with at most n entries behind it
abbrev pub Within : ℕ → Generation → List Generation → Type 0
Within n key [] = ⊥
Within n key (k ∷ ks) = ((k ≡ key) × (length ks ≤ n)) ⊎ Within n key ks

pub Within-append :
    (n : ℕ) (key j : Generation) (ks : List Generation)
    → Within n key ks
    → Within (n + 1) key (ks ++ (j ∷ []))
Within-append n key j [] h = absurd h
Within-append n key j (k ∷ ks) (inl (e, le)) = inl (e, omega (arith, length-append {0} ks (j ∷ [])))
Within-append n key j (k ∷ ks) (inr h) = inr (Within-append n key j ks h)

pub Within-mono :
    (n m : ℕ) (key : Generation) (ks : List Generation) → n ≤ m → Within n key ks → Within m key ks
Within-mono n m key [] le h = absurd h
Within-mono n m key (k ∷ ks) le (inl (e, b)) = inl (e, omega arith)
Within-mono n m key (k ∷ ks) le (inr h) = inr (Within-mono n m key ks le h)

pub Within→contains :
    (n : ℕ) (key : Generation) (ks : List Generation) → Within n key ks → Set.contains key ks ≡ true
unfolding Set.contains
Within→contains n key [] h = absurd h
Within→contains n key (k ∷ ks) (inl (e, le)) = rw ((pair_beq_iff k key).1 e)
Within→contains n key (k ∷ ks) (inr h) = ground (arith, Within→contains n key ks h)

pub Within-last : (key : Generation) (ks : List Generation) → Within 0 key (ks ++ (key ∷ []))
Within-last key [] = inl (refl, omega arith)
Within-last key (k ∷ ks) = inr (Within-last key ks)

module _ {ℓ} {C : Type ℓ} (remove : Generation → C → C) where
  pub length-evict :
      (max : ℕ) (order : List Generation) (kept : C) → length (evict remove max order kept).0 ≤ max
  unfolding evict
  length-evict max [] kept = omega arith
  length-evict max (k ∷ ks) kept = ground (arith, length-evict max ks (remove k kept))

  Within-evict :
      (n max : ℕ) (key : Generation) (order : List Generation) (kept : C)
      → n < max
      → Within n key order
      → Within n key (evict remove max order kept).0
  unfolding evict
  Within-evict n max key [] kept le h = absurd h
  Within-evict n max key (k ∷ ks) kept le (inl (e, b)) =
      rw (ltb-false max (length (k ∷ ks)) (omega arith)) (inl (e, b))
  Within-evict n max key (k ∷ ks) kept le (inr h) =
      if_Holds (λ (r : List Generation × C). Within n key r.0) (ltb max (length (k ∷ ks)))
        (Within-evict n max key ks (remove k kept) le h) (inr h)

  pub Within-bound :
      (n max : ℕ) (key : Generation) (order : List Generation) (kept : C)
      → (max ≡ 0) ⊎ (n < max)
      → Within n key order
      → Within n key (bound remove max order kept).0
  unfolding bound
  Within-bound n max key order kept (inl e) h = rw ((==_iff max 0).1 e) h
  Within-bound n max key order kept (inr le) h =
      if_Holds (λ (r : List Generation × C). Within n key r.0) (max == 0) h
        (Within-evict n max key order kept le h)

  module _ (size : C → ℕ) (has : Generation → C → Bool)
      (has-remove : (x k : Generation) (c : C)
        → has k (remove x c) ≡ (not (pair_key.beq x k) && has k c))
      (size-remove : (x : Generation) (c : C)
        → has x c ≡ true
        → size (remove x c) + 1 ≤ size c) where
    -- the container holds the listed pairs, no more entries than there are, and each pair is listed
    -- once
    pub record Agrees (order : List Generation) (kept : C) : Type 0 where
      pub same : (k : Generation) → has k kept ≡ Set.contains k order
      pub distinct : Distinct order
      pub small : size kept ≤ length order

    evict-Agrees :
        (max : ℕ) (order : List Generation) (kept : C)
        → Agrees order kept
        → let (order', kept') = evict remove max order kept in Agrees order' kept'
    unfolding evict
    evict-Agrees max [] kept a = a
    evict-Agrees max (k ∷ ks) kept a =
        if_Holds (λ (r : List Generation × C). Agrees r.0 r.1) (ltb max (length (k ∷ ks)))
          (evict-Agrees max ks (remove k kept) (record {
            same = λ j.
                unfold Set.contains in
                ground (arith, has-remove k j kept, a.same j, a.distinct.0, pair_beq_iff k j);
            distinct = a.distinct.1;
            small =
                unfold Set.contains in
                ground (arith, size-remove k kept, a.same k, a.small, pair_beq_iff k k);
          }))
          a

    pub bound-Agrees :
        (max : ℕ) (order : List Generation) (kept : C)
        → Agrees order kept
        → let (order', kept') = bound remove max order kept in Agrees order' kept'
    unfolding bound
    bound-Agrees max order kept a =
        if_Holds (λ (r : List Generation × C). Agrees r.0 r.1) (max == 0) a
          (evict-Agrees max order kept a)
