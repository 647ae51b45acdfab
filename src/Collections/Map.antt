-- ===== src/Collections/Map.antt =====
-- `std::map`: an association list in ascending order of its keys.
use ant_hoc_net.Collections.Key.{Key}
use ant_hoc_net.Prelude.{
  List, Option, Option-cases, [], arith, if◌then◌else◌, inl, inr, length, none, refl, some, true,
  ◌+◌, ◌∷◌, ◌≡◌, ◌≤◌,
}

abbrev pub Map {ℓ κ} : Type ℓ → Type κ → Type (ℓ ⊔ κ)
Map K V = List (K × V)

pub beq_refl {ℓ} : {K : Type ℓ} ⦃key : Key K⦄ (k : K) → key.beq k k ≡ true
beq_refl ⦃key⦄ k = (key.beq_iff k k).1 refl

module _ {ℓ κ} {K : Type ℓ} {V : Type κ} ⦃key : Key K⦄ where
  open key use {beq, less, beq_iff}

  -- find
  unfoldable pub lookup : K → Map K V → Option V
  lookup k [] = none
  lookup k ((j, v) ∷ m) = if beq j k then some v else lookup k m

  unfoldable pub replace : K → V → Map K V → Map K V
  replace k v [] = []
  replace k v ((j, w) ∷ m) = if beq j k then (k, v) ∷ m else (j, w) ∷ replace k v m

  unfoldable pub insert_new : K → V → Map K V → Map K V
  insert_new k v [] = (k, v) ∷ []
  insert_new k v ((j, w) ∷ m) = if less k j then (k, v) ∷ (j, w) ∷ m else (j, w) ∷ insert_new k v m

  -- operator[] =, and emplace of a missing key
  unfoldable pub insert : K → V → Map K V → Map K V
  unfolding replace insert_new lookup
  insert k v m = elim (lookup k m) [ none ↦ insert_new k v m | some w ↦ replace k v m ]

  unfoldable pub erase : K → Map K V → Map K V
  erase k [] = []
  erase k ((j, v) ∷ m) = let rest = erase k m in if beq j k then rest else (j, v) ∷ rest

  unfoldable pub keys : Map K V → List K
  keys [] = []
  keys ((j, v) ∷ m) = j ∷ keys m

  lookup-replace :
      (k j : K) (v w : V) (m : Map K V)
      → lookup k m ≡ some w
      → lookup j (replace k v m) ≡ (if beq k j then some v else lookup j m)
  unfolding lookup replace
  lookup-replace k j v w [] h = cc
  lookup-replace k j v w ((i, u) ∷ m) h =
      ground (arith, beq_iff k j, beq_iff i k, beq_iff i j, lookup-replace k j v w m)

  lookup-insert_new :
      (k j : K) (v : V) (m : Map K V)
      → lookup k m ≡ none
      → lookup j (insert_new k v m) ≡ (if beq k j then some v else lookup j m)
  unfolding lookup insert_new
  lookup-insert_new k j v [] h = refl
  lookup-insert_new k j v ((i, u) ∷ m) h =
      ground (arith, beq_iff k j, beq_iff i k, beq_iff i j, lookup-insert_new k j v m)

  pub lookup-insert :
      (k j : K) (v : V) (m : Map K V)
      → lookup j (insert k v m) ≡ (if beq k j then some v else lookup j m)
  unfolding insert
  lookup-insert k j v m = elim (Option-cases (lookup k m)) [
    | inl e ↦ rw (e, insert) (lookup-insert_new k j v m e)
    | inr (w, e) ↦ rw (e, insert) (lookup-replace k j v w m e)
  ]

  pub lookup-erase :
      (k j : K) (m : Map K V) → lookup j (erase k m) ≡ (if beq k j then none else lookup j m)
  unfolding lookup erase
  lookup-erase k j [] = ground arith
  lookup-erase k j ((i, w) ∷ m) =
      ground (arith, beq_iff k j, beq_iff i k, beq_iff i j, lookup-erase k j m)

  length-replace : (k : K) (v : V) (m : Map K V) → length (replace k v m) ≡ length m
  unfolding replace
  length-replace k v [] = refl
  length-replace k v ((i, w) ∷ m) = ground (arith, length-replace k v m)

  length-insert_new : (k : K) (v : V) (m : Map K V) → length (insert_new k v m) ≡ length m + 1
  unfolding insert_new
  length-insert_new k v [] = omega arith
  length-insert_new k v ((i, w) ∷ m) = ground (arith, length-insert_new k v m)

  pub length-insert : (k : K) (v : V) (m : Map K V) → length (insert k v m) ≤ length m + 1
  unfolding insert
  length-insert k v m = ground (arith, length-replace k v m, length-insert_new k v m)

  pub length-insert_present :
      (k : K) (v w : V) (m : Map K V) → lookup k m ≡ some w → length (insert k v m) ≡ length m
  unfolding insert
  length-insert_present k v w m h = rw (h, insert) (length-replace k v m)

  pub length-erase : (k : K) (m : Map K V) → length (erase k m) ≤ length m
  unfolding erase
  length-erase k [] = ground arith
  length-erase k ((i, w) ∷ m) = ground (arith, length-erase k m)

  pub length-erase_present :
      (k : K) (v : V) (m : Map K V) → lookup k m ≡ some v → length (erase k m) + 1 ≤ length m
  unfolding lookup erase
  length-erase_present k v [] h = cc
  length-erase_present k v ((i, w) ∷ m) h =
      ground (arith, length-erase k m, length-erase_present k v m)

  pub lookup-insert_self : (k : K) (v : V) (m : Map K V) → lookup k (insert k v m) ≡ some v
  lookup-insert_self k v m = rw (lookup-insert, beq_refl)

  pub lookup-erase_self : (k : K) (m : Map K V) → lookup k (erase k m) ≡ none
  lookup-erase_self k m = rw (lookup-erase, beq_refl)

pub ruleset map_laws = (lookup-insert, lookup-erase)
