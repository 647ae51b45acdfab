-- ===== src/Collections/Every.antt =====
-- A property of all the values of a map, and the presence of a key.
use ant_hoc_net.Collections.Map
use ant_hoc_net.Collections.Key.{Key, nat_key, pair_key}
use ant_hoc_net.Collections.Map.{Map}
use ant_hoc_net.Prelude.{
  All, Bool, Bool-cases, Option-cases, [], arith, false, inl, inr, none, not, some, subst, true,
  ◌&&◌, ◌||◌, ◌∷◌, ◌≡◌,
}

abbrev pub Every : {K V : Type 0} → (V → Type 0) → Map.Map K V → Type 0
Every P m = All (λ e. P e.1) m

module _ {K V : Type 0} ⦃key : Key K⦄ where
  abbrev pub present : K → Map.Map K V → Bool
  present k m = elim (Map.lookup k m) [ none ↦ false | some _ ↦ true ]

  pub present-insert :
      (k j : K) (v : V) (m : Map.Map K V)
      → present j (Map.insert k v m) ≡ (key.beq k j || present j m)
  present-insert k j v m = ground (arith, Map.lookup-insert k j v m)

  pub present-erase :
      (k j : K) (m : Map.Map K V) → present j (Map.erase k m) ≡ (not (key.beq k j) && present j m)
  present-erase k j m = ground (arith, Map.lookup-erase k j m)

module _ {K V : Type 0} ⦃key : Key K⦄ (P : V → Type 0) where
  Every-replace : (k : K) (v : V) (m : Map.Map K V) → Every P m → P v → Every P (Map.replace k v m)
  unfolding Map.replace
  Every-replace k v [] h p = tt
  Every-replace k v ((j, w) ∷ m) h p = elim (Bool-cases (key.beq j k)) [
    | inl e ↦ rw e (p, h.1)
    | inr e ↦ rw e (h.0, Every-replace k v m h.1 p)
  ]

  Every-insert_new :
      (k : K) (v : V) (m : Map.Map K V) → Every P m → P v → Every P (Map.insert_new k v m)
  unfolding Map.insert_new
  Every-insert_new k v [] h p = (p, tt)
  Every-insert_new k v ((j, w) ∷ m) h p = elim (Bool-cases (key.less k j)) [
    | inl e ↦ rw e (p, h)
    | inr e ↦ rw e (h.0, Every-insert_new k v m h.1 p)
  ]

  pub Every-insert :
      (k : K) (v : V) (m : Map.Map K V) → Every P m → P v → Every P (Map.insert k v m)
  unfolding Map.insert
  Every-insert k v m h p = elim (Option-cases (Map.lookup k m)) [
    | inl e ↦ rw (e, Map.insert) (Every-insert_new k v m h p)
    | inr (w, e) ↦ rw (e, Map.insert) (Every-replace k v m h p)
  ]

  pub Every-erase : (k : K) (m : Map.Map K V) → Every P m → Every P (Map.erase k m)
  unfolding Map.erase
  Every-erase k [] h = tt
  Every-erase k ((j, w) ∷ m) h = elim (Bool-cases (key.beq j k)) [
    | inl e ↦ rw e (Every-erase k m h.1)
    | inr e ↦ rw e (h.0, Every-erase k m h.1)
  ]

  pub Every-lookup : (k : K) (v : V) (m : Map.Map K V) → Every P m → Map.lookup k m ≡ some v → P v
  unfolding Map.lookup
  Every-lookup k v [] h at = absurd cc
  Every-lookup k v ((j, w) ∷ m) h at = elim (Bool-cases (key.beq j k)) [
    | inl e ↦ let same : w ≡ v = ground (arith, at, e) in subst P same h.0
    | inr e ↦ Every-lookup k v m h.1 (ground (arith, at, e))
  ]
