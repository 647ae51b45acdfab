-- ===== src/Generation/Validity.antt =====
-- The invariant of `GenerationTracker`: its memory is bounded, per generation and over all.
use ant_hoc_net.Collections.Map
use ant_hoc_net.Collections.Set
use ant_hoc_net.Address.{NodeAddress}
use ant_hoc_net.Collections.Key.{nat_key, pair_beq_iff, pair_key}
use ant_hoc_net.Collections.Map.{Map}
use ant_hoc_net.Double.{Double}
use ant_hoc_net.Generation.{
  Best, GenerationTracker, accept, allow_broadcast, claim, empty_tracker, is_new_first_hop,
  max_first_hops, note_first_hop, refresh, store, track, within_factor,
}
use ant_hoc_net.History.{Generation, bound, evict, seen}
use ant_hoc_net.History.Fifo.{Agrees, Distinct-append, bound-Agrees, contains-append, length-evict}
use ant_hoc_net.Prelude.{
  Bool, List, Option-cases, [], arith, false, if_Holds, inl, inr, leb, length, length-append,
  negsuc, none, not, pos, refl, some, true, ℕ, ℤ, ◌&&◌, ◌++◌, ◌+◌, ◌∷◌, ◌≡◌, ◌≤◌, ◌⊎◌,
}

module _ {W : Type 0} where
  abbrev pub resident : Generation → Map Generation (Best W) → Bool
  resident key best = elim (Map.lookup key best) [ none ↦ false | some b ↦ true ]

  pub resident-erase :
      (x k : Generation) (best : Map Generation (Best W))
      → resident k (Map.erase x best) ≡ (not (pair_key.beq x k) && resident k best)
  resident-erase x k best = ground (arith, Map.lookup-erase x k best)

  pub length-erase-resident :
      (x : Generation) (best : Map Generation (Best W))
      → resident x best ≡ true
      → length (Map.erase x best) + 1 ≤ length best
  length-erase-resident x best h = elim (Option-cases (Map.lookup x best)) [
    | inl e ↦ ground arith
    | inr (b, e) ↦ Map.length-erase_present x b best e
  ]

  abbrev pub Consistent : List Generation → Map Generation (Best W) → Type 0
  Consistent = Agrees Map.erase length resident resident-erase length-erase-resident

  pub record IsValid (g : GenerationTracker W) : Type 0 where
    -- the map and the queue hold the same generations, each once
    pub agrees : Consistent g.order g.best
    -- the cap holds, where there is one
    pub capped : (g.max_entries ≡ 0) ⊎ (length g.order ≤ g.max_entries)
    pub few_hops :
        (key : Generation) (b : Best W)
        → Map.lookup key g.best ≡ some b
        → length b.first_hops ≤ max_first_hops

  pub empty-IsValid : (max : ℕ) → IsValid (empty_tracker max)
  unfolding Map.lookup Set.contains
  empty-IsValid max = record {
    agrees = record { same = λ k. refl; distinct = tt; small = omega arith };
    capped = inr (omega arith);
    few_hops = λ key b e. cc;
  }

  bound_capped :
      (max : ℕ) (order : List Generation) (best : Map Generation (Best W))
      → (max ≡ 0) ⊎ (length (bound Map.erase max order best).0 ≤ max)
  unfolding bound
  bound_capped max order best = ground (arith, length-evict Map.erase max order best)

  -- what eviction leaves was there before
  lookup-evict :
      (max : ℕ) (order : List Generation) (best : Map Generation (Best W)) (key : Generation)
      (b : Best W)
      → Map.lookup key (evict Map.erase max order best).1 ≡ some b
      → Map.lookup key best ≡ some b
  unfolding evict
  lookup-evict max [] best key b h = h
  lookup-evict max (k ∷ ks) best key b h =
      ground (arith, lookup-evict max ks (Map.erase k best) key b, Map.lookup-erase k key best)

  lookup-bound :
      (max : ℕ) (order : List Generation) (best : Map Generation (Best W)) (key : Generation)
      (b : Best W)
      → Map.lookup key (bound Map.erase max order best).1 ≡ some b
      → Map.lookup key best ≡ some b
  unfolding bound
  lookup-bound max order best key b h = ground (arith, lookup-evict max order best key b)

  module _ (g : GenerationTracker W) (key : Generation) (b : Best W) (valid : IsValid g)
      (few : length b.first_hops ≤ max_first_hops) where
    abbrev pushed : List Generation
    pushed = g.order ++ (key ∷ [])

    pushed-Consistent : Map.lookup key g.best ≡ none → Consistent pushed (Map.insert key b g.best)
    pushed-Consistent new = record {
      same = λ j. ground (
        arith,
        Map.lookup-insert key j b g.best,
        contains-append j key g.order,
        valid.agrees.same j,
      );
      distinct =
          Distinct-append g.order key valid.agrees.distinct (ground (arith, valid.agrees.same key));
      small = omega (
        arith,
        Map.length-insert key b g.best,
        length-append {0} g.order (key ∷ []),
        valid.agrees.small,
      );
    }

    pub track-IsValid : Map.lookup key g.best ≡ none → IsValid (track g key b)
    unfolding track
    track-IsValid new = record {
      agrees =
          bound-Agrees Map.erase length resident resident-erase length-erase-resident g.max_entries
            pushed (Map.insert key b g.best) (pushed-Consistent new);
      capped = bound_capped g.max_entries pushed (Map.insert key b g.best);
      few_hops = λ j c e. ground (
        arith,
        lookup-bound g.max_entries pushed (Map.insert key b g.best) j c e,
        Map.lookup-insert key j b g.best,
        valid.few_hops j c,
      );
    }

    pub store-IsValid : (old : Best W) → Map.lookup key g.best ≡ some old → IsValid (store g key b)
    unfolding store
    store-IsValid old e = record {
      agrees = record {
        same = λ j.
            ground
              (arith, Map.lookup-insert key j b g.best, valid.agrees.same j, pair_beq_iff key j);
        distinct = valid.agrees.distinct;
        small = omega (arith, Map.length-insert_present key b old g.best e, valid.agrees.small);
      };
      capped = valid.capped;
      few_hops = λ j c k. ground (arith, Map.lookup-insert key j b g.best, valid.few_hops j c);
    }

pub length-note_first_hop :
    (seen : List NodeAddress) (hop : NodeAddress)
    → length seen ≤ max_first_hops
    → length (note_first_hop seen hop) ≤ max_first_hops
unfolding note_first_hop is_new_first_hop
length-note_first_hop seen hop h = ground (arith, length-append {0} seen (hop ∷ []))

module _ {W : Type 0} ⦃d : Double W⦄ (g : GenerationTracker W) (key : Generation)
    (valid : IsValid g) where
  accept-IsValid :
      (hops : ℕ) (time : W) (first_hop : NodeAddress) (factor factor_new_hop : W)
      → IsValid (accept g key hops time first_hop factor factor_new_hop).0
  unfolding accept refresh
  accept-IsValid hops time first_hop factor factor_new_hop =
      elim (Option-cases (Map.lookup key g.best)) [
        | inl e ↦
            rw (e, accept)
              (track-IsValid g key _ valid (length-note_first_hop [] first_hop (omega arith)) e)
        | inr (b, e) ↦
            rw (e, accept)
              (if_Holds (λ (r : GenerationTracker W × Bool). IsValid r.0)
                (within_factor b hops time _)
                (store-IsValid g key _ valid
                  (length-note_first_hop b.first_hops first_hop (valid.few_hops key b e)) b e)
                valid)
      ]

  claim-IsValid : (max : ℕ) → IsValid (claim g key max).0
  unfolding claim
  claim-IsValid max = elim (Option-cases (Map.lookup key g.best)) [
    | inl e ↦ rw (e, claim) valid
    | inr (b, e) ↦
        rw (e, claim)
          (if_Holds (λ (r : GenerationTracker W × Bool). IsValid r.0) (leb max b.broadcasts) valid
            (store-IsValid g key _ valid (valid.few_hops key b e) b e))
  ]

allow_broadcast-IsValid :
    {W : Type 0} ⦃d : Double W⦄ (g : GenerationTracker W) (key : Generation)
    → IsValid g
    → (max : ℤ) → IsValid (allow_broadcast g key max).0
unfolding allow_broadcast
allow_broadcast-IsValid g key valid (negsuc n) = valid
allow_broadcast-IsValid g key valid (pos max) = elim (Option-cases (Map.lookup key g.best)) [
  | inl e ↦
      rw e (claim-IsValid (track g key _) key (track-IsValid g key _ valid (omega arith) e) max)
  | inr (b, e) ↦ rw e (claim-IsValid g key valid max)
]

-- `accept` and `allowBroadcast` keep the tracker valid: its map and its queue hold the same
-- generations, no more than a cap other than 0 allows, and no generation remembers more than
-- kMaxFirstHops first hops.
pub tracker-IsValid :
    {W : Type 0} ⦃d : Double W⦄ (g : GenerationTracker W) (key : Generation)
    → IsValid g
    → (hops : ℕ) (time : W) (first_hop : NodeAddress) (factor factor_new_hop : W) (max : ℤ)
    → IsValid (accept g key hops time first_hop factor factor_new_hop).0
      × IsValid (allow_broadcast g key max).0
tracker-IsValid g key valid hops time first_hop factor factor_new_hop max = (
  accept-IsValid g key valid hops time first_hop factor factor_new_hop,
  allow_broadcast-IsValid g key valid max,
)
