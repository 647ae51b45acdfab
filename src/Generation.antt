-- ===== src/Generation.antt =====
-- `GenerationTracker` of core/include/anthocnet/core/ant_history.h and core/src/ant_history.cpp: the
-- acceptance filter for reactive forward ants and the flood bound, per generation of ants.
pub mod Validity
pub mod Flood
mod Tests
use ant_hoc_net.Collections.Map
use ant_hoc_net.Collections.Set
use ant_hoc_net.Address.{NodeAddress, invalid_address}
use ant_hoc_net.Collections.Key.{nat_key, pair_key}
use ant_hoc_net.Collections.Map.{Map}
use ant_hoc_net.Double.{Double, nought}
use ant_hoc_net.History.{Generation, bound, seen}
use ant_hoc_net.Prelude.{
  Bool, List, [], false, if◌then◌else◌, leb, length, ltb, negsuc, none, not, pos, some, true, ℕ, ℤ,
  ◌&&◌, ◌++◌, ◌+◌, ◌==◌, ◌∷◌,
}

-- kMaxFirstHops
abbrev pub max_first_hops : ℕ
max_first_hops = 8

pub record Best (W : Type 0) : Type 0 where
  pub hops : ℕ
  pub time : W
  pub broadcasts : ℕ
  pub first_hops : List NodeAddress

pub record GenerationTracker (W : Type 0) : Type 0 where
  pub max_entries : ℕ
  pub best : Map Generation (Best W)
  pub order : List Generation

abbrev pub empty_tracker : {W : Type 0} → ℕ → GenerationTracker W
empty_tracker max = record { max_entries = max; best = []; order = [] }

unfoldable pub is_new_first_hop : List NodeAddress → NodeAddress → Bool
is_new_first_hop seen first_hop =
    not (first_hop == invalid_address)
    && not (leb max_first_hops (length seen))
    && not (Set.contains first_hop seen)

unfoldable pub note_first_hop : List NodeAddress → NodeAddress → List NodeAddress
note_first_hop seen first_hop =
    if is_new_first_hop seen first_hop then seen ++ (first_hop ∷ []) else seen

module _ {W : Type 0} where
  -- a generation that is not resident: emplace, push, evict
  unfoldable pub track : GenerationTracker W → Generation → Best W → GenerationTracker W
  track g key fresh =
      let (order, best) =
        bound Map.erase g.max_entries (g.order ++ (key ∷ [])) (Map.insert key fresh g.best) in
      record g { best = best; order = order }

  unfoldable pub store : GenerationTracker W → Generation → Best W → GenerationTracker W
  store g key b = record g { best = Map.insert key b g.best }

module _ {W : Type 0} ⦃d : Double W⦄ where
  open d use {of_nat, mul, le, lt}

  unfoldable pub within_factor : Best W → ℕ → W → W → Bool
  within_factor b hops time f = le (of_nat hops) (mul f (of_nat b.hops)) && le time (mul f b.time)

  unfoldable pub refresh : Best W → ℕ → W → NodeAddress → Best W
  refresh b hops time first_hop = record b {
    hops = if ltb hops b.hops then hops else b.hops;
    time = if lt time b.time then time else b.time;
    first_hops = note_first_hop b.first_hops first_hop;
  }

  unfoldable pub accept :
      GenerationTracker W → Generation → ℕ → W → NodeAddress → W → W → GenerationTracker W × Bool
  accept g key hops time first_hop factor factor_new_hop = elim (Map.lookup key g.best) [
    | none ↦ (
      track g key (record {
        hops = hops;
        time = time;
        broadcasts = 0;
        first_hops = note_first_hop [] first_hop;
      }),
      true,
    )
    | some b ↦
        let f = if is_new_first_hop b.first_hops first_hop then factor_new_hop else factor in
        if within_factor b hops time f
        then (store g key (refresh b hops time first_hop), true)
        else (g, false)
  ]

  -- the record that a claim finds or makes
  unfoldable pub claim : GenerationTracker W → Generation → ℕ → GenerationTracker W × Bool
  claim g key max = elim (Map.lookup key g.best) [
    | none ↦ (g, false)
    | some b ↦
        if leb max b.broadcasts
        then (g, false)
        else (store g key (record b { broadcasts = b.broadcasts + 1 }), true)
  ]

  unfoldable pub allow_broadcast : GenerationTracker W → Generation → ℤ → GenerationTracker W × Bool
  allow_broadcast g key (negsuc n) = (g, true)
  allow_broadcast g key (pos max) =
      let g' : GenerationTracker W = elim (Map.lookup key g.best) [
        | none ↦ track g key (record { hops = 0; time = nought; broadcasts = 0; first_hops = [] })
        | some b ↦ g
      ] in
      claim g' key max

unfoldable pub clear_tracker : {W : Type 0} → GenerationTracker W → GenerationTracker W
clear_tracker g = record g { best = []; order = [] }
