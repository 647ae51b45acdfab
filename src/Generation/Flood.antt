-- ===== src/Generation/Flood.antt =====
-- The flood bound of `allowBroadcast`: over any run of the tracker a generation is granted at most
-- the configured number of broadcasts.
use ant_hoc_net.Collections.Map
use ant_hoc_net.Address.{NodeAddress}
use ant_hoc_net.Collections.Key.{nat_key, pair_beq_iff, pair_key}
use ant_hoc_net.Collections.Map.{Map}
use ant_hoc_net.Double.{Double, nought}
use ant_hoc_net.Generation.{
  Best, GenerationTracker, accept, allow_broadcast, claim, note_first_hop, refresh, store, track,
}
use ant_hoc_net.History.{Generation, bound}
use ant_hoc_net.Prelude.{
  List, Option-cases, [], arith, if◌then◌else◌, inl, inr, none, pos, refl, some, ℕ, ◌&&◌, ◌++◌, ◌+◌,
  ◌∙◌, ◌∷◌, ◌≡◌, ◌≤◌,
}

-- what a node does with its tracker
pub data Event (W : Type 0) : Type 0 where
  -- accept(src, seq, hops, time, firstHop, factor, factorNewHop)
  arrival : Generation → ℕ → W → NodeAddress → W → W → Event W
  -- allowBroadcast(src, seq, maxBroadcasts)
  flooding : Generation → Event W

module _ {W : Type 0} ⦃d : Double W⦄ (max : ℕ) (key : Generation) where
  -- the grants that `key` is given along a run
  pub grants : GenerationTracker W → List (Event W) → ℕ
  grants g [] = 0
  grants g (arrival k hops time first_hop factor factor_new_hop ∷ events) =
      grants (accept g k hops time first_hop factor factor_new_hop).0 events
  grants g (flooding k ∷ events) =
      let (g', granted) = allow_broadcast g k (pos max) in
      (if granted && pair_key.beq k key then 1 else 0) + grants g' events

  -- the claims that the tracker has counted
  unfoldable pub used : GenerationTracker W → ℕ
  used g = elim (Map.lookup key g.best) [ none ↦ 0 | some b ↦ b.broadcasts ]

  bound-unlimited :
      (cap : ℕ) (order : List Generation) (best : Map Generation (Best W))
      → cap ≡ 0
      → bound Map.erase cap order best ≡ (order, best)
  unfolding bound
  bound-unlimited cap order best e = ground arith

  lookup-track :
      (g : GenerationTracker W) (k : Generation) (b : Best W)
      → g.max_entries ≡ 0
      → Map.lookup key (track g k b).best
        ≡ (if pair_key.beq k key then some b else Map.lookup key g.best)
  unfolding track
  lookup-track g k b e =
      simp (bound-unlimited g.max_entries (g.order ++ (k ∷ [])) (Map.insert k b g.best) e)
        (Map.lookup-insert k key b g.best)

  lookup-store :
      (g : GenerationTracker W) (k : Generation) (b : Best W)
      → Map.lookup key (store g k b).best
        ≡ (if pair_key.beq k key then some b else Map.lookup key g.best)
  unfolding store
  lookup-store g k b = Map.lookup-insert k key b g.best

  max_entries-track :
      (g : GenerationTracker W) (k : Generation) (b : Best W)
      → (track g k b).max_entries ≡ g.max_entries
  unfolding track
  max_entries-track g k b = refl

  max_entries-store :
      (g : GenerationTracker W) (k : Generation) (b : Best W)
      → (store g k b).max_entries ≡ g.max_entries
  unfolding store
  max_entries-store g k b = refl

  -- an arrival claims nothing
  used-accept :
      (g : GenerationTracker W) (k : Generation) (hops : ℕ) (time : W) (first_hop : NodeAddress)
      (factor factor_new_hop : W)
      → g.max_entries ≡ 0
      → let g' = (accept g k hops time first_hop factor factor_new_hop).0 in
        (used g' ≡ used g) × (g'.max_entries ≡ 0)
  unfolding accept used refresh
  used-accept g k hops time first_hop factor factor_new_hop e =
      let fresh : Best W = record {
        hops = hops;
        time = time;
        broadcasts = 0;
        first_hops = note_first_hop [] first_hop;
      } in
      elim (Option-cases (Map.lookup k g.best)) [
        | inl old ↦ (
          ground (arith, old, lookup-track g k fresh e, pair_beq_iff k key),
          ground (arith, old, max_entries-track g k fresh),
        )
        | inr (b, old) ↦ (
          ground (arith, old, lookup-store g k (refresh b hops time first_hop), pair_beq_iff k key),
          ground (arith, old, max_entries-store g k (refresh b hops time first_hop)),
        )
      ]

  -- a claim is counted exactly if it is granted, and only below the maximum
  used-claim :
      (g : GenerationTracker W) (k : Generation)
      → g.max_entries ≡ 0
      → used g ≤ max
      → let (g', granted) = claim g k max in
        (used g' ≡ used g + (if granted && pair_key.beq k key then 1 else 0))
        × (used g' ≤ max)
        × (g'.max_entries ≡ 0)
  unfolding claim used
  used-claim g k e le = elim (Option-cases (Map.lookup k g.best)) [
    | inl old ↦ (ground (arith, old), ground (arith, old), ground (arith, old))
    | inr (b, old) ↦
        let b' : Best W = record b { broadcasts = b.broadcasts + 1 } in
        (
          ground (arith, old, lookup-store g k b', pair_beq_iff k key),
          ground (arith, old, lookup-store g k b', pair_beq_iff k key),
          ground (arith, old, max_entries-store g k b'),
        )
  ]

  used-allow :
      (g : GenerationTracker W) (k : Generation)
      → g.max_entries ≡ 0
      → used g ≤ max
      → let (g', granted) = allow_broadcast g k (pos max) in
        (used g' ≡ used g + (if granted && pair_key.beq k key then 1 else 0))
        × (used g' ≤ max)
        × (g'.max_entries ≡ 0)
  unfolding allow_broadcast used
  used-allow g k e le =
      let fresh : Best W = record { hops = 0; time = nought; broadcasts = 0; first_hops = [] } in
      elim (Option-cases (Map.lookup k g.best)) [
        | inl old ↦
            let t = lookup-track g k fresh e in
            let same : used (track g k fresh) ≡ used g =
              ground (arith, old, t, pair_beq_iff k key) in
            let u =
              used-claim (track g k fresh) k (max_entries-track g k fresh ∙ e)
                (ground (arith, same)) in
            (
              ground (arith, old, u, same),
              ground (arith, old, u, same),
              ground (arith, old, u, same),
            )
        | inr (b, old) ↦
            let u = used-claim g k e le in
            (ground (arith, old, u), ground (arith, old, u), ground (arith, old, u))
      ]

  -- Along any run of a tracker without a cap, arrivals and claims of all generations mixed, the
  -- broadcasts granted to one generation and those counted for it before add up to at most the
  -- maximum.
  pub grants-le :
      (g : GenerationTracker W) (events : List (Event W))
      → g.max_entries ≡ 0
      → used g ≤ max
      → grants g events + used g ≤ max
  unfolding grants
  grants-le g [] e le = omega arith
  grants-le g (arrival k hops time first_hop factor factor_new_hop ∷ events) e le =
      let u = used-accept g k hops time first_hop factor factor_new_hop e in
      omega (
        arith,
        u.0,
        grants-le (accept g k hops time first_hop factor factor_new_hop).0 events u.1
            (omega (arith, u.0)),
      )
  grants-le g (flooding k ∷ events) e le =
      let u = used-allow g k e le in
      omega (arith, u.0, grants-le (allow_broadcast g k (pos max)).0 events u.2 u.1)
