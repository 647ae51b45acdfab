-- ===== src/Router/Links.antt =====
-- Neighbours of the router: their cost, their kinematics and link weights, learning and losing them.
use ant_hoc_net.Collections.Map
use ant_hoc_net.Address.{NodeAddress, invalid_address}
use ant_hoc_net.Collections.Key.{nat_key, pair_key}
use ant_hoc_net.Collections.Map.{Map}
use ant_hoc_net.Double.{Double, one}
use ant_hoc_net.Engine.{clean_neighbor, update_regular}
use ant_hoc_net.Message.{Kinematics}
use ant_hoc_net.Metric.{LinkObservation, link_expiry_time, link_lifetime_weight}
use ant_hoc_net.Prelude.{
  Bool, List, Option, [], false, if◌then◌else◌, none, not, some, true, ◌==◌, ◌||◌, ◌∷◌,
}
use ant_hoc_net.Router.{Ports, Router, notify, route_changed}
use ant_hoc_net.Table.{Link, add_neighbor, lookup_next_hop, next_neighbor_node, set_link_weights}

module _ {W : Type 0} ⦃d : Double W⦄ (env : Ports W) where
  open d use {add, sub, mul, lt, nan}

  -- `linkCost`
  unfoldable pub link_cost : Router W → NodeAddress → W
  link_cost r neighbor =
      if not r.metric.uses_link_quality
      then r.config.hop_time_sec
      else r.metric.hop_cost (record {
        sinr_db = elim env.link_quality [ none ↦ nan | some sinr ↦ sinr neighbor ];
        residual_energy = elim env.residual_energy [ none ↦ nan | some e ↦ e ];
        sinr_critical_db = r.config.sinr_critical_db;
        sinr_penalty_cost = r.config.sinr_penalty_cost;
        energy_floor = r.config.energy_cost_floor;
      })

  -- lastSeen_.find(neighbor) != lastSeen_.end()
  unfoldable pub is_seen : Router W → NodeAddress → Bool
  is_seen r neighbor = elim (Map.lookup neighbor r.last_seen) [ none ↦ false | some t ↦ true ]

  unfoldable pub learn_neighbor : Router W → NodeAddress → Router W
  unfolding is_seen notify
  learn_neighbor r neighbor =
      if neighbor == r.address || neighbor == invalid_address
      then r
      else let is_new = not (is_seen r neighbor) in
        let observation : LinkObservation W = record {
          hops = one;
          path_time = link_cost r neighbor;
          hop_time = r.config.hop_time_sec;
        } in
        let r' = record r {
          table =
              update_regular r.config (add_neighbor r.table neighbor) neighbor neighbor
                (r.metric.pheromone observation);
          last_seen = Map.insert neighbor env.now r.last_seen;
          tx_failures = Map.erase neighbor r.tx_failures;
          quiet = if is_new then [] else r.quiet;
        } in
        if is_new then notify r' (route_changed neighbor neighbor true) else r'

  unfoldable pub neighbor_position : Router W → NodeAddress → Option (Kinematics W)
  neighbor_position r neighbor = elim (Map.lookup neighbor r.neighbor_kinematics) [
    | none ↦ none
    | some (k, received) ↦
        let dt = sub env.now received in
        some (record {
          x = add k.x (mul k.vx dt);
          y = add k.y (mul k.vy dt);
          z = add k.z (mul k.vz dt);
          vx = k.vx;
          vy = k.vy;
          vz = k.vz;
        })
  ]

  -- the own position: the port, and what it knows
  abbrev pub own_position : Option (Kinematics W)
  own_position = elim env.kinematics [ none ↦ none | some position ↦ position ]

  unfoldable pub lifetime_weight : Router W → NodeAddress → W
  unfolding neighbor_position
  lifetime_weight r neighbor =
      if not r.config.enable_link_lifetime then one else elim own_position [
        | none ↦ one
        | some self ↦ elim (neighbor_position r neighbor) [
          | none ↦ one
          | some other ↦
              link_lifetime_weight (link_expiry_time self other r.config.link_lifetime_range)
                r.config.link_lifetime_horizon r.config.link_lifetime_floor
        ]
      ]

  -- the loop of `refreshLinkWeights`
  unfoldable pub weigh_links : Router W → List NodeAddress → Map NodeAddress W
  weigh_links r [] = []
  weigh_links r (n ∷ ns) =
      let w = lifetime_weight r n in
      let rest = weigh_links r ns in if lt w one then Map.insert n w rest else rest

  unfoldable pub refresh_link_weights : Router W → Router W
  unfolding weigh_links set_link_weights
  refresh_link_weights r = record r {
    table = set_link_weights r.table (some (weigh_links r r.table.neighbors));
  }

  unfoldable pub select_next_hop : Router W → NodeAddress → Bool → NodeAddress × Router W
  unfolding refresh_link_weights
  select_next_hop r dest is_proactive =
      let r' = if r.config.enable_link_lifetime then refresh_link_weights r else r in
      let (next, rng) =
        next_neighbor_node r'.table dest is_proactive r.config.beta_ants r.rng invalid_address in
      (next, record r' { rng = rng })

  unfoldable pub next_hop_for_data : Router W → NodeAddress → NodeAddress → NodeAddress × Router W
  unfolding refresh_link_weights
  next_hop_for_data r dest prev_hop =
      let r' = if r.config.enable_link_lifetime then refresh_link_weights r else r in
      let (next, rng) = lookup_next_hop r'.table dest r.config.beta_data r.rng prev_hop in
      (next, record r' { rng = rng })

-- `hopEstimate_` without the estimates through one neighbour
unfoldable pub erase_hops : {W : Type 0} → NodeAddress → Map Link W → Map Link W
erase_hops neighbor [] = []
erase_hops neighbor ((l, h) ∷ m) =
    let rest = erase_hops neighbor m in if l.1 == neighbor then rest else (l, h) ∷ rest

module _ {W : Type 0} ⦃d : Double W⦄ where
  unfoldable pub lose_neighbor : Router W → NodeAddress → Router W
  unfolding notify erase_hops
  lose_neighbor r neighbor =
      let had : Bool = elim (Map.lookup neighbor r.last_seen) [ none ↦ false | some t ↦ true ] in
      let r' = record r {
        table = clean_neighbor r.config r.table neighbor;
        last_seen = Map.erase neighbor r.last_seen;
        hop_estimate = erase_hops neighbor r.hop_estimate;
        tx_failures = Map.erase neighbor r.tx_failures;
        neighbor_kinematics = Map.erase neighbor r.neighbor_kinematics;
        quiet = if had then [] else r.quiet;
      } in
      if had then notify r' (route_changed neighbor neighbor false) else r'
