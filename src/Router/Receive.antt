-- ===== src/Router/Receive.antt =====
-- `onReceiveAnt` and `onDataPacket`.
use ant_hoc_net.Collections.Map
use ant_hoc_net.Address.{NodeAddress, invalid_address}
use ant_hoc_net.Collections.Key.{nat_key, pair_key}
use ant_hoc_net.Collections.Map.{Map}
use ant_hoc_net.Double.{Double, nought}
use ant_hoc_net.Engine.{update_virtual}
use ant_hoc_net.Generation.{accept, allow_broadcast}
use ant_hoc_net.History.{Generation, record_ant}
use ant_hoc_net.Message.{AntMessage, hello, is_forward, link_fail, proactive, reactive, same_type}
use ant_hoc_net.Prelude.{
  Bool, [], if◌then◌else◌, is_spent, leb, length, none, not, some, true, ◌&&◌, ◌++◌, ◌==◌, ◌∷◌,
}
use ant_hoc_net.Router.{
  Outcome, Ports, RouteDecision, Router, ant_received, bare, broadcast, broadcast_forward,
  count_ant, delivered, dropped, increment, notify, queue, send_ant, sharing_kinematics, unicast,
}
use ant_hoc_net.Router.Ants.{
  advance_back_ant, compute_back_ant_state, create_back_ant, create_forward_ant,
  reinforce_from_back_ant, split_last, stamp_forward, sum_times,
}
use ant_hoc_net.Router.Failure.{handle_link_fail, may_retry}
use ant_hoc_net.Router.Links.{learn_neighbor, link_cost, next_hop_for_data, select_next_hop}
use ant_hoc_net.Table.{advance, uniform}

module _ {W : Type 0} ⦃d : Double W⦄ (env : Ports W) where
  open d use {lt}

  -- the node that the ant went to first; this one, if it comes from its source
  unfoldable pub first_hop_of : Router W → AntMessage W → NodeAddress
  first_hop_of r ant = elim ant.visited [
    | [] ↦ r.address
    | a ∷ hops ↦ elim hops [ [] ↦ r.address | b ∷ rest ↦ b.node ]
  ]

  abbrev generation_of : AntMessage W → Generation
  generation_of ant = (ant.src, ant.seq_num)

  -- whether the ant is handled, by the acceptance filter or by strict deduplication
  unfoldable pub admit : Router W → AntMessage W → Router W × Bool
  unfolding first_hop_of sum_times
  admit r ant =
      let (filtered, accepted) =
        accept r.gen_quality (generation_of ant) (length ant.visited) (sum_times nought ant.visited)
          (first_hop_of r ant) r.config.ant_acceptance_factor
          r.config.ant_acceptance_factor_new_hop in
      let (recorded, new) = record_ant r.history (generation_of ant) in
      if r.config.enable_multipath && is_forward ant && same_type ant.type reactive
      then (record r { gen_quality = filtered }, accepted)
      else (record r { history = recorded }, new)

  -- the reception is counted, and the previous hop is a neighbour
  unfoldable pub note_reception : Router W → AntMessage W → NodeAddress → Router W
  unfolding notify count_ant learn_neighbor
  note_reception r ant prev_hop =
      let r' =
        notify (record r { ants_received = count_ant r.ants_received ant.type })
          (ant_received ant.type ant.direction) in
      if prev_hop == invalid_address then r' else learn_neighbor env r' prev_hop

  unfoldable pub receive_hello : Router W → AntMessage W → Router W
  unfolding learn_neighbor sharing_kinematics link_cost
  receive_hello r ant =
      let r1 = learn_neighbor env r ant.src in
      let kinematics =
        if ant.has_kinematics
        then Map.insert ant.src (ant.kinematics, env.now) r1.neighbor_kinematics
        else Map.erase ant.src r1.neighbor_kinematics in
      let r2 =
        if sharing_kinematics r.config
        then record r1 { neighbor_kinematics = kinematics }
        else r1 in
      record r2 { table = update_virtual r2.config r2.table ant (link_cost env r2 ant.src) }

  abbrev only : Router W × RouteDecision W → Outcome W
  only (r, decision) = (r, decision ∷ [])

  -- the destination turns the ant round
  unfoldable pub turn_round : Router W → AntMessage W → Outcome W
  unfolding stamp_forward create_back_ant advance_back_ant send_ant
  turn_round r ant =
      let (back, r') = create_back_ant env r (stamp_forward env r ant invalid_address) in
      let (next, back') = advance_back_ant back in
      if next == invalid_address then (r', dropped ∷ []) else only (send_ant r' unicast next back')

  unfoldable pub flood : Router W → AntMessage W → Outcome W
  unfolding stamp_forward broadcast_forward
  flood r ant = only (broadcast_forward r (stamp_forward env r ant invalid_address))

  -- no pheromone: explore by broadcast, a reactive ant within its generation's bound
  unfoldable pub explore : Router W → AntMessage W → Outcome W
  unfolding flood
  explore r ant =
      let (tracker, allowed) =
        allow_broadcast r.gen_quality (generation_of ant) r.config.reactive_max_broadcasts in
      let counted = record r { gen_quality = tracker } in
      if same_type ant.type reactive
      then (if allowed then flood counted ant else (counted, dropped ∷ []))
      else flood r ant

  unfoldable pub follow : Router W → AntMessage W → NodeAddress → Outcome W
  unfolding flood stamp_forward send_ant
  follow r ant next =
      let drawn = record r { rng = advance r.rng } in
      let unicast_from =
        λ (s : Router W). only (send_ant s unicast next (stamp_forward env s ant next)) in
      let may_explore =
        same_type ant.type proactive
        && r.config.enable_proactive
        && not (is_spent ant.broadcast_budget) in
      if may_explore
      then (if lt (uniform r.rng) r.config.proactive_broadcast_prob
          then flood drawn ant
          else unicast_from drawn)
      else unicast_from r

  -- the next hop of a forward ant, a reactive one steered by diffusion where that is enabled
  unfoldable pub forward_hop : Router W → AntMessage W → NodeAddress × Router W
  unfolding select_next_hop
  forward_hop r ant =
      let (next, r1) = select_next_hop env r ant.dst (same_type ant.type proactive) in
      let (steer, r2) = select_next_hop env r1 ant.dst true in
      if next == invalid_address && same_type ant.type reactive && r.config.enable_directed_reactive
      then (
        steer,
        (if steer == invalid_address
            then r2
            else record r2 { directed_steers = increment r2.directed_steers }),
      )
      else (next, r1)

  unfoldable pub receive_forward : Router W → AntMessage W → Outcome W
  unfolding turn_round explore follow forward_hop
  receive_forward r ant =
      let (next, r') = forward_hop r ant in
      if leb r.config.max_path_length (length ant.visited)
      then (r, dropped ∷ [])
      else if ant.dst == r.address
      then turn_round r ant
      else if ant.src == r.address
      then (r, dropped ∷ [])
      else if next == invalid_address
      then explore r' ant
      else follow r' ant next

  -- a link-quality metric puts this node's own estimate into the hop that the ant came over
  unfoldable pub price_last_hop : Router W → AntMessage W → AntMessage W
  unfolding split_last link_cost
  price_last_hop r ant = elim (split_last ant.history) [
    | none ↦ ant
    | some (front, last) ↦
        if r.metric.uses_link_quality
        then record ant {
          history = front ++ (record { node = last.node; time = link_cost env r last.node } ∷ []);
        }
        else ant
  ]

  unfoldable pub receive_back : Router W → AntMessage W → Outcome W
  unfolding price_last_hop compute_back_ant_state reinforce_from_back_ant advance_back_ant send_ant
  receive_back r incoming =
      let ant = compute_back_ant_state r (price_last_hop r incoming) in
      let r1 = reinforce_from_back_ant r ant in
      let r2 = record r1 { repair_deadline = Map.erase ant.src r1.repair_deadline } in
      let (next, ant') = advance_back_ant ant in
      if ant.dst == r.address
      then (r2, delivered ∷ [])
      else if ant.src == r.address
      then (r2, dropped ∷ [])
      else if next == invalid_address
      then (r2, dropped ∷ [])
      else only (send_ant r2 unicast next ant')

  -- dispatch of an admitted ant
  unfoldable pub dispatch : Router W → AntMessage W → NodeAddress → Outcome W
  unfolding receive_hello handle_link_fail receive_forward receive_back
  dispatch r ant prev_hop =
      if same_type ant.type hello
      then (receive_hello r ant, [])
      else if same_type ant.type link_fail
      then handle_link_fail env r ant prev_hop
      else if is_forward ant
      then receive_forward r ant
      else receive_back r ant

  unfoldable pub on_receive_ant : Router W → AntMessage W → NodeAddress → Outcome W
  unfolding admit note_reception dispatch
  on_receive_ant r ant prev_hop =
      let (r', admitted) = admit r ant in
      if admitted
      then dispatch (note_reception r' ant prev_hop) ant prev_hop
      else (r', dropped ∷ [])

  -- the reactive ant that looks for a route, steered by diffusion where that is enabled
  unfoldable pub discover : Router W → NodeAddress → Router W × RouteDecision W
  unfolding create_forward_ant select_next_hop send_ant
  discover r dest =
      let (ant, r1) =
        create_forward_ant env
          (record r { last_reactive = Map.insert dest env.now r.last_reactive }) reactive dest in
      let (steer, r2) = select_next_hop env r1 dest true in
      if not r.config.enable_directed_reactive
      then send_ant r1 broadcast invalid_address ant
      else if steer == invalid_address
      then send_ant r2 broadcast invalid_address ant
      else send_ant (record r2 { directed_steers = increment r2.directed_steers }) unicast steer ant

  unfoldable pub on_data_packet : Router W → NodeAddress → NodeAddress → Outcome W
  unfolding next_hop_for_data discover may_retry
  on_data_packet r dest prev_hop =
      let (next, r1) = next_hop_for_data env r dest prev_hop in
      let held = bare queue dest in
      let (r2, decision) = discover r1 dest in
      if not (next == invalid_address)
      then (r1, bare unicast next ∷ [])
      else if not r.config.enable_reactive
      then (r1, held ∷ [])
      else if may_retry env r.config r1.last_reactive dest
      then (r2, held ∷ decision ∷ [])
      else (r1, held ∷ [])
