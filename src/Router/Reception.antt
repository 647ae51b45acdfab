-- ===== src/Router/Reception.antt =====
-- Receiving ants and sending data keep the invariant of the pheromone table.
use ant_hoc_net.Collections.Map
use ant_hoc_net.Address.{NodeAddress, invalid_address}
use ant_hoc_net.Collections.Key.{nat_key, pair_key}
use ant_hoc_net.Collections.Map.{Map}
use ant_hoc_net.Double.{Double, gt, nought}
use ant_hoc_net.Engine.{update_regular}
use ant_hoc_net.Engine.Validity.{update_regular-IsValid, update_virtual-IsValid}
use ant_hoc_net.Generation.{allow_broadcast}
use ant_hoc_net.Message.{AntMessage, hello, is_forward, link_fail, proactive, reactive, same_type}
use ant_hoc_net.Prelude.{arith, if_Holds, inl, inr, not, refl, true, ◌&&◌, ◌==◌, ◌≡◌, ◌⊎◌}
use ant_hoc_net.Router.{
  Ports, Router, ant_received, broadcast, count_ant, increment, next_seq, notify,
  sharing_kinematics, unicast,
}
use ant_hoc_net.Router.Ants.{
  advance_back_ant, compute_back_ant_state, create_back_ant, create_forward_ant,
  reinforce_from_back_ant, stamp_forward,
}
use ant_hoc_net.Router.Failure.{may_retry}
use ant_hoc_net.Router.Frame.{table-broadcast_forward, table-notify, table-send_ant}
use ant_hoc_net.Router.Links.{next_hop_for_data, select_next_hop}
use ant_hoc_net.Router.Receive.{
  admit, discover, dispatch, explore, flood, follow, forward_hop, note_reception, on_data_packet,
  on_receive_ant, price_last_hop, receive_back, receive_forward, receive_hello, turn_round,
}
use ant_hoc_net.Router.Validity.{
  IsSound, LeavesSound, carry, handle_link_fail-IsSound, learn_neighbor-IsSound,
  next_hop_for_data-IsSound, select_next_hop-IsSound,
}
use ant_hoc_net.Table.{advance}
use ant_hoc_net.Table.Validity.{IsValid}

module _ {W : Type 0} ⦃d : Double W⦄ (env : Ports W) where
  table-admit : (r : Router W) (ant : AntMessage W) → (admit env r ant).0.table ≡ r.table
  unfolding admit
  table-admit r ant = ground arith

  note_reception-IsSound :
      (r : Router W) (ant : AntMessage W) (prev_hop : NodeAddress)
      → IsSound r
      → IsSound (note_reception env r ant prev_hop)
  unfolding note_reception
  note_reception-IsSound r ant prev_hop valid =
      let counted = record r { ants_received = count_ant r.ants_received ant.type } in
      let r' = notify counted (ant_received ant.type ant.direction) in
      let sound : IsSound r' =
        carry _ _ (table-notify counted (ant_received ant.type ant.direction)) valid in
      if_Holds IsSound (prev_hop == invalid_address) sound
        (learn_neighbor-IsSound env r' prev_hop sound)

  receive_hello-IsSound :
      (r : Router W) (ant : AntMessage W) → IsSound r → IsSound (receive_hello env r ant)
  unfolding receive_hello
  receive_hello-IsSound r ant valid =
      let learnt = learn_neighbor-IsSound env r ant.src valid in
      update_virtual-IsValid _ _ ant _
        (if_Holds IsSound (sharing_kinematics r.config) learnt learnt)

  table-turn_round : (r : Router W) (ant : AntMessage W) → (turn_round env r ant).0.table ≡ r.table
  unfolding turn_round create_back_ant next_seq
  table-turn_round r ant =
      let (back, r') = create_back_ant env r (stamp_forward env r ant invalid_address) in
      let (next, back') = advance_back_ant back in
      ground (arith, table-send_ant r' unicast next back')

  table-flood : (r : Router W) (ant : AntMessage W) → (flood env r ant).0.table ≡ r.table
  unfolding flood
  table-flood r ant = table-broadcast_forward r (stamp_forward env r ant invalid_address)

  table-explore : (r : Router W) (ant : AntMessage W) → (explore env r ant).0.table ≡ r.table
  unfolding explore
  table-explore r ant =
      let tracker =
        (allow_broadcast r.gen_quality (ant.src, ant.seq_num) r.config.reactive_max_broadcasts).0 in
      ground (arith, table-flood r ant, table-flood (record r { gen_quality = tracker }) ant)

  table-follow :
      (r : Router W) (ant : AntMessage W) (next : NodeAddress)
      → (follow env r ant next).0.table ≡ r.table
  unfolding follow
  table-follow r ant next =
      let drawn = record r { rng = advance r.rng } in
      ground (
        arith,
        table-flood drawn ant,
        table-send_ant drawn unicast next (stamp_forward env drawn ant next),
        table-send_ant r unicast next (stamp_forward env r ant next),
      )

  forward_hop-IsSound :
      (r : Router W) (ant : AntMessage W) → IsSound r → IsSound (forward_hop env r ant).1
  unfolding forward_hop
  forward_hop-IsSound r ant valid =
      let (next, r1) = select_next_hop env r ant.dst (same_type ant.type proactive) in
      let (steer, r2) = select_next_hop env r1 ant.dst true in
      let first : IsSound r1 =
        select_next_hop-IsSound env r ant.dst (same_type ant.type proactive) valid in
      let second : IsSound r2 = select_next_hop-IsSound env r1 ant.dst true first in
      if_Holds (λ (h : NodeAddress × Router W). IsSound h.1)
        (next == invalid_address
          && same_type ant.type reactive
          && r.config.enable_directed_reactive)
        (if_Holds IsSound (steer == invalid_address) second second) first

  table-receive_forward :
      (r : Router W) (ant : AntMessage W)
      → ((receive_forward env r ant).0.table ≡ r.table)
        ⊎ ((receive_forward env r ant).0.table ≡ (forward_hop env r ant).1.table)
  unfolding receive_forward
  table-receive_forward r ant =
      let (next, r') = forward_hop env r ant in
      ground (arith, table-turn_round r ant, table-explore r' ant, table-follow r' ant next)

  reinforce_from_back_ant-IsSound :
      (r : Router W) (ant : AntMessage W) → IsSound r → IsSound (reinforce_from_back_ant r ant)
  unfolding reinforce_from_back_ant
  reinforce_from_back_ant-IsSound r ant valid =
      let updated : (v : W) → IsValid (update_regular r.config r.table ant.src ant.prev_hop v) =
        λ v. update_regular-IsValid r.config r.table ant.src ant.prev_hop v valid in
      if_Holds IsSound (gt r.config.hop_count_alpha nought && not (ant.prev_hop == invalid_address))
        (updated _) (updated _)

  table-receive_back :
      (r : Router W) (ant : AntMessage W)
      → (receive_back env r ant).0.table
        ≡ (reinforce_from_back_ant r (compute_back_ant_state r (price_last_hop env r ant))).table
  unfolding receive_back
  table-receive_back r ant =
      let priced = compute_back_ant_state r (price_last_hop env r ant) in
      let r1 = reinforce_from_back_ant r priced in
      let r2 = record r1 { repair_deadline = Map.erase priced.src r1.repair_deadline } in
      let (next, ant') = advance_back_ant priced in
      ground (arith, table-send_ant r2 unicast next ant')

  dispatch-IsSound :
      (r : Router W) (ant : AntMessage W) (prev_hop : NodeAddress)
      → IsSound r
      → LeavesSound (dispatch env r ant prev_hop)
  unfolding dispatch
  dispatch-IsSound r ant prev_hop valid =
      let forward : LeavesSound (receive_forward env r ant) = elim (table-receive_forward r ant) [
        | inl e ↦ carry _ _ e valid
        | inr e ↦ carry _ _ e (forward_hop-IsSound r ant valid)
      ] in
      let back : LeavesSound (receive_back env r ant) = carry _ _ (table-receive_back r ant) (
        reinforce_from_back_ant-IsSound r (compute_back_ant_state r (price_last_hop env r ant))
          valid) in
      if_Holds LeavesSound (same_type ant.type hello) (receive_hello-IsSound r ant valid) (
        if_Holds LeavesSound (same_type ant.type link_fail)
          (handle_link_fail-IsSound env r ant prev_hop valid)
          (if_Holds LeavesSound (is_forward ant) forward back))

  -- Receiving an ant of any type, from any previous hop, duplicate or not, keeps the pheromone
  -- table valid.
  pub on_receive_ant-IsSound :
      (r : Router W) (ant : AntMessage W) (prev_hop : NodeAddress)
      → IsSound r
      → LeavesSound (on_receive_ant env r ant prev_hop)
  unfolding on_receive_ant
  on_receive_ant-IsSound r ant prev_hop valid =
      let (r', admitted) = admit env r ant in
      let sound : IsSound r' = carry _ _ (table-admit r ant) valid in
      if_Holds LeavesSound admitted
        (dispatch-IsSound (note_reception env r' ant prev_hop) ant prev_hop
          (note_reception-IsSound r' ant prev_hop sound))
        sound

  -- the router that a discovery starts its ant with
  abbrev started : Router W → NodeAddress → AntMessage W × Router W
  started r dest =
      create_forward_ant env (record r { last_reactive = Map.insert dest env.now r.last_reactive })
        reactive dest

  table-started : (r : Router W) (dest : NodeAddress) → (started r dest).1.table ≡ r.table
  unfolding create_forward_ant next_seq
  table-started r dest = refl

  table-discover :
      (r : Router W) (dest : NodeAddress)
      → ((discover env r dest).0.table ≡ r.table)
        ⊎ ((discover env r dest).0.table
            ≡ (select_next_hop env (started r dest).1 dest true).1.table)
  unfolding discover
  table-discover r dest =
      let (ant, r1) = started r dest in
      let (steer, r2) = select_next_hop env r1 dest true in
      let r3 = record r2 { directed_steers = increment r2.directed_steers } in
      ground (
        arith,
        table-started r dest,
        table-send_ant r1 broadcast invalid_address ant,
        table-send_ant r2 broadcast invalid_address ant,
        table-send_ant r3 unicast steer ant,
      )

  -- Asking for the next hop of a data packet keeps the pheromone table valid, whether the packet is
  -- sent, held, or held while a reactive ant goes out.
  pub on_data_packet-IsSound :
      (r : Router W) (dest prev_hop : NodeAddress)
      → IsSound r
      → LeavesSound (on_data_packet env r dest prev_hop)
  unfolding on_data_packet
  on_data_packet-IsSound r dest prev_hop valid =
      let (next, r1) = next_hop_for_data env r dest prev_hop in
      let asked : IsSound r1 = next_hop_for_data-IsSound env r dest prev_hop valid in
      let discovered : IsSound (discover env r1 dest).0 = elim (table-discover r1 dest) [
        | inl e ↦ carry _ _ e asked
        | inr e ↦ carry _ _ e (
            select_next_hop-IsSound env (started r1 dest).1 dest true
              (carry _ _ (table-started r1 dest) asked))
      ] in
      if_Holds LeavesSound (not (next == invalid_address)) asked (
        if_Holds LeavesSound (not r.config.enable_reactive) asked
          (if_Holds LeavesSound (may_retry env r.config r1.last_reactive dest) discovered asked))
