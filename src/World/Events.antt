-- ===== src/World/Events.antt =====
-- What each event of web/src/sim.cpp does to the places of a packet.
use ant_hoc_net.Collections.Set
use ant_hoc_net.Address.{NodeAddress, invalid_address}
use ant_hoc_net.Codec.{Patterns, direction_byte}
use ant_hoc_net.Codec.Decode.{deserialize}
use ant_hoc_net.Collections.Key.{nat_key, pair_key}
use ant_hoc_net.Collections.Visit.{foldl_frame}
use ant_hoc_net.Double.{Double, nought}
use ant_hoc_net.Message.{AntMessage, new_message}
use ant_hoc_net.Prelude.{
  ==_iff, Bool-cases, List, Option-cases, ap, arith, get_elem?, get_elem?-set, inl, inr, leb, refl,
  set, some, subst, ℕ, ◌+◌, ◌==◌, ◌≡◌,
}
use ant_hoc_net.Router.{Outcome, Ports, RouteDecision, Router, type_byte}
use ant_hoc_net.Router.Failure.{report_tx_failure}
use ant_hoc_net.Router.Receive.{on_data_packet, on_receive_ant}
use ant_hoc_net.World.{
  Flow, Packet, World, ask, data_delivered, emit, int, node_of, node_off, repair_discard, rx_ant,
  tx_fail,
}
use ant_hoc_net.World.Adapter.{
  accept_ant, ant_failed, data_failed, execute, execute_one, note_delivery, recv_ant, recv_data,
  route_data,
}
use ant_hoc_net.World.Handling.{
  places-ask_hop, places-discard_queue, places-enqueue, places-flush_queue, places-mark_routed,
  places-send_ant, places-send_data,
}
use ant_hoc_net.World.Moves.{places-ask, places-drop_packet, places-emit, places-emit_end}
use ant_hoc_net.World.Places.{is_it, one_if, places, unsent}
use ant_hoc_net.World.Queue.{ask_hop, enqueue, flush_queue, mark_routed}

module _ {W : Type 0} ⦃d : Double W⦄ ⦃bits : Patterns W⦄ (f s : ℕ) where
  places-execute_one :
      (id : NodeAddress) (w : World W) (decision : RouteDecision W)
      → places f s (execute_one id w decision) ≡ places f s w
  unfolding execute_one
  places-execute_one id w decision = ground (
    arith,
    places-send_ant f s id decision.message decision.next_hop w,
    places-send_ant f s id decision.message invalid_address w,
    places-discard_queue f s id decision.next_hop repair_discard w,
  )

  pub places-execute :
      (id : NodeAddress) (w : World W) (ds : List (RouteDecision W))
      → places f s (execute id (w, ds)) ≡ places f s w
  unfolding execute
  places-execute id w ds = foldl_frame (places f s) (execute_one id) (places-execute_one id) w ds

  places-accept_ant :
      (id from : NodeAddress) (m : AntMessage W) (w : World W)
      → places f s (accept_ant id from m w) ≡ places f s w
  unfolding accept_ant
  places-accept_ant id from m w =
      let heard =
        emit w.now rx_ant id from (int (type_byte m.type)) (int (direction_byte m.direction)) nought
          w in
      let call : Ports W → Router W → Outcome W = λ env r. on_receive_ant env r m from in
      let asked = ask id call heard in
      ground (
        arith,
        places-execute id (flush_queue id m.src asked.0) asked.1,
        places-execute id asked.0 asked.1,
        places-flush_queue f s id m.src asked.0,
        places-ask f s id call heard,
        places-emit f s w.now rx_ant id from (int (type_byte m.type))
            (int (direction_byte m.direction)) nought w refl,
      )

  pub places-recv_ant :
      (id from : NodeAddress) (bytes : List ℕ) (w : World W)
      → places f s (recv_ant id from bytes w) ≡ places f s w
  unfolding recv_ant
  places-recv_ant id from bytes w = elim (Option-cases (deserialize bytes (new_message {W = W}))) [
    | inl e ↦ rw (recv_ant, e) (ground arith)
    | inr (m, e) ↦ rw (recv_ant, e) (ground (arith, places-accept_ant id from m w))
  ]

  pub places-route_data :
      (id : NodeAddress) (p : Packet W) (prev_hop : NodeAddress) (w : World W)
      → places f s (route_data id p prev_hop w) ≡ places f s w + is_it f s p
  unfolding route_data
  places-route_data id packet prev_hop w =
      let p = record packet { prev = prev_hop } in
      let asked = ask_hop id p.dst prev_hop w in
      let kept = record p { reconv = Set.contains p.dst (node_of asked.0 id).ever_routed } in
      let call : Ports W → Router W → Outcome W =
        λ env r. on_data_packet env r p.dst invalid_address in
      let queued = enqueue id kept asked.0 in
      ground (
        arith,
        places-execute id (ask id call queued).0 (ask id call queued).1,
        places-ask f s id call queued,
        places-enqueue f s id kept asked.0,
        places-ask_hop f s id p.dst prev_hop w,
        places-send_data f s id p asked.1 (mark_routed id p.dst asked.0),
        places-mark_routed f s id p.dst asked.0,
      )

  pub places-flows :
      (w : World W) (flows : List (Flow W))
      → places f s (record w { flows = flows }) + unsent f s w.flows
        ≡ places f s w + unsent f s flows
  unfolding places
  places-flows w flows = omega arith

  pub unsent-set :
      (flows : List (Flow W)) (g : ℕ) (flow flow' : Flow W)
      → get_elem? flows g ≡ some flow
      → flow'.sent ≡ flow.sent
      → unsent f s (set flows g flow') ≡ unsent f s flows
  unfolding unsent
  unsent-set flows g flow flow' e same = elim (Bool-cases (g == f)) [
    | inl h ↦
        let here : get_elem? flows f ≡ some flow =
          subst (λ i. get_elem? flows i ≡ some flow) ((==_iff g f).0 h) e in
        rw (unsent, get_elem?-set flows g f flow' flow e, h, here) (ap (λ n. one_if (leb n s)) same)
    | inr h ↦ rw (unsent, get_elem?-set flows g f flow' flow e, h) refl
  ]

  unsent-note_delivery :
      (g : ℕ) (delay : W) (flows : List (Flow W))
      → unsent f s (note_delivery g delay flows) ≡ unsent f s flows
  unfolding note_delivery unsent
  unsent-note_delivery g delay flows = elim (Option-cases (get_elem? flows g)) [
    | inl e ↦ rw (note_delivery, e) refl
    | inr (flow, e) ↦
        let noted = record flow {
          delivered = flow.delivered + 1;
          delay_sum = d.add flow.delay_sum delay;
        } in
        rw (note_delivery, e) (unsent-set flows g flow noted e refl)
  ]

  pub places-recv_data :
      (id from : NodeAddress) (p : Packet W) (w : World W)
      → places f s (recv_data id from p w) ≡ places f s w + is_it f s p
  unfolding recv_data
  places-recv_data id from p w =
      let delay = d.sub w.now p.created in
      let noted = record w { flows = note_delivery p.flow delay w.flows } in
      ground (
        arith,
        places-drop_packet f s id node_off p w,
        places-emit_end f s w.now data_delivered id from delay p noted refl,
        places-flows w (note_delivery p.flow delay w.flows),
        unsent-note_delivery p.flow delay w.flows,
        places-route_data id p from w,
      )

  pub places-ant_failed :
      (from to : NodeAddress) (w : World W) → places f s (ant_failed from to w) ≡ places f s w
  unfolding ant_failed
  places-ant_failed from to w =
      let told = emit w.now tx_fail from to (int 0) (int 0) nought w in
      let call : Ports W → Router W → Outcome W =
        λ env r. report_tx_failure env r to invalid_address in
      ground (
        arith,
        places-execute from (ask from call told).0 (ask from call told).1,
        places-ask f s from call told,
        places-emit f s w.now tx_fail from to (int 0) (int 0) nought w refl,
      )

  pub places-data_failed :
      (from to : NodeAddress) (p : Packet W) (w : World W)
      → places f s (data_failed from to p w) ≡ places f s w + is_it f s p
  unfolding data_failed
  places-data_failed from to p w =
      let told = emit w.now tx_fail from to (int p.flow) (int p.seq) nought w in
      let call : Ports W → Router W → Outcome W = λ env r. report_tx_failure env r to p.dst in
      let done = execute from (ask from call told) in
      ground (
        arith,
        places-drop_packet f s from node_off p w,
        places-route_data from p p.prev done,
        places-execute from (ask from call told).0 (ask from call told).1,
        places-ask f s from call told,
        places-emit f s w.now tx_fail from to (int p.flow) (int p.seq) nought w refl,
      )
