-- ===== src/World/Adapter.antt =====
-- What the nodes of web/src/sim.cpp do with the decisions of the core, with the frames that arrive,
-- and with the packets of the flows.
use ant_hoc_net.Collections.Set
use ant_hoc_net.Address.{NodeAddress, invalid_address}
use ant_hoc_net.Codec.{Patterns, direction_byte}
use ant_hoc_net.Codec.Decode.{deserialize}
use ant_hoc_net.Collections.Key.{nat_key, pair_key}
use ant_hoc_net.Double.{Double, gt, nought, one}
use ant_hoc_net.Message.{AntMessage, is_forward, new_message}
use ant_hoc_net.Prelude.{
  Bool, List, [], false, foldl, get_elem?, if◌then◌else◌, none, not, set, some, true, ℕ, ◌+◌, ◌==◌,
  ◌||◌, ◌∷◌,
}
use ant_hoc_net.Router.{
  RouteAction, RouteDecision, broadcast, deliver, discard_pending, drop, no_action, queue,
  type_byte, unicast,
}
use ant_hoc_net.Router.Failure.{report_tx_failure}
use ant_hoc_net.Router.Receive.{on_data_packet, on_receive_ant}
use ant_hoc_net.Router.Sessions.{note_data_session}
use ant_hoc_net.World.{
  Flow, Packet, World, ask, data_delivered, drop_packet, emit, flow_due, int, node_of, node_off,
  repair_discard, rx_ant, schedule, tx_fail,
}
use ant_hoc_net.World.Queue.{ask_hop, discard_queue, enqueue, flush_queue, mark_routed}
use ant_hoc_net.World.Radio.{send_ant, send_data}

unfoldable pub is_deliver : RouteAction → Bool
is_deliver deliver = true
is_deliver _ = false

module _ {W : Type 0} ⦃d : Double W⦄ ⦃bits : Patterns W⦄ where
  open d use {add, sub, div}

  unfoldable pub execute_one : NodeAddress → World W → RouteDecision W → World W
  execute_one id w decision = elim decision.action [
    | unicast ↦ send_ant id decision.message decision.next_hop w
    | broadcast ↦ send_ant id decision.message invalid_address w
    | discard_pending ↦ discard_queue id decision.next_hop repair_discard w
    | deliver ↦ w
    | queue ↦ w
    | drop ↦ w
    | no_action ↦ w
  ]

  unfoldable pub execute : NodeAddress → World W × List (RouteDecision W) → World W
  execute id (w, decisions) = foldl (execute_one id) w decisions

  unfoldable pub has_deliver : List (RouteDecision W) → Bool
  has_deliver [] = false
  has_deliver (decision ∷ ds) = is_deliver decision.action || has_deliver ds

  -- a Deliver or a backward ant releases what is held for the ant's source
  unfoldable pub accept_ant : NodeAddress → NodeAddress → AntMessage W → World W → World W
  accept_ant id from m w =
      let (w', ds) =
        ask id (λ env r. on_receive_ant env r m from)
          (emit w.now rx_ant id from (int (type_byte m.type)) (int (direction_byte m.direction))
            nought w) in
      execute id (if has_deliver ds || not (is_forward m) then flush_queue id m.src w' else w', ds)

  unfoldable pub recv_ant : NodeAddress → NodeAddress → List ℕ → World W → World W
  recv_ant id from bytes w =
      if not (node_of w id).up
      then w
      else elim (deserialize bytes new_message) [ none ↦ w | some m ↦ accept_ant id from m w ]

  unfoldable pub route_data : NodeAddress → Packet W → NodeAddress → World W → World W
  route_data id packet prev_hop w =
      let p = record packet { prev = prev_hop } in
      let (w', next) = ask_hop id p.dst prev_hop w in
      let held = record p { reconv = Set.contains p.dst (node_of w' id).ever_routed } in
      if next == invalid_address
      then execute id
          (ask id (λ env r. on_data_packet env r p.dst invalid_address) (enqueue id held w'))
      else send_data id p next (mark_routed id p.dst w')

  unfoldable pub note_delivery : ℕ → W → List (Flow W) → List (Flow W)
  note_delivery f delay flows = elim (get_elem? flows f) [
    | none ↦ flows
    | some flow ↦
        set flows f
          (record flow { delivered = flow.delivered + 1; delay_sum = add flow.delay_sum delay })
  ]

  unfoldable pub recv_data : NodeAddress → NodeAddress → Packet W → World W → World W
  recv_data id from p w =
      if not (node_of w id).up
      then drop_packet id node_off w p
      else if p.dst == id
      then emit w.now data_delivered id from (int p.flow) (int p.seq) (sub w.now p.created)
          (record w { flows = note_delivery p.flow (sub w.now p.created) w.flows })
      else route_data id p from w

  -- the MAC reports that an ant, or a packet, was not acknowledged
  unfoldable pub ant_failed : NodeAddress → NodeAddress → World W → World W
  ant_failed from to w =
      if not (node_of w from).up
      then w
      else execute from (
          ask from (λ env r. report_tx_failure env r to invalid_address)
            (emit w.now tx_fail from to (int 0) (int 0) nought w))

  unfoldable pub data_failed : NodeAddress → NodeAddress → Packet W → World W → World W
  data_failed from next p w =
      if not (node_of w from).up
      then drop_packet from node_off w p
      else route_data from p p.prev (
          execute from (
            ask from (λ env r. report_tx_failure env r next p.dst)
              (emit w.now tx_fail from next (int p.flow) (int p.seq) nought w)))

  -- the packet that a flow sends now
  unfoldable pub originated : W → ℕ → Flow W → Packet W
  originated now f flow = record {
    flow = f;
    seq = flow.sent;
    src = flow.src;
    dst = flow.dst;
    ttl = 64;
    hops = 0;
    prev = invalid_address;
    created = now;
    first_queued = nought;
    expire = nought;
    reconv = false;
  }

  unfoldable pub originate : ℕ → Flow W → World W → World W
  originate f flow w =
      let p = originated w.now f flow in
      let w' = record w { flows = set w.flows f (record flow { sent = flow.sent + 1 }) } in
      let noted = ask flow.src (λ env r. (note_data_session env r flow.dst, tt)) w' in
      schedule (add w.now (div one flow.rate)) (flow_due f) (
        if (node_of w flow.src).up
        then route_data flow.src p invalid_address noted.0
        else drop_packet flow.src node_off w' p)

  unfoldable pub flow_tick : ℕ → World W → World W
  flow_tick f w = elim (get_elem? w.flows f) [
    | none ↦ w
    | some flow ↦ if gt w.now flow.stop then w else originate f flow w
  ]
