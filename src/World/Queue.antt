-- ===== src/World/Queue.antt =====
-- The packets that a node of web/src/sim.cpp holds while it has no route.
use ant_hoc_net.Collections.Set
use ant_hoc_net.Address.{NodeAddress, invalid_address}
use ant_hoc_net.Codec.{Patterns}
use ant_hoc_net.Collections.Key.{nat_key, pair_key}
use ant_hoc_net.Double.{Double, gt, nought}
use ant_hoc_net.Prelude.{[], foldl, if◌then◌else◌, length, ltb, not, ℕ, ◌&&◌, ◌++◌, ◌==◌, ◌∷◌}
use ant_hoc_net.Router.Links.{next_hop_for_data}
use ant_hoc_net.World.{
  DropReason, Packet, World, ask, data_queued, drop_packet, emit, hold_cap, int, node_of, purge_due,
  put_node, queue_timeout, schedule,
}
use ant_hoc_net.World.Radio.{filter, send_data, set_pending, shed}

-- kQueueLen
abbrev pub queue_len : ℕ
queue_len = 64

module _ {W : Type 0} ⦃d : Double W⦄ where
  open d use {lt, eq, literal, add}

  unfoldable pub purge : NodeAddress → World W → World W
  purge id w =
      shed id (λ p. gt p.expire w.now) (λ p. if p.reconv then hold_cap else queue_timeout) w

  unfoldable pub discard_queue : NodeAddress → NodeAddress → DropReason → World W → World W
  discard_queue id dst why w = shed id (λ p. not (p.dst == dst)) (λ p. why) w

  -- a full queue drops its oldest packet
  unfoldable pub make_room : NodeAddress → World W → World W
  make_room id w =
      let n = node_of w id in
      elim n.pending [
        | [] ↦ w
        | old ∷ rest ↦
            if ltb (length n.pending) queue_len
            then w
            else drop_packet id queue_timeout (set_pending id rest n w) old
      ]

  -- when a packet was first held, and when it is given up
  unfoldable pub stamped : W → Packet W → Packet W
  stamped now p =
      let queued = if eq p.first_queued nought then now else p.first_queued in
      let timeout = add now (literal 30 1) in
      let held = add queued (literal 2 1) in
      record p {
        first_queued = queued;
        expire = if p.reconv && lt held timeout then held else timeout;
      }

  unfoldable pub hold : NodeAddress → Packet W → World W → World W
  hold id p w =
      let n = node_of w id in
      schedule p.expire (purge_due id) (
        emit w.now data_queued id p.dst (int p.flow) (int p.seq) nought
          (set_pending id (n.pending ++ (p ∷ [])) n w))

  unfoldable pub enqueue : NodeAddress → Packet W → World W → World W
  enqueue id p w = hold id (stamped w.now p) (make_room id (purge id w))

module _ {W : Type 0} ⦃d : Double W⦄ ⦃bits : Patterns W⦄ where
  unfoldable pub mark_routed : NodeAddress → NodeAddress → World W → World W
  mark_routed id dst w =
      let n = node_of w id in
      put_node id (record n { ever_routed = Set.insert dst n.ever_routed }) w

  -- the core's `nextHopForData`
  unfoldable pub ask_hop : NodeAddress → NodeAddress → NodeAddress → World W → World W × NodeAddress
  ask_hop id dst prev_hop w =
      ask id (λ env r. let (next, r') = next_hop_for_data env r dst prev_hop in (r', next)) w

  -- one packet of a flush
  unfoldable pub release : NodeAddress → NodeAddress → World W → Packet W → World W
  release id dst w p =
      let (w', next) = ask_hop id dst invalid_address w in
      if next == invalid_address
      then enqueue id p w'
      else send_data id p next (mark_routed id dst w')

  unfoldable pub flush_queue : NodeAddress → NodeAddress → World W → World W
  flush_queue id dst w =
      let w' = purge id w in
      let n = node_of w' id in
      foldl (release id dst) (set_pending id (filter (λ p. not (p.dst == dst)) n.pending) n w')
        (filter (λ p. p.dst == dst) n.pending)
