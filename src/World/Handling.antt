-- ===== src/World/Handling.antt =====
-- What the handlers of web/src/sim.cpp do to the places of a packet: a packet that is handed to one
-- is in one more place afterwards, and nothing else moves.
use ant_hoc_net.Collections.Map
use ant_hoc_net.Collections.Set
use ant_hoc_net.Address.{NodeAddress, invalid_address}
use ant_hoc_net.Codec.{Patterns, direction_byte, serialize}
use ant_hoc_net.Collections.Key.{nat_key, pair_key}
use ant_hoc_net.Collections.Map.{Map}
use ant_hoc_net.Collections.Visit.{foldl_frame}
use ant_hoc_net.Double.{Double, gt, nought}
use ant_hoc_net.Message.{AntMessage}
use ant_hoc_net.Prelude.{
  List, List-cases, [], ap, arith, foldl, if_Holds, if◌then◌else◌, inl, inr, length, ltb, not, refl,
  ℕ, ◌++◌, ◌+◌, ◌-◌, ◌==◌, ◌∷◌, ◌≡◌,
}
use ant_hoc_net.Router.{type_byte}
use ant_hoc_net.Router.Links.{next_hop_for_data}
use ant_hoc_net.World.{
  DropReason, Packet, World, ant_arrives, ant_fails, data_arrives, data_fails, data_queued,
  drop_packet, emit, hold_cap, int, node_of, purge_due, queue_timeout, ttl_reached, tx_ant, tx_data,
}
use ant_hoc_net.World.Moves.{
  places-ask, places-drop_packet, places-emit, places-gets_through, places-put_node, places-radiate,
  places-schedule, places-set_busy, places-set_pending, places-shed, places-transmit,
}
use ant_hoc_net.World.Places.{carried, held, held-append, held-filter, is_it, places}
use ant_hoc_net.World.Queue.{
  ask_hop, discard_queue, enqueue, flush_queue, hold, make_room, mark_routed, purge, queue_len,
  release, stamped,
}
use ant_hoc_net.World.Radio.{
  fail_time, filter, gets_through, radiate, remember, send_ant, send_data, set_busy, set_pending,
  transmit,
}

module _ {W : Type 0} ⦃d : Double W⦄ ⦃bits : Patterns W⦄ (f s : ℕ) where
  places-remember :
      (w : World W) (ring : List (ℕ × List ℕ))
      → places f s (record w { xray = ring }) ≡ places f s w
  unfolding places
  places-remember w ring = refl

  pub places-send_ant :
      (from : NodeAddress) (m : AntMessage W) (to : NodeAddress) (w : World W)
      → places f s (send_ant from m to w) ≡ places f s w
  unfolding send_ant carried
  places-send_ant from m to w =
      let bytes = serialize m in
      let sending =
        transmit from (length bytes + 28) (record w { xray = remember (w.ant_tx, bytes) w.xray }) in
      let start = sending.0 in
      let dur = sending.1 in
      let w1 = sending.2 in
      let w2 = (gets_through from to start w1).1 in
      let at = d.add (d.add start dur) (w2.medium.propagation from to start) in
      let fail_at = fail_time start dur in
      let type = int (type_byte m.type) in
      let direction = int (direction_byte m.direction) in
      let tell : NodeAddress → W → World W → World W =
        λ peer t. emit w.now tx_ant from peer type direction t in
      let busy = set_busy from fail_at w2 in
      ground (
        arith,
        places-transmit f s from (length bytes + 28)
            (record w { xray = remember (w.ant_tx, bytes) w.xray }),
        places-remember w (remember (w.ant_tx, bytes) w.xray),
        foldl_frame (places f s) (radiate from start dur bytes)
            (places-radiate f s from start dur bytes) (tell invalid_address (d.add start dur) w1)
            (Map.keys w1.nodes),
        places-emit f s w.now tx_ant from invalid_address type direction (d.add start dur) w1 refl,
        places-gets_through f s from to start w1,
        places-emit f s w.now tx_ant from to type direction at w2 refl,
        places-schedule f s at (ant_arrives to from bytes) (tell to at w2),
        places-set_busy f s from fail_at w2,
        places-emit f s w.now tx_ant from to type direction fail_at busy refl,
        places-schedule f s fail_at (ant_fails from to) (tell to fail_at busy),
      )

  pub places-send_data :
      (from : NodeAddress) (p : Packet W) (next : NodeAddress) (w : World W)
      → places f s (send_data from p next w) ≡ places f s w + is_it f s p
  unfolding send_data carried
  places-send_data from packet next w =
      let p = record packet { ttl = packet.ttl - 1 } in
      let sending = transmit from 92 w in
      let start = sending.0 in
      let dur = sending.1 in
      let w1 = sending.2 in
      let w2 = (gets_through from next start w1).1 in
      let at = d.add (d.add start dur) (w2.medium.propagation from next start) in
      let fail_at = fail_time start dur in
      let tell : W → World W → World W =
        λ t. emit w.now tx_data from next (int p.flow) (int p.seq) t in
      ground (
        arith,
        places-drop_packet f s from ttl_reached p w,
        places-transmit f s from 92 w,
        places-gets_through f s from next start w1,
        places-emit f s w.now tx_data from next (int p.flow) (int p.seq) at w2 refl,
        places-schedule f s at (data_arrives next from (record p { hops = p.hops + 1 }))
            (tell at w2),
        places-set_busy f s from fail_at w2,
        places-emit f s w.now tx_data from next (int p.flow) (int p.seq) fail_at
            (set_busy from fail_at w2) refl,
        places-schedule f s fail_at (data_fails from next p)
            (tell fail_at (set_busy from fail_at w2)),
      )

  pub places-purge : (id : NodeAddress) (w : World W) → places f s (purge id w) ≡ places f s w
  unfolding purge
  places-purge id w =
      places-shed f s id (λ p. gt p.expire w.now)
        (λ p. if p.reconv then hold_cap else queue_timeout) w

  pub places-discard_queue :
      (id dst : NodeAddress) (why : DropReason) (w : World W)
      → places f s (discard_queue id dst why w) ≡ places f s w
  unfolding discard_queue
  places-discard_queue id dst why w = places-shed f s id (λ p. not (p.dst == dst)) (λ p. why) w

  places-dequeue :
      (id : NodeAddress) (old : Packet W) (rest : List (Packet W)) (w : World W)
      → (node_of w id).pending ≡ old ∷ rest
      → places f s (drop_packet id queue_timeout (set_pending id rest (node_of w id) w) old)
        ≡ places f s w
  unfolding held
  places-dequeue id old rest w h = omega (
    arith,
    places-drop_packet f s id queue_timeout old (set_pending id rest (node_of w id) w),
    places-set_pending f s id rest (node_of w id) w,
    ap (held f s) h,
  )

  places-make_room : (id : NodeAddress) (w : World W) → places f s (make_room id w) ≡ places f s w
  unfolding make_room
  places-make_room id w = elim (List-cases (node_of w id).pending) [
    | inl e ↦ rw (make_room, e) refl
    | inr (old, rest, e) ↦
        rw (make_room, e)
          (if_Holds (λ (w' : World W). places f s w' ≡ places f s w)
            (ltb (length (node_of w id).pending) queue_len) refl (places-dequeue id old rest w e))
  ]

  places-hold :
      (id : NodeAddress) (p : Packet W) (w : World W)
      → places f s (hold id p w) ≡ places f s w + is_it f s p
  unfolding hold held carried
  places-hold id p w =
      let n = node_of w id in
      let kept = set_pending id (n.pending ++ (p ∷ [])) n w in
      let told = emit w.now data_queued id p.dst (int p.flow) (int p.seq) nought kept in
      omega (
        arith,
        places-schedule f s p.expire (purge_due id) told,
        places-emit f s w.now data_queued id p.dst (int p.flow) (int p.seq) nought kept refl,
        places-set_pending f s id (n.pending ++ (p ∷ [])) n w,
        held-append f s n.pending (p ∷ []),
      )

  pub places-enqueue :
      (id : NodeAddress) (p : Packet W) (w : World W)
      → places f s (enqueue id p w) ≡ places f s w + is_it f s p
  unfolding enqueue stamped
  places-enqueue id p w = omega (
    arith,
    places-hold id (stamped w.now p) (make_room id (purge id w)),
    places-make_room id (purge id w),
    places-purge id w,
  )

  pub places-mark_routed :
      (id dst : NodeAddress) (w : World W) → places f s (mark_routed id dst w) ≡ places f s w
  unfolding mark_routed
  places-mark_routed id dst w =
      let n = node_of w id in
      places-put_node f s id (record n { ever_routed = Set.insert dst n.ever_routed }) w refl

  pub places-ask_hop :
      (id dst prev_hop : NodeAddress) (w : World W)
      → places f s (ask_hop id dst prev_hop w).0 ≡ places f s w
  unfolding ask_hop
  places-ask_hop id dst prev_hop w =
      places-ask f s id
        (λ env r. let (next, r') = next_hop_for_data env r dst prev_hop in (r', next)) w

  places-release :
      (id dst : NodeAddress) (w : World W) (p : Packet W)
      → places f s (release id dst w p) ≡ places f s w + is_it f s p
  unfolding release
  places-release id dst w p =
      let asked = ask_hop id dst invalid_address w in
      ground (
        arith,
        places-ask_hop id dst invalid_address w,
        places-enqueue id p asked.0,
        places-send_data id p asked.1 (mark_routed id dst asked.0),
        places-mark_routed id dst asked.0,
      )

  places-releases :
      (id dst : NodeAddress) (ps : List (Packet W)) (w : World W)
      → places f s (foldl (release id dst) w ps) ≡ places f s w + held f s ps
  unfolding held
  places-releases id dst [] w = omega arith
  places-releases id dst (p ∷ ps) w =
      omega (arith, places-releases id dst ps (release id dst w p), places-release id dst w p)

  pub places-flush_queue :
      (id dst : NodeAddress) (w : World W) → places f s (flush_queue id dst w) ≡ places f s w
  unfolding flush_queue
  places-flush_queue id dst w =
      let w' = purge id w in
      let n = node_of w' id in
      let others = filter (λ p. not (p.dst == dst)) n.pending in
      omega (
        arith,
        places-releases id dst (filter (λ p. p.dst == dst) n.pending) (set_pending id others n w'),
        places-set_pending f s id others n w',
        held-filter f s (λ p. p.dst == dst) n.pending,
        places-purge id w,
      )
