-- ===== src/World/Radio.antt =====
-- The teaching radio of web/src/sim.cpp: links, losses, the FIFO transmitter, the battery, and the
-- switching of a node.
use ant_hoc_net.Collections.Map
use ant_hoc_net.Address.{NodeAddress, invalid_address}
use ant_hoc_net.Codec.{Patterns, direction_byte, serialize}
use ant_hoc_net.Collections.Key.{nat_key, pair_key}
use ant_hoc_net.Collections.Map.{Map}
use ant_hoc_net.Double.{Double, gt, nought, one}
use ant_hoc_net.Message.{AntMessage}
use ant_hoc_net.Prelude.{
  Bool, List, [], false, foldl, get_elem?, if◌then◌else◌, length, ltb, none, not, some, ℕ, ◌&&◌,
  ◌++◌, ◌+◌, ◌-◌, ◌==◌, ◌^◌, ◌||◌, ◌∷◌,
}
use ant_hoc_net.Router.{type_byte}
use ant_hoc_net.ShortestPath.{start}
use ant_hoc_net.Table.{advance, uniform}
use ant_hoc_net.World.{
  DropReason, Node, Packet, World, ant_arrives, ant_fails, data_arrives, data_fails, drop_packet,
  emit, int, max_of, node_down, node_of, node_off, node_up, put_node, schedule, ttl_reached, tx_ant,
  tx_data,
}

unfoldable pub remember : ℕ × List ℕ → List (ℕ × List ℕ) → List (ℕ × List ℕ)
remember entry ring =
    let all = ring ++ (entry ∷ []) in
    if ltb 512 (length all) then elim all [ [] ↦ [] | e ∷ rest ↦ rest ] else all

-- xray_[i], if that is transmission `id`
unfoldable pub ant_bytes : List (ℕ × List ℕ) → ℕ → List ℕ
ant_bytes [] id = []
ant_bytes (e ∷ rest) id = if ltb id e.0 then [] else elim (get_elem? (e ∷ rest) (id - e.0)) [
  | none ↦ []
  | some found ↦ if found.0 == id then found.1 else []
]

-- an address below 0 is a broadcast
abbrev pub is_broadcast_address : NodeAddress → Bool
is_broadcast_address to = ltb to (2 ^ 31)

module _ {W : Type 0} where
  unfoldable pub set_pending : NodeAddress → List (Packet W) → Node W → World W → World W
  set_pending id pending n w = put_node id (record n { pending = pending }) w

  unfoldable pub filter : (Packet W → Bool) → List (Packet W) → List (Packet W)
  filter test [] = []
  filter test (p ∷ ps) = let rest = filter test ps in if test p then p ∷ rest else rest

module _ {W : Type 0} ⦃d : Double W⦄ where
  open d use {lt, le, eq, literal, of_nat, nan, add, sub, mul, div}

  -- The loop over `pending_` that keeps some of the packets and drops the others in order, in `purge`,
  -- `discardQueue` and `setNodeUp`.
  unfoldable pub shed :
      NodeAddress → (Packet W → Bool) → (Packet W → DropReason) → World W → World W
  shed id keep why w =
      let n = node_of w id in
      foldl (λ w' p. drop_packet id (why p) w' p) (set_pending id (filter keep n.pending) n w)
        (filter (λ p. not (keep p)) n.pending)

  -- the new state is set and told before the held packets are dropped
  unfoldable pub set_node_up : NodeAddress → Bool → World W → World W
  set_node_up id switch w =
      let n = node_of w id in
      let w' =
        emit w.now (if switch then node_up else node_down) id invalid_address (int 0) (int 0) nought
          (put_node id (record n { up = switch }) w) in
      if (n.up && switch) || (not n.up && not switch)
      then w
      else if switch
      then w'
      else shed id (λ p. false) (λ p. node_off) w'

  -- kIdleW all the time since the last update, and kTxW while transmitting
  unfoldable pub battery_used : Node W → W → W → W
  battery_used n now tx_seconds =
      add (mul (literal 82 2) (sub now n.battery_at))
        (mul (sub (literal 114 2) (literal 82 2)) tx_seconds)

  unfoldable pub drain_battery : NodeAddress → W → World W → World W
  drain_battery id tx_seconds w =
      let n = node_of w id in
      let left = sub n.battery (battery_used n w.now tx_seconds) in
      if lt n.battery0 nought || not n.up
      then w
      else if le left nought
      then set_node_up id false (put_node id (record n { battery = nought; battery_at = w.now }) w)
      else put_node id (record n { battery = left; battery_at = w.now }) w

  -- `batteryLeft`, with the state that it leaves
  unfoldable pub battery_left : NodeAddress → World W → W × World W
  battery_left id w =
      let n = node_of w id in
      let w' = drain_battery id nought w in
      if lt n.battery0 nought then (d.neg one, w) else ((node_of w' id).battery, w')

  -- the loss draw at a receiver, made only where losses are on
  unfoldable pub draw_loss : World W → Bool × World W
  draw_loss w =
      if gt w.loss nought
      then (lt (uniform w.loss_rng) w.loss, record w { loss_rng = advance w.loss_rng })
      else (false, w)

  unfoldable pub link_up : World W → NodeAddress → NodeAddress → W → Bool
  link_up w a b t =
      not (a == b) && ((node_of w a).up && ((node_of w b).up && w.medium.linked a b t))

  unfoldable pub tx_duration : World W → ℕ → W
  tx_duration w bytes = div (mul (of_nat bytes) (literal 80 1)) w.bitrate

  -- whether a unicast gets through; no loss is drawn without a link
  unfoldable pub gets_through : NodeAddress → NodeAddress → W → World W → Bool × World W
  gets_through from to t w =
      let (lost, w') = draw_loss w in if link_up w from to t then (not lost, w') else (false, w)

  -- The transmitter takes the frame: when it starts, how long it lasts, and the world after it.
  unfoldable pub transmit : NodeAddress → ℕ → World W → W × W × World W
  transmit id bytes w =
      let n = node_of w id in
      let start = max_of w.now n.busy_until in
      let dur = tx_duration w bytes in
      let w' = put_node id (record n { busy_until = add start dur }) w in
      (start, dur, if le nought n.battery0 then drain_battery id dur w' else w')

  unfoldable pub set_busy : NodeAddress → W → World W → World W
  set_busy id t w = put_node id (record (node_of w id) { busy_until = t }) w

  -- one receiver of a broadcast
  unfoldable pub radiate : NodeAddress → W → W → List ℕ → World W → NodeAddress → World W
  radiate from start dur bytes w to =
      let (lost, w') = draw_loss w in
      let at = add (add start dur) (w.medium.propagation from to start) in
      if not (link_up w from to start)
      then w
      else if lost
      then w'
      else schedule at (ant_arrives to from bytes) w'

  -- when a transmission without an acknowledgement is known to have failed
  abbrev pub fail_time : W → W → W
  fail_time start dur = add start (mul (of_nat 7) dur)

module _ {W : Type 0} ⦃d : Double W⦄ ⦃bits : Patterns W⦄ where
  open d use {add}

  unfoldable pub send_ant : NodeAddress → AntMessage W → NodeAddress → World W → World W
  send_ant from m to w =
      let bytes = serialize m in
      let (start, dur, w1) =
        transmit from (length bytes + 28) (record w { xray = remember (w.ant_tx, bytes) w.xray }) in
      let tell : NodeAddress → W → World W → World W = λ peer at.
        emit w.now tx_ant from peer (int (type_byte m.type)) (int (direction_byte m.direction))
          at in
      let (through, w2) = gets_through from to start w1 in
      let at = add (add start dur) (w2.medium.propagation from to start) in
      let fail_at = fail_time start dur in
      if not (node_of w from).up
      then w
      else if is_broadcast_address to
      then foldl (radiate from start dur bytes) (tell invalid_address (add start dur) w1)
          (Map.keys w1.nodes)
      else if through
      then schedule at (ant_arrives to from bytes) (tell to at w2)
      else schedule fail_at (ant_fails from to) (tell to fail_at (set_busy from fail_at w2))

  unfoldable pub send_data : NodeAddress → Packet W → NodeAddress → World W → World W
  send_data from packet next w =
      let p = record packet { ttl = packet.ttl - 1 } in
      let (start, dur, w1) = transmit from 92 w in
      let (through, w2) = gets_through from next start w1 in
      let tell : W → World W → World W =
        λ at. emit w.now tx_data from next (int p.flow) (int p.seq) at in
      let at = add (add start dur) (w2.medium.propagation from next start) in
      let fail_at = fail_time start dur in
      if p.ttl == 0
      then drop_packet from ttl_reached w p
      else if through
      then schedule at (data_arrives next from (record p { hops = p.hops + 1 })) (tell at w2)
      else schedule fail_at (data_fails from next p) (tell fail_at (set_busy from fail_at w2))
