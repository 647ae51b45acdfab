-- ===== src/World/Moves.antt =====
-- What each operation of web/src/sim.cpp does to the places of a packet: the radio and the queue.
use ant_hoc_net.Collections.Map
use ant_hoc_net.Address.{NodeAddress, invalid_address}
use ant_hoc_net.Collections.Key.{nat_key, pair_key}
use ant_hoc_net.Collections.Map.{Map}
use ant_hoc_net.Collections.Visit.{foldl_frame}
use ant_hoc_net.Double.{Double, nought}
use ant_hoc_net.Prelude.{
  Bool, List, Option-cases, [], ap, arith, false, foldl, if◌then◌else◌, inl, inr, not, refl, true,
  ℕ, ◌+◌, ◌∙◌, ◌∷◌, ◌≡◌,
}
use ant_hoc_net.Router.{Notice, Ports, Router, ant_received, ant_sent, route_changed}
use ant_hoc_net.World.{
  Action, DropReason, Ev, LogValue, Node, Packet, World, ant_arrives, ask, boot_node, data_dropped,
  drop_packet, emit, int, max_of, node_down, node_of, node_off, node_up, ports_of, put_node,
  reason_code, report, route_add, route_del, schedule,
}
use ant_hoc_net.World.Places.{
  carried, ended, ended-append, held, held-filter, held_at, in_flight, is_end, is_it, places,
  waiting-insert,
}
use ant_hoc_net.World.Radio.{
  battery_used, drain_battery, draw_loss, filter, gets_through, radiate, set_busy, set_node_up,
  set_pending, shed, transmit, tx_duration,
}
use ant_hoc_net.World.Setup.{start}

module _ {W : Type 0} (f s : ℕ) where
  pub places-schedule :
      (t : W) (fn : Action W) (w : World W)
      → places f s (schedule t fn w) ≡ carried f s fn + places f s w
  unfolding places schedule in_flight
  places-schedule t fn w = omega arith

  pub places-emit :
      (t : W) (kind : Ev) (id : NodeAddress) (peer a b : LogValue) (v : W) (w : World W)
      → is_end kind ≡ false
      → places f s (emit t kind id peer a b v w) ≡ places f s w
  unfolding places emit ended
  places-emit t kind id peer a b v w h =
      let e =
        ended-append f s w.log
          (record { t = t; kind = kind; node = id; peer = peer; a = a; b = b; v = v } ∷ []) in
      omega (arith, rw h at e)

  pub places-emit_end :
      (t : W) (kind : Ev) (id : NodeAddress) (peer : LogValue) (v : W) (p : Packet W) (w : World W)
      → is_end kind ≡ true
      → places f s (emit t kind id peer (int p.flow) (int p.seq) v w) ≡ places f s w + is_it f s p
  unfolding places emit ended
  places-emit_end t kind id peer v p w h =
      let e = ended-append f s w.log (
        record { t = t; kind = kind; node = id; peer = peer; a = int p.flow; b = int p.seq; v = v }
        ∷ []) in
      ground (arith, rw h at e)

  module _ ⦃d : Double W⦄ where
    pub places-drop_packet :
        (id : NodeAddress) (why : DropReason) (p : Packet W) (w : World W)
        → places f s (drop_packet id why w p) ≡ places f s w + is_it f s p
    unfolding drop_packet
    places-drop_packet id why p w =
        places-emit_end w.now data_dropped id (int (reason_code why)) nought p w refl

    pub held-node_of :
        (id : NodeAddress) (w : World W) → held f s (node_of w id).pending ≡ held_at f s w.nodes id
    unfolding node_of held_at held boot_node
    held-node_of id w = elim (Option-cases (Map.lookup id w.nodes)) [
      | inl e ↦ rw (node_of, held_at, e) refl
      | inr (n, e) ↦ rw (node_of, held_at, e) refl
    ]

    pub places-set_pending :
        (id : NodeAddress) (ps : List (Packet W)) (n : Node W) (w : World W)
        → places f s (set_pending id ps n w) + held f s (node_of w id).pending
          ≡ places f s w + held f s ps
    unfolding set_pending put_node places
    places-set_pending id ps n w =
        omega (arith, waiting-insert f s id (record n { pending = ps }) w.nodes, held-node_of id w)

    -- a node that keeps its packets
    pub places-put_node :
        (id : NodeAddress) (n : Node W) (w : World W)
        → n.pending ≡ (node_of w id).pending
        → places f s (put_node id n w) ≡ places f s w
    unfolding put_node places
    places-put_node id n w h =
        omega (arith, waiting-insert f s id n w.nodes, held-node_of id w, ap (held f s) h)

    pub places-report :
        (id : NodeAddress) (w : World W) (notice : Notice)
        → places f s (report id w notice) ≡ places f s w
    unfolding report
    places-report id w (route_changed dest nb added) =
        places-emit w.now (if added then route_add else route_del) id nb dest (int 0) nought w
          (ground arith)
    places-report id w (ant_sent type direction to_all) = refl
    places-report id w (ant_received type direction) = refl

    pub places-ask :
        {A : Type 0} (id : NodeAddress) (call : Ports W → Router W → Router W × A) (w : World W)
        → places f s (ask id call w).0 ≡ places f s w
    unfolding ask
    places-ask id call w =
        let n = node_of w id in
        let r = (call (ports_of w n) n.logic).0 in
        foldl_frame (places f s) (report id) (places-report id)
          (put_node id (record n { logic = record r { notices = [] } }) w) r.notices
        ∙ places-put_node id (record n { logic = record r { notices = [] } }) w refl

    pub places-drops :
        (id : NodeAddress) (why : Packet W → DropReason) (ps : List (Packet W)) (w : World W)
        → places f s (foldl (λ w' p. drop_packet id (why p) w' p) w ps) ≡ places f s w + held f s ps
    unfolding held
    places-drops id why [] w = omega arith
    places-drops id why (p ∷ ps) w = omega (
      arith,
      places-drops id why ps (drop_packet id (why p) w p),
      places-drop_packet id (why p) p w,
    )

    pub places-shed :
        (id : NodeAddress) (keep : Packet W → Bool) (why : Packet W → DropReason) (w : World W)
        → places f s (shed id keep why w) ≡ places f s w
    unfolding shed
    places-shed id keep why w =
        let n = node_of w id in
        let kept = filter keep n.pending in
        omega (
          arith,
          places-drops id why (filter (λ p. not (keep p)) n.pending) (set_pending id kept n w),
          places-set_pending id kept n w,
          held-filter f s keep n.pending,
        )

    pub places-set_node_up :
        (id : NodeAddress) (switch : Bool) (w : World W)
        → places f s (set_node_up id switch w) ≡ places f s w
    unfolding set_node_up
    places-set_node_up id switch w =
        let n = record (node_of w id) { up = switch } in
        let put = put_node id n w in
        let told =
          emit w.now (if switch then node_up else node_down) id invalid_address (int 0) (int 0)
            nought put in
        ground (
          arith,
          places-shed id (λ p. false) (λ p. node_off) told,
          places-emit w.now node_up id invalid_address (int 0) (int 0) nought put refl,
          places-emit w.now node_down id invalid_address (int 0) (int 0) nought put refl,
          places-put_node id n w refl,
        )

    pub places-drain_battery :
        (id : NodeAddress) (tx : W) (w : World W)
        → places f s (drain_battery id tx w) ≡ places f s w
    unfolding drain_battery
    places-drain_battery id tx w =
        let n = node_of w id in
        ground (
          arith,
          places-set_node_up id false
              (put_node id (record n { battery = nought; battery_at = w.now }) w),
          places-put_node id (record n { battery = nought; battery_at = w.now }) w refl,
          places-put_node id
              (record n { battery = d.sub n.battery (battery_used n w.now tx); battery_at = w.now })
              w refl,
        )

    pub places-draw_loss : (w : World W) → places f s (draw_loss w).1 ≡ places f s w
    unfolding draw_loss places
    places-draw_loss w = ground arith

    pub places-gets_through :
        (from to : NodeAddress) (t : W) (w : World W)
        → places f s (gets_through from to t w).1 ≡ places f s w
    unfolding gets_through
    places-gets_through from to t w = ground (arith, places-draw_loss w)

    pub places-transmit :
        (id : NodeAddress) (bytes : ℕ) (w : World W)
        → places f s (transmit id bytes w).2 ≡ places f s w
    unfolding transmit
    places-transmit id bytes w =
        let n = node_of w id in
        let dur = tx_duration w bytes in
        let n' = record n { busy_until = d.add (max_of w.now n.busy_until) dur } in
        ground (arith, places-drain_battery id dur (put_node id n' w), places-put_node id n' w refl)

    pub places-set_busy :
        (id : NodeAddress) (t : W) (w : World W) → places f s (set_busy id t w) ≡ places f s w
    unfolding set_busy
    places-set_busy id t w = places-put_node id (record (node_of w id) { busy_until = t }) w refl

    pub places-radiate :
        (from : NodeAddress) (start dur : W) (bytes : List ℕ) (w : World W) (to : NodeAddress)
        → places f s (radiate from start dur bytes w to) ≡ places f s w
    unfolding radiate carried
    places-radiate from start dur bytes w to =
        let at = d.add (d.add start dur) (w.medium.propagation from to start) in
        ground (
          arith,
          places-draw_loss w,
          places-schedule at (ant_arrives to from bytes) (draw_loss w).1,
        )
