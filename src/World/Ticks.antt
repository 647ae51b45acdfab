-- ===== src/World/Ticks.antt =====
-- What the timers, the flows and the loop of web/src/sim.cpp do to the places of a packet.
use ant_hoc_net.Address.{NodeAddress, invalid_address}
use ant_hoc_net.Codec.{Patterns}
use ant_hoc_net.Collections.Visit.{foldl_frame}
use ant_hoc_net.Double.{Double, nought, one}
use ant_hoc_net.Message.{AntMessage, reactive}
use ant_hoc_net.Prelude.{
  ==_iff, Bool, Bool-cases, List, List-cases, Option-cases, [], ap, arith, false, get_elem?,
  get_elem?-set, if◌then◌else◌, inl, inr, none, refl, set, some, subst, true, ℕ, ◌+◌, ◌==◌, ◌∙◌,
  ◌∷◌, ◌≡◌,
}
use ant_hoc_net.Router.{Outcome, Ports, Router}
use ant_hoc_net.Router.Ants.{create_forward_ant}
use ant_hoc_net.Router.Failure.{on_maintenance_tick}
use ant_hoc_net.Router.Links.{select_next_hop}
use ant_hoc_net.Router.Sessions.{create_hello_ant, create_proactive_ants, note_data_session}
use ant_hoc_net.Table.{advance}
use ant_hoc_net.World.{
  Action, Flow, Scheduled, World, ant_arrives, ant_fails, ask, battery_due, data_arrives,
  data_fails, drop_packet, flow_due, hello_due, later, node_of, node_off, pop_first, proactive_due,
  purge_due, retry_due, switch_due,
}
use ant_hoc_net.World.Adapter.{execute, flow_tick, originate, originated, route_data}
use ant_hoc_net.World.Clock.{
  battery_timer, beacon, held_for, hello_timer, jittered, perform, proactive_timer, probe, rearm,
  retry, retry_one, retry_timer, send_probe, step,
}
use ant_hoc_net.World.Events.{
  places-ant_failed, places-data_failed, places-execute, places-flows, places-recv_ant,
  places-recv_data, places-route_data,
}
use ant_hoc_net.World.Handling.{places-ask_hop, places-flush_queue, places-purge, places-send_ant}
use ant_hoc_net.World.Moves.{
  places-ask, places-drain_battery, places-drop_packet, places-put_node, places-schedule,
  places-set_node_up,
}
use ant_hoc_net.World.Places.{carried, in_flight, is_it, places, unsent}
use ant_hoc_net.World.Queue.{ask_hop, purge}
use ant_hoc_net.World.Radio.{drain_battery}

module _ {W : Type 0} ⦃d : Double W⦄ (f s : ℕ) where
  pub places-rearm :
      (id : NodeAddress) (interval : W) (is_first : Bool) (fn : Action W) (w : World W)
      → places f s (rearm id interval is_first fn w) ≡ carried f s fn + places f s w
  unfolding rearm jittered
  places-rearm id interval is_first fn w =
      let n = node_of w id in
      let drawn = jittered id interval is_first w in
      omega (
        arith,
        places-schedule f s (d.add w.now drawn.0) fn drawn.1,
        places-put_node f s id (record n { timer_rng = advance n.timer_rng }) w refl,
      )

  in_flight-pop_first :
      (e : Scheduled W) (es : List (Scheduled W))
      → carried f s (pop_first e es).0.fn + in_flight f s (pop_first e es).1
        ≡ carried f s e.fn + in_flight f s es
  unfolding pop_first in_flight
  in_flight-pop_first e [] = refl
  in_flight-pop_first e (g ∷ es) = elim (Bool-cases (later e g)) [
    | inl h ↦ rw h (omega (arith, in_flight-pop_first g es))
    | inr h ↦ rw h (omega (arith, in_flight-pop_first e es))
  ]

module _ {W : Type 0} ⦃d : Double W⦄ ⦃bits : Patterns W⦄ (f s : ℕ) where
  unsent-originated :
      (w : World W) (g : ℕ) (flow : Flow W)
      → get_elem? w.flows g ≡ some flow
      → unsent f s (set w.flows g (record flow { sent = flow.sent + 1 }))
          + is_it f s (originated w.now g flow)
        ≡ unsent f s w.flows
  unfolding unsent originated
  unsent-originated w g flow e =
      let sending = record flow { sent = flow.sent + 1 } in
      elim (Bool-cases (g == f)) [
        | inl h ↦
            let here : get_elem? w.flows f ≡ some flow =
              subst (λ i. get_elem? w.flows i ≡ some flow) ((==_iff g f).0 h) e in
            rw (unsent, get_elem?-set w.flows g f sending flow e, h, here) (ground arith)
        | inr h ↦ rw (unsent, get_elem?-set w.flows g f sending flow e, h) (omega arith)
      ]

  -- the packet that the tick originates leaves the flow and is in one other place
  places-originate :
      (g : ℕ) (flow : Flow W) (w : World W)
      → get_elem? w.flows g ≡ some flow
      → places f s (originate g flow w) ≡ places f s w
  unfolding originate carried
  places-originate g flow w e =
      let p = originated w.now g flow in
      let w' = record w { flows = set w.flows g (record flow { sent = flow.sent + 1 }) } in
      let call : Ports W → Router W → Router W × Unit {0} =
        λ env r. (note_data_session env r flow.dst, tt) in
      let noted = (ask flow.src call w').0 in
      let routed = route_data flow.src p invalid_address noted in
      let lost = drop_packet flow.src node_off w' p in
      let again = d.add w.now (d.div one flow.rate) in
      ground (
        arith,
        places-schedule f s again (flow_due g) routed,
        places-schedule f s again (flow_due g) lost,
        places-route_data f s flow.src p invalid_address noted,
        places-ask f s flow.src call w',
        places-drop_packet f s flow.src node_off p w',
        places-flows f s w w'.flows,
        unsent-originated w g flow e,
      )

  places-flow_tick : (g : ℕ) (w : World W) → places f s (flow_tick g w) ≡ places f s w
  unfolding flow_tick
  places-flow_tick g w = elim (Option-cases (get_elem? w.flows g)) [
    | inl e ↦ rw (flow_tick, e) refl
    | inr (flow, e) ↦ rw (flow_tick, e) (ground (arith, places-originate g flow w e))
  ]

  places-beacon : (id : NodeAddress) (w : World W) → places f s (beacon id w) ≡ places f s w
  unfolding beacon
  places-beacon id w =
      let tick : Ports W → Router W → Outcome W = λ env r. on_maintenance_tick env r in
      let greet : Ports W → Router W → Router W × AntMessage W =
        λ env r. let (ant, r') = create_hello_ant env r r.config.max_hello_adverts in (r', ant) in
      let w1 = execute id (ask id tick w) in
      let asked = ask id greet w1 in
      omega (
        arith,
        places-send_ant f s id asked.1 invalid_address asked.0,
        places-ask f s id greet w1,
        places-execute f s id (ask id tick w).0 (ask id tick w).1,
        places-ask f s id tick w,
      )

  places-hello_timer :
      (id : NodeAddress) (w : World W) → places f s (hello_timer id w) ≡ places f s w
  unfolding hello_timer carried
  places-hello_timer id w = ground (
    arith,
    places-rearm f s id w.config.hello_interval false (hello_due id)
        (if (node_of w id).up then beacon id w else w),
    places-beacon id w,
  )

  places-send_probe :
      (id : NodeAddress) (w : World W) (ant : AntMessage W)
      → places f s (send_probe id w ant) ≡ places f s w
  unfolding send_probe
  places-send_probe id w ant =
      let choice : Ports W → Router W → Router W × NodeAddress =
        λ env r. let (next, r') = select_next_hop env r ant.dst true in (r', next) in
      let asked = ask id choice w in
      ground (
        arith,
        places-send_ant f s id ant invalid_address asked.0,
        places-send_ant f s id ant asked.1 asked.0,
        places-ask f s id choice w,
      )

  places-probe : (id : NodeAddress) (w : World W) → places f s (probe id w) ≡ places f s w
  unfolding probe
  places-probe id w =
      let call : Ports W → Router W → Router W × List (AntMessage W) =
        λ env r. create_proactive_ants env r in
      let asked = ask id call w in
      foldl_frame (places f s) (send_probe id) (places-send_probe id) asked.0 asked.1
      ∙ places-ask f s id call w

  places-proactive_timer :
      (id : NodeAddress) (w : World W) → places f s (proactive_timer id w) ≡ places f s w
  unfolding proactive_timer carried
  places-proactive_timer id w = ground (
    arith,
    places-rearm f s id w.config.proactive_interval false (proactive_due id)
        (if (node_of w id).up then probe id w else w),
    places-probe id w,
  )

  places-retry_one :
      (id : NodeAddress) (w : World W) (dst : NodeAddress)
      → places f s (retry_one id w dst) ≡ places f s w
  unfolding retry_one
  places-retry_one id w dst =
      let call : Ports W → Router W → Router W × AntMessage W =
        λ env r. let (ant, r') = create_forward_ant env r reactive dst in (r', ant) in
      let w1 = (ask_hop id dst invalid_address w).0 in
      ground (
        arith,
        places-ask_hop f s id dst invalid_address w,
        places-ask f s id call w1,
        places-send_ant f s id (ask id call w1).1 invalid_address (ask id call w1).0,
        places-flush_queue f s id dst w1,
      )

  places-retry : (id : NodeAddress) (w : World W) → places f s (retry id w) ≡ places f s w
  unfolding retry
  places-retry id w =
      let w' = purge id w in
      foldl_frame (places f s) (retry_one id) (places-retry_one id) w'
        (held_for [] (node_of w' id).pending)
      ∙ places-purge f s id w

  places-retry_timer :
      (id : NodeAddress) (w : World W) → places f s (retry_timer id w) ≡ places f s w
  unfolding retry_timer carried
  places-retry_timer id w = ground (
    arith,
    places-schedule f s (d.add w.now (d.literal 25 2)) (retry_due id)
        (if (node_of w id).up then retry id w else w),
    places-retry id w,
  )

  places-battery_timer :
      (id : NodeAddress) (w : World W) → places f s (battery_timer id w) ≡ places f s w
  unfolding battery_timer carried
  places-battery_timer id w =
      let w' = drain_battery id nought w in
      ground (
        arith,
        places-schedule f s (d.add w.now (d.literal 10 1)) (battery_due id) w',
        places-drain_battery f s id nought w,
      )

  -- an event that carries the packet leaves it in another place
  places-perform :
      (fn : Action W) (w : World W) → places f s (perform fn w) ≡ places f s w + carried f s fn
  unfolding perform carried
  places-perform (ant_arrives to from bytes) w = omega (arith, places-recv_ant f s to from bytes w)
  places-perform (data_arrives to from p) w = places-recv_data f s to from p w
  places-perform (ant_fails from to) w = omega (arith, places-ant_failed f s from to w)
  places-perform (data_fails from next p) w = places-data_failed f s from next p w
  places-perform (purge_due id) w = omega (arith, places-purge f s id w)
  places-perform (hello_due id) w = omega (arith, places-hello_timer id w)
  places-perform (proactive_due id) w = omega (arith, places-proactive_timer id w)
  places-perform (retry_due id) w = omega (arith, places-retry_timer id w)
  places-perform (battery_due id) w = omega (arith, places-battery_timer id w)
  places-perform (flow_due g) w = omega (arith, places-flow_tick g w)
  places-perform (switch_due id switch) w = omega (arith, places-set_node_up f s id switch w)

  places-run_first :
      (w : World W) (e : Scheduled W) (es : List (Scheduled W))
      → w.events ≡ e ∷ es
      → places f s (
          perform
            (pop_first e es).0.fn
            (record w { events = (pop_first e es).1; now = (pop_first e es).0.t }))
        ≡ places f s w
  unfolding places in_flight
  places-run_first w e es h =
      let popped = pop_first e es in
      omega (
        arith,
        places-perform popped.0.fn (record w { events = popped.1; now = popped.0.t }),
        in_flight-pop_first f s e es,
        ap (in_flight f s) h,
      )

  pub places-step :
      (until : W) (w w' : World W) → step until w ≡ some w' → places f s w' ≡ places f s w
  unfolding step
  places-step until w w' h = elim (List-cases w.events) [
    | inl e ↦ (let none_due : none ≡ some w' = rw (step, e) at h in absurd cc)
    | inr (e, es, q) ↦
        let popped = pop_first e es in
        let after = perform popped.0.fn (record w { events = popped.1; now = popped.0.t }) in
        let due : (if d.le popped.0.t until then some after else none) ≡ some w' =
          rw (step, q) at h in
        elim (Bool-cases (d.le popped.0.t until)) [
          | inl c ↦
              let fired : some after ≡ some w' = rw c at due in
              let same : after ≡ w' = cc in
              subst (λ v. places f s v ≡ places f s w) same (places-run_first w e es q)
          | inr c ↦ (let none_due : none ≡ some w' = rw c at due in absurd cc)
        ]
  ]
