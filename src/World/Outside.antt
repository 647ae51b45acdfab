-- ===== src/World/Outside.antt =====
-- What is done to a world of web/src/sim.cpp from outside moves no packet: building it, starting it,
-- and the calls on one that runs.
use ant_hoc_net.Collections.Map
use ant_hoc_net.Address.{NodeAddress, node}
use ant_hoc_net.Codec.{Patterns}
use ant_hoc_net.Collections.Key.{nat_key, pair_key}
use ant_hoc_net.Collections.Map.{Map}
use ant_hoc_net.Collections.Visit.{foldl_frame}
use ant_hoc_net.Double.{Double, nought}
use ant_hoc_net.Prelude.{
  List, [], arith, foldl, get_elem?-snoc, inl, inr, length, none, refl, suc, true, ℕ, ◌++◌, ◌+◌,
  ◌∷◌, ◌≡◌,
}
use ant_hoc_net.Registry.{Name}
use ant_hoc_net.World.{
  Flow, World, battery_due, boot_node, flow_due, hello_due, max_of, node_of, proactive_due,
  put_node, retry_due, schedule,
}
use ant_hoc_net.World.Clock.{rearm}
use ant_hoc_net.World.Events.{places-flows}
use ant_hoc_net.World.Moves.{places-drain_battery, places-put_node, places-schedule}
use ant_hoc_net.World.Places.{carried, ended, places, unsent}
use ant_hoc_net.World.Radio.{battery_left}
use ant_hoc_net.World.Setup.{
  add_flow, add_node, arm_timers, clear_log, set_battery, set_link_metric, start, start_flows,
  start_node,
}
use ant_hoc_net.World.Ticks.{places-rearm}

module _ {W : Type 0} ⦃d : Double W⦄ ⦃bits : Patterns W⦄ where
  module _ (f s : ℕ) where
    pub places-arm_timers :
        (id : NodeAddress) (w : World W) → places f s (arm_timers id w) ≡ places f s w
    unfolding arm_timers carried
    places-arm_timers id w =
        let w1 = rearm id w.config.hello_interval true (hello_due id) w in
        let w2 = rearm id w1.config.proactive_interval true (proactive_due id) w1 in
        omega (
          arith,
          places-schedule f s (d.add w2.now (d.literal 25 2)) (retry_due id) w2,
          places-rearm f s id w1.config.proactive_interval true (proactive_due id) w1,
          places-rearm f s id w.config.hello_interval true (hello_due id) w,
        )

    pub places-add_node :
        (w : World W)
        → Map.lookup (node (length w.nodes)) w.nodes ≡ none
        → places f s (add_node w) ≡ places f s w
    unfolding add_node boot_node node_of
    places-add_node w h =
        let id = node (length w.nodes) in
        let w' = put_node id (boot_node w id) w in
        let empty : [] ≡ (node_of w id).pending = rw (node_of, h) refl in
        ground (arith, places-arm_timers id w', places-put_node f s id (boot_node w id) w empty)

    pub places-start_node :
        (w : World W) (id : NodeAddress) → places f s (start_node w id) ≡ places f s w
    unfolding start_node carried
    places-start_node w id =
        let n = record (node_of w id) { logic = (boot_node w id).logic } in
        let armed = arm_timers id (put_node id n w) in
        ground (
          arith,
          places-schedule f s (d.add armed.now (d.literal 10 1)) (battery_due id) armed,
          places-arm_timers id (put_node id n w),
          places-put_node f s id n w refl,
        )

    pub places-start_flows :
        (g : ℕ) (flows : List (Flow W)) (w : World W)
        → places f s (start_flows g flows w) ≡ places f s w
    unfolding start_flows carried
    places-start_flows g [] w = refl
    places-start_flows g (flow ∷ flows) w = omega (
      arith,
      places-start_flows (suc g) flows (schedule flow.start (flow_due g) w),
      places-schedule f s flow.start (flow_due g) w,
    )

    pub places-started : (w : World W) → places f s (record w { started = true }) ≡ places f s w
    unfolding places
    places-started w = refl

    pub places-start : (w : World W) → places f s (start w) ≡ places f s w
    unfolding start
    places-start w =
        let w0 = record w { started = true } in
        let w' = foldl start_node w0 (Map.keys w.nodes) in
        ground (
          arith,
          places-start_flows 0 w'.flows w',
          foldl_frame (places f s) start_node places-start_node w0 (Map.keys w.nodes),
          places-started w,
        )

    unsent-append :
        (flows : List (Flow W)) (flow : Flow W)
        → flow.sent ≡ 0
        → unsent f s (flows ++ (flow ∷ [])) ≡ unsent f s flows
    unfolding unsent
    unsent-append flows flow h = elim (get_elem?-snoc flows flow f) [
      | inl e ↦ rw (unsent, e) refl
      | inr (gone, e) ↦ rw (unsent, e, gone) (rw h (ground arith))
    ]

    pub places-add_flow :
        (src dst : NodeAddress) (rate begin finish : W) (w : World W)
        → places f s (add_flow src dst rate begin finish w) ≡ places f s w
    unfolding add_flow carried
    places-add_flow src dst rate begin finish w =
        let flow : Flow W = record {
          src = src;
          dst = dst;
          rate = rate;
          start = begin;
          stop = finish;
          sent = 0;
          delivered = 0;
          delay_sum = nought;
        } in
        let flows = w.flows ++ (flow ∷ []) in
        ground (
          arith,
          places-schedule f s (max_of begin w.now) (flow_due (length w.flows))
              (record w { flows = flows }),
          places-flows f s w flows,
          unsent-append w.flows flow refl,
        )

    pub places-set_battery :
        (id : NodeAddress) (joules : W) (w : World W)
        → places f s (set_battery id joules w) ≡ places f s w
    unfolding set_battery carried
    places-set_battery id joules w =
        let n = record (node_of w id) { battery0 = joules; battery = joules; battery_at = w.now } in
        ground (
          arith,
          places-schedule f s (d.add w.now (d.literal 10 1)) (battery_due id) (put_node id n w),
          places-put_node f s id n w refl,
        )

    pub places-set_link_metric :
        (name : Name) (w : World W) → places f s (set_link_metric name w).1 ≡ places f s w
    unfolding set_link_metric places
    places-set_link_metric name w = ground arith

    pub places-battery_left :
        (id : NodeAddress) (w : World W) → places f s (battery_left id w).1 ≡ places f s w
    unfolding battery_left
    places-battery_left id w = ground (arith, places-drain_battery f s id nought w)

    pub places-clear_log : (w : World W) → ended f s w.log + places f s (clear_log w) ≡ places f s w
    unfolding clear_log places ended
    places-clear_log w = omega arith
