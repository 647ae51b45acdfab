-- ===== src/World/Tests.antt =====
-- A world of two nodes in reach of each other, of which the source of the only flow is switched off.
use ant_hoc_net.Collections.Map
use ant_hoc_net.Address.{node}
use ant_hoc_net.Codec.Tests.{test_patterns}
use ant_hoc_net.Collections.Key.{nat_key, pair_key}
use ant_hoc_net.Collections.Map.{Map}
use ant_hoc_net.Config.{default_config}
use ant_hoc_net.Double.Fixed.{Fixed, fixed_double, minus, not_number, plus}
use ant_hoc_net.Message.{still}
use ant_hoc_net.Prelude.{
  All, [], arith, false, get_elem?, length, ltb, none, refl, some, true, ℕ, ◌+◌, ◌==◌, ◌∷◌, ◌≡◌,
}
use ant_hoc_net.Table.{Rng}
use ant_hoc_net.World.{
  Flow, Medium, Scheduled, World, boot_node, drop_packet, emit, hello_due, later, node_of,
  pop_first, put_node, schedule,
}
use ant_hoc_net.World.Adapter.{flow_tick, originate}
use ant_hoc_net.World.Clock.{jittered, perform, rearm, step}
use ant_hoc_net.World.Ledger.{
  created, flow_added, log_cleared, node_added, sent_once, started, stepped, switched,
}
use ant_hoc_net.World.Order.{IsBefore, pop_first-IsBefore}
use ant_hoc_net.World.Places.{ended, in_flight, one_if, waiting}
use ant_hoc_net.World.Radio.{filter, set_node_up, set_pending, shed}
use ant_hoc_net.World.Setup.{
  add_flow, add_node, arm_timers, clear_log, new_world, start, start_flows, start_node,
}

abbrev open_field : Medium Fixed
open_field = record { linked = λ a b t. true; propagation = λ a b t. plus 0; motion = λ a t. still }

abbrev steady : Rng Fixed
steady = record { stream = λ n. plus 600; used = 0 }

abbrev empty_world : World Fixed
empty_world = new_world default_config open_field steady (λ a. steady) (λ a. steady)

abbrev one_node : World Fixed
one_node = add_node empty_world

abbrev two_nodes : World Fixed
two_nodes = add_node one_node

abbrev with_flow : World Fixed
with_flow = add_flow (node 0) (node 1) (plus 1000) (plus 100) (plus 9000) two_nodes

abbrev before_tick : World Fixed
before_tick = start (set_node_up (node 0) false with_flow)

abbrev after_tick : World Fixed
after_tick = elim (step (plus 9000) before_tick) [ none ↦ before_tick | some w ↦ w ]

first_is_new : Map.lookup (node (length empty_world.nodes)) empty_world.nodes ≡ none
unfolding Map.lookup new_world
first_is_new = refl

second_is_new : Map.lookup (node (length one_node.nodes)) one_node.nodes ≡ none
unfolding add_node put_node boot_node Map.lookup Map.insert new_world
second_is_new = refl

steps : step (plus 9000) before_tick ≡ some after_tick
unfolding step start set_node_up add_flow add_node put_node boot_node node_of shed filter emit
    schedule start_node start_flows arm_timers rearm jittered pop_first later Map.lookup Map.insert
    Map.keys new_world set_pending
steps = refl

abbrev flow_after : Flow Fixed
flow_after = record {
  src = node 0;
  dst = node 1;
  rate = plus 1000;
  start = plus 100;
  stop = plus 9000;
  sent = 1;
  delivered = 0;
  delay_sum = plus 0;
}

has_flow : get_elem? (clear_log after_tick).flows 0 ≡ some flow_after
unfolding clear_log step start set_node_up add_flow add_node put_node boot_node node_of shed filter
    emit schedule start_node start_flows arm_timers rearm jittered pop_first later Map.lookup
    Map.insert Map.keys new_world set_pending perform flow_tick originate drop_packet
has_flow = refl

-- the state after the first tick, its log drained by the front end
sent_once_example :
    in_flight 0 0 (clear_log after_tick).events
      + waiting 0 0 (clear_log after_tick).nodes
      + ended 0 0 after_tick.log
      + ended 0 0 (clear_log after_tick).log
    ≡ one_if (ltb 0 flow_after.sent)
sent_once_example =
    sent_once after_tick.log (clear_log after_tick) 0 0 flow_after
      (log_cleared after_tick (
        stepped (plus 9000) before_tick after_tick
          (started (set_node_up (node 0) false with_flow) (
            switched (node 0) false with_flow (
              flow_added (node 0) (node 1) (plus 1000) (plus 100) (plus 9000) two_nodes (
                node_added one_node
                  (node_added empty_world
                    (created default_config open_field steady (λ a. steady) (λ a. steady))
                    first_is_new)
                  second_is_new))))
          steps))
      has_flow

-- the times of the tests are whole thousandths from 0 on
abbrev IsCount : Fixed → Type 0
IsCount (plus n) = Unit
IsCount _ = ⊥

abbrev thousandths : Fixed → ℕ
thousandths (plus n) = n
thousandths _ = 0

lt_thousandths :
    (a b : Fixed)
    → IsCount a
    → IsCount b
    → fixed_double.lt a b ≡ ltb (thousandths a) (thousandths b)
lt_thousandths (plus a) (plus b) ha hb = ground arith
lt_thousandths (plus a) (minus b) ha hb = absurd hb
lt_thousandths (plus a) not_number ha hb = absurd hb
lt_thousandths (minus a) b ha hb = absurd ha
lt_thousandths not_number b ha hb = absurd ha

eq_thousandths :
    (a b : Fixed) → IsCount a → IsCount b → fixed_double.eq a b ≡ (thousandths a == thousandths b)
eq_thousandths (plus a) (plus b) ha hb = ground arith
eq_thousandths (plus a) (minus b) ha hb = absurd hb
eq_thousandths (plus a) not_number ha hb = absurd hb
eq_thousandths (minus a) b ha hb = absurd ha
eq_thousandths not_number b ha hb = absurd ha

abbrev event_at : ℕ → ℕ → Scheduled Fixed
event_at t n = record { t = plus t; seq = n; fn = hello_due (node n) }

pop_first-IsBefore_example :
    All (IsBefore thousandths (event_at 3 1)) (event_at 7 0 ∷ event_at 3 2 ∷ [])
unfolding pop_first later
pop_first-IsBefore_example =
    pop_first-IsBefore IsCount thousandths lt_thousandths eq_thousandths (event_at 7 0)
      (event_at 3 1 ∷ event_at 3 2 ∷ []) tt (tt, (tt, tt))
