-- ===== src/World/Ledger.antt =====
-- Every packet of a flow of web/src/sim.cpp is in one place, in every state that a world reaches.
use ant_hoc_net.Collections.Map
use ant_hoc_net.Adaptive.Bounded.{fresh}
use ant_hoc_net.Address.{NodeAddress, node}
use ant_hoc_net.Codec.{Patterns}
use ant_hoc_net.Collections.Key.{nat_key, pair_key}
use ant_hoc_net.Collections.Map.{Map}
use ant_hoc_net.Config.{Config}
use ant_hoc_net.Double.{Double}
use ant_hoc_net.Prelude.{
  Bool, List, [], arith, get_elem?, length, ltb, none, refl, some, ℕ, ◌++◌, ◌+◌, ◌≡◌,
}
use ant_hoc_net.Registry.{Name}
use ant_hoc_net.Table.{Rng}
use ant_hoc_net.World.{Flow, LogEvent, Medium, World, switch_due}
use ant_hoc_net.World.Clock.{step}
use ant_hoc_net.World.Moves.{places-schedule, places-set_node_up}
use ant_hoc_net.World.Outside.{
  places-add_flow, places-add_node, places-battery_left, places-clear_log, places-set_battery,
  places-set_link_metric, places-start,
}
use ant_hoc_net.World.Places.{
  carried, ended, ended-append, in_flight, one_if, places, unsent, waiting,
}
use ant_hoc_net.World.Radio.{battery_left, set_node_up}
use ant_hoc_net.World.Setup.{
  add_flow, add_node, clear_log, new_world, schedule_node_up, set_battery, set_link_metric, start,
}
use ant_hoc_net.World.Ticks.{places-step}

module _ {W : Type 0} ⦃d : Double W⦄ ⦃bits : Patterns W⦄ where
  -- The states that are built, started and run, with anything done from outside in between, each with
  -- the events that were cleared from its log until then.
  pub data IsReached : List (LogEvent W) → World W → Type 0 where
    created :
        (config : Config W) (medium : Medium W) (loss_rng : Rng W)
        (core_stream timer_stream : NodeAddress → Rng W)
        → IsReached [] (new_world config medium loss_rng core_stream timer_stream)
    -- the index of the new node is that of no other
    node_added :
        {drained : List (LogEvent W)} (w : World W)
        → IsReached drained w
        → Map.lookup (node (length w.nodes)) w.nodes ≡ none
        → IsReached drained (add_node w)
    flow_added :
        {drained : List (LogEvent W)} (src dst : NodeAddress) (rate begin finish : W) (w : World W)
        → IsReached drained w
        → IsReached drained (add_flow src dst rate begin finish w)
    started :
        {drained : List (LogEvent W)} (w : World W)
        → IsReached drained w
        → IsReached drained (start w)
    stepped :
        {drained : List (LogEvent W)} (until : W) (w w' : World W)
        → IsReached drained w
        → step until w ≡ some w'
        → IsReached drained w'
    waited :
        {drained : List (LogEvent W)} (until : W) (w : World W)
        → IsReached drained w
        → IsReached drained (record w { now = until })
    switched :
        {drained : List (LogEvent W)} (id : NodeAddress) (switch : Bool) (w : World W)
        → IsReached drained w
        → IsReached drained (set_node_up id switch w)
    switch_planned :
        {drained : List (LogEvent W)} (id : NodeAddress) (t : W) (switch : Bool) (w : World W)
        → IsReached drained w
        → IsReached drained (schedule_node_up id t switch w)
    battery_set :
        {drained : List (LogEvent W)} (id : NodeAddress) (joules : W) (w : World W)
        → IsReached drained w
        → IsReached drained (set_battery id joules w)
    battery_read :
        {drained : List (LogEvent W)} (id : NodeAddress) (w : World W)
        → IsReached drained w
        → IsReached drained (battery_left id w).1
    metric_set :
        {drained : List (LogEvent W)} (name : Name) (w : World W)
        → IsReached drained w
        → IsReached drained (set_link_metric name w).1
    -- nodes moved, links cut, zones added, and the settings of the world
    tuned :
        {drained : List (LogEvent W)} (config : Config W) (medium : Medium W) (bitrate loss : W)
        (w : World W)
        → IsReached drained w
        → IsReached drained
            (record w { config = config; medium = medium; bitrate = bitrate; loss = loss })
    log_cleared :
        {drained : List (LogEvent W)} (w : World W)
        → IsReached drained w
        → IsReached (drained ++ w.log) (clear_log w)

  module _ (f s : ℕ) where
    places_one :
        (drained : List (LogEvent W)) (w : World W)
        → IsReached drained w
        → ended f s drained + places f s w ≡ 1
    unfolding places new_world in_flight waiting ended unsent schedule_node_up carried
    places_one _ _ (created config medium loss_rng core_stream timer_stream) = refl
    places_one drained _ (node_added w h fresh) =
        omega (arith, places-add_node f s w fresh, places_one drained w h)
    places_one drained _ (flow_added src dst rate begin finish w h) =
        omega (arith, places-add_flow f s src dst rate begin finish w, places_one drained w h)
    places_one drained _ (started w h) = omega (arith, places-start f s w, places_one drained w h)
    places_one drained _ (stepped until w w' h e) =
        omega (arith, places-step f s until w w' e, places_one drained w h)
    places_one drained _ (waited until w h) = places_one drained w h
    places_one drained _ (switched id switch w h) =
        omega (arith, places-set_node_up f s id switch w, places_one drained w h)
    places_one drained _ (switch_planned id t switch w h) =
        omega (arith, places-schedule f s t (switch_due id switch) w, places_one drained w h)
    places_one drained _ (battery_set id joules w h) =
        omega (arith, places-set_battery f s id joules w, places_one drained w h)
    places_one drained _ (battery_read id w h) =
        omega (arith, places-battery_left f s id w, places_one drained w h)
    places_one drained _ (metric_set name w h) =
        omega (arith, places-set_link_metric f s name w, places_one drained w h)
    places_one drained _ (tuned config medium bitrate loss w h) = places_one drained w h
    places_one _ _ (log_cleared {drained} w h) =
        omega
          (arith, places-clear_log f s w, ended-append f s drained w.log, places_one drained w h)

  -- In every state that a world reaches, whatever was done to it from outside, each packet that a
  -- flow has sent is in exactly one place: in flight, held by a node, or delivered or dropped in
  -- the events that were cleared from the log or in the log; and a packet that the flow has not sent
  -- yet is in none.
  pub sent_once :
      (drained : List (LogEvent W)) (w : World W) (f s : ℕ) (flow : Flow W)
      → IsReached drained w
      → get_elem? w.flows f ≡ some flow
      → in_flight f s w.events + waiting f s w.nodes + ended f s drained + ended f s w.log
        ≡ one_if (ltb s flow.sent)
  unfolding places unsent
  sent_once drained w f s flow h e = ground (arith, places_one f s drained w h, e)
