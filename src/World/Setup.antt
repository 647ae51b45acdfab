-- ===== src/World/Setup.antt =====
-- The building and the starting of a world of web/src/sim.cpp, and what is done to one that runs.
use ant_hoc_net.Collections.Map
use ant_hoc_net.Address.{NodeAddress, node}
use ant_hoc_net.Collections.Key.{nat_key, pair_key}
use ant_hoc_net.Collections.Map.{Map}
use ant_hoc_net.Config.{Config}
use ant_hoc_net.Double.{Double, nought}
use ant_hoc_net.Prelude.{
  Bool, List, [], false, foldl, if◌then◌else◌, length, none, some, suc, true, ℕ, ◌*◌, ◌++◌, ◌^◌,
  ◌∷◌,
}
use ant_hoc_net.Registry.{Name, find_metric}
use ant_hoc_net.Table.{Rng}
use ant_hoc_net.World.{
  Flow, Medium, World, battery_due, boot_node, flow_due, hello_due, max_of, node_of, proactive_due,
  put_node, retry_due, schedule, switch_due,
}
use ant_hoc_net.World.Clock.{rearm}

module _ {W : Type 0} ⦃d : Double W⦄ where
  open d use {lt, le, literal, add}

  -- the default bit rate is 2 Mbit/s; the streams come from the seed
  unfoldable pub new_world :
      Config W → Medium W → Rng W → (NodeAddress → Rng W) → (NodeAddress → Rng W) → World W
  new_world config medium loss_rng core_stream timer_stream = record {
    config = config;
    metric = none;
    medium = medium;
    bitrate = literal (2 * 10 ^ 6) 0;
    loss = nought;
    loss_rng = loss_rng;
    core_stream = core_stream;
    timer_stream = timer_stream;
    nodes = [];
    flows = [];
    events = [];
    seq = 0;
    now = nought;
    started = false;
    log = [];
    ant_tx = 0;
    xray = [];
  }

  -- desynchronised first firings
  unfoldable pub arm_timers : NodeAddress → World W → World W
  arm_timers id w =
      let w1 = rearm id w.config.hello_interval true (hello_due id) w in
      let w2 = rearm id w1.config.proactive_interval true (proactive_due id) w1 in
      schedule (add w2.now (literal 25 2)) (retry_due id) w2

  unfoldable pub add_node : World W → World W
  add_node w =
      let id = node (length w.nodes) in
      let w' = put_node id (boot_node w id) w in if w.started then arm_timers id w' else w'

  unfoldable pub add_flow : NodeAddress → NodeAddress → W → W → W → World W → World W
  add_flow src dst rate start stop w =
      let flow : Flow W = record {
        src = src;
        dst = dst;
        rate = rate;
        start = start;
        stop = stop;
        sent = 0;
        delivered = 0;
        delay_sum = nought;
      } in
      let w' = record w { flows = w.flows ++ (flow ∷ []) } in
      if w.started then schedule (max_of start w.now) (flow_due (length w.flows)) w' else w'

  -- a node's core logic is built anew, with the configuration and the metric that are then set
  unfoldable pub start_node : World W → NodeAddress → World W
  start_node w id =
      let n = node_of w id in
      let logic = (boot_node w id).logic in
      let w' = arm_timers id (put_node id (record n { logic = logic }) w) in
      if le nought n.battery0 then schedule (add w'.now (literal 10 1)) (battery_due id) w' else w'

  unfoldable pub start_flows : ℕ → List (Flow W) → World W → World W
  start_flows f [] w = w
  start_flows f (flow ∷ flows) w = start_flows (suc f) flows (schedule flow.start (flow_due f) w)

  unfoldable pub start : World W → World W
  start w =
      let w' = foldl start_node (record w { started = true }) (Map.keys w.nodes) in
      if w.started then w else start_flows 0 w'.flows w'

  unfoldable pub set_battery : NodeAddress → W → World W → World W
  set_battery id joules w =
      let w' =
        put_node id
          (record (node_of w id) { battery0 = joules; battery = joules; battery_at = w.now }) w in
      if w.started then schedule (add w.now (literal 10 1)) (battery_due id) w' else w'

  unfoldable pub schedule_node_up : NodeAddress → W → Bool → World W → World W
  schedule_node_up id t switch w = schedule t (switch_due id switch) w

  -- `setLinkMetric`: whether the metric was set
  unfoldable pub set_link_metric : Name → World W → Bool × World W
  set_link_metric name w = elim (find_metric name) [
    | none ↦ (false, w)
    | some m ↦ if w.started then (false, w) else (true, record w { metric = some m })
  ]

  unfoldable pub clear_log : World W → World W
  clear_log w = record w { log = [] }
