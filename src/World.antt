-- ===== src/World.antt =====
-- The browser adapter: `World` and `Node` of web/include/ahn_web/sim.h and web/src/sim.cpp. The state,
-- the event queue and the log. A scheduled closure is an `Action` with what it captures. The radio's
-- geometry (positions, ranges, buildings, zones, satellites) is a `Medium`, and a random stream is an
-- `Rng`. A node is read by its id, which is its index in `nodes_`; the source has no behaviour for
-- another id, and the model then reads a node that is switched off.
pub mod Radio
pub mod Queue
pub mod Adapter
pub mod Clock
pub mod Setup
pub mod Places
pub mod Moves
pub mod Handling
pub mod Events
pub mod Ticks
pub mod Outside
pub mod Ledger
pub mod Order
mod Tests
use ant_hoc_net.Collections.Map
use ant_hoc_net.Address.{NodeAddress}
use ant_hoc_net.Collections.Key.{nat_key, pair_key}
use ant_hoc_net.Collections.Map.{Map}
use ant_hoc_net.Collections.Set.{OrderedSet}
use ant_hoc_net.Config.{Config}
use ant_hoc_net.Double.{Double, gt, nought, one}
use ant_hoc_net.Message.{Kinematics}
use ant_hoc_net.Metric.{LinkMetric}
use ant_hoc_net.Prelude.{
  Bool, List, Option, [], false, foldl, if◌then◌else◌, ltb, none, some, true, ℕ, ◌%◌, ◌&&◌, ◌++◌,
  ◌+◌, ◌^◌, ◌||◌, ◌∷◌,
}
use ant_hoc_net.Router.{Notice, Ports, Router, ant_received, ant_sent, new_router, route_changed}
use ant_hoc_net.Table.{Rng}

-- an `int` of the log, kept as an address is
abbrev pub LogValue : Type 0
LogValue = ℕ

abbrev pub int : ℕ → LogValue
int n = 2 ^ 31 + n

-- `data_delivered`, `data_dropped` and `data_queued` are `Deliver`, `Drop` and `Queue`.
pub data Ev : Type 0 where
  tx_ant rx_ant tx_data data_delivered data_dropped route_add route_del data_queued : Ev
  tx_fail node_down node_up : Ev

pub data DropReason : Type 0 where
  ttl_reached queue_timeout hold_cap repair_discard node_off : DropReason

-- the value of the enumerators
abbrev pub reason_code : DropReason → ℕ
reason_code ttl_reached = 1
reason_code queue_timeout = 2
reason_code hold_cap = 3
reason_code repair_discard = 4
reason_code node_off = 5

pub record LogEvent (W : Type 0) : Type 0 where
  pub t : W
  pub kind : Ev
  pub node : LogValue
  pub peer : LogValue
  pub a : LogValue
  pub b : LogValue
  pub v : W

pub record Flow (W : Type 0) : Type 0 where
  pub src : NodeAddress
  pub dst : NodeAddress
  pub rate : W
  pub start : W
  pub stop : W
  pub sent : ℕ
  pub delivered : ℕ
  pub delay_sum : W

-- a data packet, in flight or held, `Node::Pending`
pub record Packet (W : Type 0) : Type 0 where
  pub flow : ℕ
  pub seq : ℕ
  pub src : NodeAddress
  pub dst : NodeAddress
  pub ttl : ℕ
  pub hops : ℕ
  pub prev : NodeAddress
  pub created : W
  pub first_queued : W
  pub expire : W
  pub reconv : Bool

-- the fields of `Node` that its mobility does not use
pub record Node (W : Type 0) : Type 0 where
  pub id : NodeAddress
  pub timer_rng : Rng W
  pub logic : Router W
  pub up : Bool
  pub busy_until : W
  pub pending : List (Packet W)
  pub ever_routed : OrderedSet NodeAddress
  pub battery0 : W
  pub battery : W
  pub battery_at : W

-- what a scheduled function does
pub data Action (W : Type 0) : Type 0 where
  ant_arrives : NodeAddress → NodeAddress → List ℕ → Action W
  data_arrives : NodeAddress → NodeAddress → Packet W → Action W
  ant_fails : NodeAddress → NodeAddress → Action W
  data_fails : NodeAddress → NodeAddress → Packet W → Action W
  purge_due hello_due proactive_due retry_due battery_due : NodeAddress → Action W
  flow_due : ℕ → Action W
  switch_due : NodeAddress → Bool → Action W

pub record Scheduled (W : Type 0) : Type 0 where
  pub t : W
  pub seq : ℕ
  pub fn : Action W

-- where the radio reaches between two nodes that are on, the delay there, and where a node is
pub record Medium (W : Type 0) : Type 0 where
  pub linked : NodeAddress → NodeAddress → W → Bool
  pub propagation : NodeAddress → NodeAddress → W → W
  pub motion : NodeAddress → W → Kinematics W

pub record World (W : Type 0) : Type 0 where
  pub config : Config W
  pub metric : Option (LinkMetric W)
  pub medium : Medium W
  pub bitrate : W
  pub loss : W
  pub loss_rng : Rng W
  -- the streams that the seed gives to the nodes: the core's and the timers'
  pub core_stream : NodeAddress → Rng W
  pub timer_stream : NodeAddress → Rng W
  pub nodes : Map NodeAddress (Node W)
  pub flows : List (Flow W)
  pub events : List (Scheduled W)
  pub seq : ℕ
  pub now : W
  pub started : Bool
  pub log : List (LogEvent W)
  pub ant_tx : ℕ
  -- (id, bytes), oldest first
  pub xray : List (ℕ × List ℕ)

abbrev pub is_tx_ant : Ev → Bool
is_tx_ant tx_ant = true
is_tx_ant _ = false

module _ {W : Type 0} where
  unfoldable pub schedule : W → Action W → World W → World W
  schedule t fn w = record w {
    events = record { t = t; seq = w.seq; fn = fn } ∷ w.events;
    seq = (w.seq + 1) % 2 ^ 64;
  }

  unfoldable pub emit :
      W → Ev → NodeAddress → LogValue → LogValue → LogValue → W → World W → World W
  emit t kind node peer a b v w = record w {
    log =
        w.log
        ++ (record { t = t; kind = kind; node = node; peer = peer; a = a; b = b; v = v } ∷ []);
    ant_tx = if is_tx_ant kind then (w.ant_tx + 1) % 2 ^ 64 else w.ant_tx;
  }

  unfoldable pub put_node : NodeAddress → Node W → World W → World W
  put_node id n w = record w { nodes = Map.insert id n w.nodes }

module _ {W : Type 0} ⦃d : Double W⦄ where
  open d use {lt, le, eq, literal, of_nat, nan, add, sub, mul, div, neg}

  -- std::max
  abbrev pub max_of : W → W → W
  max_of a b = if lt a b then b else a

  -- a new `Node` with its core logic
  unfoldable pub boot_node : World W → NodeAddress → Node W
  boot_node w id = record {
    id = id;
    timer_rng = w.timer_stream id;
    logic = new_router id w.config (w.core_stream id) w.metric true;
    up = true;
    busy_until = nought;
    pending = [];
    ever_routed = [];
    battery0 = neg one;
    battery = nought;
    battery_at = nought;
  }

  unfoldable pub node_of : World W → NodeAddress → Node W
  node_of w id = elim (Map.lookup id w.nodes) [
    | none ↦ record (boot_node w id) { up = false }
    | some n ↦ n
  ]

  -- Scheduled::Later
  unfoldable pub later : Scheduled W → Scheduled W → Bool
  later a b = gt a.t b.t || (eq a.t b.t && ltb b.seq a.seq)

  -- the event that no other precedes, and the rest of the priority queue
  unfoldable pub pop_first : Scheduled W → List (Scheduled W) → Scheduled W × List (Scheduled W)
  pop_first best [] = (best, [])
  pop_first best (e ∷ es) =
      let taken = if later best e then e else best in
      let left = if later best e then best else e in
      let rest = pop_first taken es in (rest.0, left ∷ rest.1)

  unfoldable pub residual_energy_fraction : World W → Node W → W
  residual_energy_fraction w n =
      let left = sub n.battery (mul (literal 82 2) (sub w.now n.battery_at)) in
      if le n.battery0 nought then nan else if gt left nought then div left n.battery0 else nought

  -- what the node's ports answer
  unfoldable pub ports_of : World W → Node W → Ports W
  ports_of w n = record {
    now = w.now;
    link_state = none;
    link_quality = none;
    kinematics = some (some (w.medium.motion n.id w.now));
    residual_energy = some (residual_energy_fraction w n);
  }

  -- onRouteChanged; the observer takes no notice of ants
  unfoldable pub report : NodeAddress → World W → Notice → World W
  report id w (route_changed dest nb added) =
      emit w.now (if added then route_add else route_del) id nb dest (int 0) nought w
  report id w (ant_sent type direction to_all) = w
  report id w (ant_received type direction) = w

  -- one call of a node's core logic, with the route changes that it reports on the way
  unfoldable pub ask :
      {A : Type 0} → NodeAddress → (Ports W → Router W → Router W × A) → World W → World W × A
  ask id call w =
      let n = node_of w id in
      let (r, answer) = call (ports_of w n) n.logic in
      (
        foldl (report id) (put_node id (record n { logic = record r { notices = [] } }) w)
            r.notices,
        answer,
      )

  unfoldable pub drop_packet : NodeAddress → DropReason → World W → Packet W → World W
  drop_packet id why w p =
      emit w.now data_dropped id (int (reason_code why)) (int p.flow) (int p.seq) nought w
