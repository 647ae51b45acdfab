-- ===== src/Router.antt =====
-- `AntRouterLogic` of core/include/anthocnet/core/ant_router_logic.h and core/src/ant_router_logic.cpp:
-- the state of one node's router, the ports that it reads, the decisions that it returns, and the
-- sending of ants. The handlers stand in the modules below.
pub mod Links
pub mod Churn
pub mod Ants
pub mod Sessions
pub mod Hello
pub mod Failure
pub mod Receive
pub mod Budget
pub mod Frame
pub mod Validity
pub mod Reception
pub mod Reachable
pub mod Retrace
mod Tests
use ant_hoc_net.Collections.Map
use ant_hoc_net.Address.{NodeAddress, invalid_address}
use ant_hoc_net.Collections.Key.{nat_key, pair_key}
use ant_hoc_net.Collections.Map.{Map}
use ant_hoc_net.Config.{Config}
use ant_hoc_net.Double.{Double, nought}
use ant_hoc_net.Generation.{GenerationTracker, empty_tracker}
use ant_hoc_net.History.{AntHistory, empty_history}
use ant_hoc_net.Message.{
  AntDirection, AntMessage, AntType, Kinematics, hello, link_fail, new_message, proactive, reactive,
  repair,
}
use ant_hoc_net.Metric.{LinkMetric, classic_metric}
use ant_hoc_net.Prelude.{
  Bool, List, Option, [], false, if◌then◌else◌, negsuc, none, pos, some, suc, true, zero, ℕ, ℤ, ◌%◌,
  ◌++◌, ◌+◌, ◌^◌, ◌||◌, ◌∷◌,
}
use ant_hoc_net.Table.{Link, PheromoneTable, Rng, empty_table}

pub data RouteAction : Type 0 where
  no_action unicast broadcast queue deliver drop discard_pending : RouteAction

pub record RouteDecision (W : Type 0) : Type 0 where
  pub action : RouteAction
  pub next_hop : NodeAddress
  pub has_message : Bool
  pub message : AntMessage W

-- What the observer is told, in order (`IRouterObserver`).
pub data Notice : Type 0 where
  ant_sent : AntType → AntDirection → Bool → Notice
  ant_received : AntType → AntDirection → Notice
  route_changed : NodeAddress → NodeAddress → Bool → Notice

-- `ILinkState`
pub record LinkState (W : Type 0) : Type 0 where
  pub mac_queue_length : NodeAddress → ℤ
  pub mac_service_time : NodeAddress → W

-- What the ports answer while one handler runs: the time stands still within an event of the
-- simulator. `none` is a port that is not attached; `kinematics` is `some none` where the port does
-- not know the position.
pub record Ports (W : Type 0) : Type 0 where
  pub now : W
  pub link_state : Option (LinkState W)
  pub link_quality : Option (NodeAddress → W)
  pub kinematics : Option (Option (Kinematics W))
  pub residual_energy : Option W

pub record QuietState (W : Type 0) : Type 0 where
  pub best : NodeAddress
  pub pheromone : W
  pub stable : ℕ
  pub skipped : ℕ

pub record ChurnState (W : Type 0) : Type 0 where
  pub best : NodeAddress
  pub rate : W

pub record Router (W : Type 0) : Type 0 where
  pub address : NodeAddress
  pub config : Config W
  pub metric : LinkMetric W
  pub table : PheromoneTable W
  pub history : AntHistory
  pub gen_quality : GenerationTracker W
  pub seq_num : ℕ
  pub active_sessions : Map NodeAddress W
  pub last_seen : Map NodeAddress W
  pub neighbor_kinematics : Map NodeAddress (Kinematics W × W)
  pub hop_estimate : Map Link W
  pub last_reactive : Map NodeAddress W
  pub last_repair : Map NodeAddress W
  pub repair_deadline : Map NodeAddress W
  pub tx_failures : Map NodeAddress ℕ
  pub last_evaporation : W
  -- the counters are `uint64_t`
  pub ants_sent : Map ℕ ℕ
  pub ants_received : Map ℕ ℕ
  pub linkfail_propagations : ℕ
  pub linkfail_budget_drops : ℕ
  pub linkfail_origins_suppressed : ℕ
  pub repair_discards : ℕ
  pub directed_steers : ℕ
  pub last_linkfail_notify : Map NodeAddress W
  pub quiet : Map NodeAddress (QuietState W)
  pub churn : Map NodeAddress (ChurnState W)
  pub evap_multiplier : Map NodeAddress W
  pub rng : Rng W
  -- whether an observer is attached, and what it was told
  pub observed : Bool
  pub notices : List Notice

-- a handler's new state and the decisions for the adapter
abbrev pub Outcome : Type 0 → Type 0
Outcome W = Router W × List (RouteDecision W)

-- one more, in a `uint64_t`
abbrev pub increment : ℕ → ℕ
increment n = (n + 1) % 2 ^ 64

-- the value of the enumerators
unfoldable pub type_byte : AntType → ℕ
type_byte hello = 0x01
type_byte reactive = 0x02
type_byte proactive = 0x04
type_byte repair = 0x08
type_byte link_fail = 0x10

unfoldable pub count_of : Map ℕ ℕ → AntType → ℕ
unfolding type_byte
count_of counters type = elim (Map.lookup (type_byte type) counters) [ none ↦ 0 | some n ↦ n ]

unfoldable pub count_ant : Map ℕ ℕ → AntType → Map ℕ ℕ
unfolding type_byte count_of
count_ant counters type = Map.insert (type_byte type) (increment (count_of counters type)) counters

unfoldable pub sum_counts : Map ℕ ℕ → ℕ
sum_counts [] = 0
sum_counts ((t, n) ∷ rest) = (n + sum_counts rest) % 2 ^ 64

abbrev pub is_broadcast : RouteAction → Bool
is_broadcast broadcast = true
is_broadcast _ = false

module _ {W : Type 0} where
  unfoldable pub sharing_kinematics : Config W → Bool
  sharing_kinematics c = c.share_kinematics || c.enable_link_lifetime

  unfoldable pub control_packets_sent : Router W → ℕ
  unfolding sum_counts
  control_packets_sent r = sum_counts r.ants_sent

  unfoldable pub notify : Router W → Notice → Router W
  notify r notice = if r.observed then record r { notices = r.notices ++ (notice ∷ []) } else r

  -- seqNum_++: the number to use, and the router after it
  unfoldable pub next_seq : Router W → ℕ × Router W
  next_seq r = (r.seq_num, record r { seq_num = (r.seq_num + 1) % 2 ^ 32 })

  -- the one place where an ant is emitted
  unfoldable pub send_ant :
      Router W → RouteAction → NodeAddress → AntMessage W → Router W × RouteDecision W
  unfolding notify count_ant
  send_ant r action next_hop ant = (
    notify (record r { ants_sent = count_ant r.ants_sent ant.type })
        (ant_sent ant.type ant.direction (is_broadcast action)),
    record { action = action; next_hop = next_hop; has_message = true; message = ant },
  )

module _ {W : Type 0} ⦃d : Double W⦄ where
  abbrev pub bare : RouteAction → NodeAddress → RouteDecision W
  bare action next_hop = record {
    action = action;
    next_hop = next_hop;
    has_message = false;
    message = new_message;
  }

  -- RouteDecision::drop() and deliver()
  abbrev pub dropped : RouteDecision W
  dropped = bare drop invalid_address

  abbrev pub delivered : RouteDecision W
  delivered = bare deliver invalid_address

  -- `broadcastForward`: an ant with no budget left is dropped, a counted budget goes down by one,
  -- and a negative one is untracked
  unfoldable pub broadcast_forward : Router W → AntMessage W → Router W × RouteDecision W
  unfolding send_ant
  broadcast_forward r ant = elim ant.broadcast_budget [
    | pos n ↦ elim n [
      | zero ↦ (r, dropped)
      | suc m ↦ send_ant r broadcast invalid_address (record ant { broadcast_budget = pos m })
    ]
    | negsuc n ↦ send_ant r broadcast invalid_address ant
  ]

  open d use {of_nat, neg}

  -- static_cast<double> of an `int`
  abbrev pub of_int : ℤ → W
  of_int (pos n) = of_nat n
  of_int (negsuc n) = neg (of_nat (n + 1))

-- `AntRouterLogic(address, config, clock, rng, metric)`: a null metric is the classic one
unfoldable pub new_router :
    {W : Type 0} ⦃d : Double W⦄
    → NodeAddress
    → Config W
    → Rng W
    → Option (LinkMetric W)
    → Bool
    → Router W
new_router address config rng metric observed = record {
  address = address;
  config = config;
  metric = elim metric [ none ↦ classic_metric | some m ↦ m ];
  table = empty_table;
  history = empty_history config.max_history;
  gen_quality = empty_tracker config.max_history;
  seq_num = 0;
  active_sessions = [];
  last_seen = [];
  neighbor_kinematics = [];
  hop_estimate = [];
  last_reactive = [];
  last_repair = [];
  repair_deadline = [];
  tx_failures = [];
  last_evaporation = nought;
  ants_sent = [];
  ants_received = [];
  linkfail_propagations = 0;
  linkfail_budget_drops = 0;
  linkfail_origins_suppressed = 0;
  repair_discards = 0;
  directed_steers = 0;
  last_linkfail_notify = [];
  quiet = [];
  churn = [];
  evap_multiplier = [];
  rng = rng;
  observed = observed;
  notices = [];
}
