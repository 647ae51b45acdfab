-- ===== src/Router/Tests.antt =====
-- A node's router at concrete ants.
use ant_hoc_net.Address.{NodeAddress, invalid_address, node}
use ant_hoc_net.Config.{default_config}
use ant_hoc_net.Double.Fixed.{Fixed, fixed_double, plus}
use ant_hoc_net.Message.{AntHop, AntMessage, down, new_message, repair}
use ant_hoc_net.Prelude.{[], min, none, pos, refl, some, true, ℕ, ◌∷◌, ◌≡◌}
use ant_hoc_net.Router.{
  Ports, Router, broadcast, control_packets_sent, increment, new_router, send_ant,
}
use ant_hoc_net.Router.Budget.{control_packets_sent-send_ant, relays, relays-eq}
use ant_hoc_net.Router.Failure.{on_maintenance_tick}
use ant_hoc_net.Router.Reachable.{Reachable, Reachable-IsSound, booted, received, ticked}
use ant_hoc_net.Router.Receive.{on_receive_ant}
use ant_hoc_net.Router.Retrace.{nodes, stack, travel, travel-eq}
use ant_hoc_net.Router.Validity.{IsSound}

abbrev quiet_ports : Ports Fixed
quiet_ports = record {
  now = plus 1000;
  link_state = none;
  link_quality = none;
  kinematics = none;
  residual_energy = none;
}

abbrev test_router : ℕ → Router Fixed
test_router n =
    new_router (node n) default_config (record { stream = λ i. plus 600; used = 0 }) none true

-- each address has its node
abbrev nodes_of : NodeAddress → Router Fixed
nodes_of n = new_router n default_config (record { stream = λ i. plus 600; used = 0 }) none true

abbrev hop_at : ℕ → AntHop Fixed
hop_at n = record { node = node n; time = plus 3 }

abbrev repair_ant : AntMessage Fixed
repair_ant = record new_message {
  type = repair;
  src = node 1;
  dst = node 9;
  broadcast_budget = pos 2;
}

relays-eq_example :
    relays quiet_ports (test_router 2 ∷ test_router 3 ∷ test_router 4 ∷ []) repair_ant ≡ min 3 2
relays-eq_example =
    relays-eq quiet_ports (test_router 2 ∷ test_router 3 ∷ test_router 4 ∷ []) repair_ant 2 refl

control_packets_sent-send_ant_example :
    control_packets_sent (send_ant (test_router 2) broadcast invalid_address repair_ant).0
    ≡ increment (control_packets_sent (test_router 2))
control_packets_sent-send_ant_example =
    control_packets_sent-send_ant (test_router 2) broadcast invalid_address repair_ant

-- a backward ant of 4, whose forward ant came from 1 by 2 and 3
abbrev back_ant : AntMessage Fixed
back_ant = record new_message {
  direction = down;
  src = node 4;
  dst = node 1;
  visited = hop_at 1 ∷ hop_at 2 ∷ hop_at 3 ∷ hop_at 4 ∷ [];
}

stacked : hop_at 1 ∷ hop_at 2 ∷ hop_at 3 ∷ [] ≡ stack (hop_at 3 ∷ hop_at 2 ∷ hop_at 1 ∷ [])
unfolding stack
stacked = refl

address_of : (n : NodeAddress) → (nodes_of n).address ≡ n
unfolding new_router
address_of n = refl

-- the ant has come from 4 and is at 3, with 2 and 1 below
travel-eq_example :
    travel
      (λ n. quiet_ports)
      nodes_of
      3
      (node 3)
      (record back_ant { visited = hop_at 1 ∷ hop_at 2 ∷ hop_at 3 ∷ []; history = hop_at 4 ∷ [] })
    ≡ some (nodes (hop_at 3 ∷ hop_at 2 ∷ hop_at 1 ∷ []))
travel-eq_example =
    travel-eq (λ n. quiet_ports) nodes_of
      (record back_ant { visited = hop_at 1 ∷ hop_at 2 ∷ hop_at 3 ∷ []; history = hop_at 4 ∷ [] })
      (hop_at 3) (hop_at 2 ∷ hop_at 1 ∷ []) address_of stacked
      (refl, refl, refl, (refl, refl, refl, refl))

-- 2 hears a repair ant from 1, then its clock ticks
abbrev visited_router : Router Fixed
visited_router =
    (on_maintenance_tick quiet_ports
      (on_receive_ant quiet_ports (test_router 2) repair_ant (node 1)).0).0

visited : Reachable visited_router
visited = ticked quiet_ports (on_receive_ant quiet_ports (test_router 2) repair_ant (node 1)).0 (
    received quiet_ports (test_router 2) repair_ant (node 1)
      (booted (node 2) default_config (record { stream = λ i. plus 600; used = 0 }) none true))

Reachable-IsSound_example : IsSound visited_router
Reachable-IsSound_example = Reachable-IsSound visited_router visited
