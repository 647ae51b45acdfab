-- ===== src/Router/Reachable.antt =====
-- The states that a node's router can be in: a new one, and what its handlers leave, each called with
-- whatever its ports then answer.
use ant_hoc_net.Address.{NodeAddress}
use ant_hoc_net.Collections.Visit.{foldl_frame}
use ant_hoc_net.Config.{Config}
use ant_hoc_net.Double.{Double}
use ant_hoc_net.Message.{AntMessage}
use ant_hoc_net.Metric.{LinkMetric}
use ant_hoc_net.Prelude.{Bool, List, Option, [], arith, ℕ, ◌≡◌}
use ant_hoc_net.Router.{Ports, Router, new_router, next_seq, notify}
use ant_hoc_net.Router.Ants.{create_forward_ant}
use ant_hoc_net.Router.Churn.{quiet_allows}
use ant_hoc_net.Router.Failure.{on_maintenance_tick, report_tx_failure}
use ant_hoc_net.Router.Receive.{on_data_packet, on_receive_ant}
use ant_hoc_net.Router.Reception.{on_data_packet-IsSound, on_receive_ant-IsSound}
use ant_hoc_net.Router.Sessions.{
  create_hello_ant, create_proactive_ants, note_data_session, visit_session,
}
use ant_hoc_net.Router.Validity.{
  IsSound, carry, on_maintenance_tick-IsSound, report_tx_failure-IsSound,
}
use ant_hoc_net.Table.{Rng}
use ant_hoc_net.Table.Validity.{empty-IsValid}

module _ {W : Type 0} ⦃d : Double W⦄ where
  pub data Reachable : Router W → Type 0 where
    booted :
        (address : NodeAddress) (config : Config W) (rng : Rng W) (metric : Option (LinkMetric W))
        (watched : Bool)
        → Reachable (new_router address config rng metric watched)
    received :
        (env : Ports W) (r : Router W) (ant : AntMessage W) (prev_hop : NodeAddress)
        → Reachable r
        → Reachable (on_receive_ant env r ant prev_hop).0
    routed :
        (env : Ports W) (r : Router W) (dest prev_hop : NodeAddress)
        → Reachable r
        → Reachable (on_data_packet env r dest prev_hop).0
    ticked : (env : Ports W) (r : Router W) → Reachable r → Reachable (on_maintenance_tick env r).0
    failed :
        (env : Ports W) (r : Router W) (next data_dest : NodeAddress)
        → Reachable r
        → Reachable (report_tx_failure env r next data_dest).0
    noted :
        (env : Ports W) (r : Router W) (dest : NodeAddress)
        → Reachable r
        → Reachable (note_data_session env r dest)
    greeted :
        (env : Ports W) (r : Router W) (max_adverts : ℕ)
        → Reachable r
        → Reachable (create_hello_ant env r max_adverts).1
    probed :
        (env : Ports W) (r : Router W) → Reachable r → Reachable (create_proactive_ants env r).0

  module _ (env : Ports W) where
    table-note_data_session :
        (r : Router W) (dest : NodeAddress) → (note_data_session env r dest).table ≡ r.table
    unfolding note_data_session
    table-note_data_session r dest = ground arith

    table-create_hello_ant :
        (r : Router W) (max_adverts : ℕ) → (create_hello_ant env r max_adverts).1.table ≡ r.table
    unfolding create_hello_ant next_seq notify
    table-create_hello_ant r max_adverts = ground arith

    table-quiet_allows :
        (r : Router W) (dest : NodeAddress) → (quiet_allows r dest).0.table ≡ r.table
    unfolding quiet_allows
    table-quiet_allows r dest = ground arith

    table-visit_session :
        (o : Router W × List (AntMessage W)) (session : NodeAddress × W)
        → (visit_session env o session).0.table ≡ o.0.table
    unfolding visit_session create_forward_ant next_seq notify
    table-visit_session (r, ants) (dest, last) = ground (arith, table-quiet_allows r dest)

    table-create_proactive_ants : (r : Router W) → (create_proactive_ants env r).0.table ≡ r.table
    unfolding create_proactive_ants
    table-create_proactive_ants r = ground (
      arith,
      foldl_frame (λ (o : Router W × List (AntMessage W)). o.0.table) (visit_session env)
          table-visit_session (r, []) r.active_sessions,
    )

  -- In every state that a router can reach its pheromone table is valid: its sets are in order, every
  -- neighbour is a known destination, and every entry's destination is known.
  pub Reachable-IsSound : (r : Router W) → Reachable r → IsSound r
  unfolding new_router
  Reachable-IsSound _ (booted address config rng metric watched) = empty-IsValid
  Reachable-IsSound _ (received env r ant prev_hop h) =
      on_receive_ant-IsSound env r ant prev_hop (Reachable-IsSound r h)
  Reachable-IsSound _ (routed env r dest prev_hop h) =
      on_data_packet-IsSound env r dest prev_hop (Reachable-IsSound r h)
  Reachable-IsSound _ (ticked env r h) = on_maintenance_tick-IsSound env r (Reachable-IsSound r h)
  Reachable-IsSound _ (failed env r next data_dest h) =
      report_tx_failure-IsSound env r next data_dest (Reachable-IsSound r h)
  Reachable-IsSound _ (noted env r dest h) =
      carry _ _ (table-note_data_session env r dest) (Reachable-IsSound r h)
  Reachable-IsSound _ (greeted env r max_adverts h) =
      carry _ _ (table-create_hello_ant env r max_adverts) (Reachable-IsSound r h)
  Reachable-IsSound _ (probed env r h) =
      carry _ _ (table-create_proactive_ants env r) (Reachable-IsSound r h)
