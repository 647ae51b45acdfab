-- ===== src/Router/Validity.antt =====
-- The handlers of the router keep the invariant of the pheromone table.
use ant_hoc_net.Address.{NodeAddress}
use ant_hoc_net.Collections.Key.{nat_key, pair_key}
use ant_hoc_net.Collections.Map.{Map}
use ant_hoc_net.Collections.Visit.{foldl_frame, foldl_inv}
use ant_hoc_net.Double.{Double}
use ant_hoc_net.Engine.Validity.{
  clean_neighbor-IsValid, evaporate_all-IsValid, update_regular-IsValid,
}
use ant_hoc_net.Message.{AntMessage, HelloDest}
use ant_hoc_net.Prelude.{Bool, List, Option, [], foldl, if_Holds, inl, inr, none, some, ◌≡◌}
use ant_hoc_net.Router.{Outcome, Ports, Router, of_int}
use ant_hoc_net.Router.Churn.{update_churn}
use ant_hoc_net.Router.Failure.{
  age_table, apply_loss, check_repair, expire, expired_neighbors, handle_link_fail,
  on_maintenance_tick, report_neighbor_loss, report_tx_failure,
}
use ant_hoc_net.Router.Frame.{
  table-apply_loss, table-check_repair, table-handle_link_fail, table-learn_neighbor,
  table-report_neighbor_loss, table-report_tx_failure, table-update_churn,
}
use ant_hoc_net.Router.Links.{
  learn_neighbor, next_hop_for_data, refresh_link_weights, select_next_hop,
}
use ant_hoc_net.Table.{PheromoneTable, add_neighbor, set_link_weights}
use ant_hoc_net.Table.Validity.{
  IsValid, add_neighbor-IsValid, remove_pheromone_regular-IsValid, set_pheromone_regular-IsValid,
}

module _ {W : Type 0} where
  set_link_weights-IsValid :
      (t : PheromoneTable W) (weights : Option (Map NodeAddress W))
      → IsValid t
      → IsValid (set_link_weights t weights)
  unfolding set_link_weights
  set_link_weights-IsValid t weights valid = record {
    neighbors_ascending = valid.neighbors_ascending;
    regular_ascending = valid.regular_ascending;
    virtual_ascending = valid.virtual_ascending;
    neighbor_regular = valid.neighbor_regular;
    neighbor_virtual = valid.neighbor_virtual;
    regular_known = valid.regular_known;
    virtual_known = valid.virtual_known;
  }

  -- the router's table is valid
  abbrev pub IsSound : Router W → Type 0
  IsSound r = IsValid r.table

  abbrev pub LeavesSound : Outcome W → Type 0
  LeavesSound o = IsSound o.0

  pub carry : (t u : PheromoneTable W) → u ≡ t → IsValid t → IsValid u
  carry t u e valid = rw e valid

module _ {W : Type 0} ⦃d : Double W⦄ (env : Ports W) where
  pub refresh_link_weights-IsSound :
      (r : Router W) → IsSound r → IsSound (refresh_link_weights env r)
  unfolding refresh_link_weights
  refresh_link_weights-IsSound r valid = set_link_weights-IsValid r.table _ valid

  pub select_next_hop-IsSound :
      (r : Router W) (dest : NodeAddress) (is_proactive : Bool)
      → IsSound r
      → IsSound (select_next_hop env r dest is_proactive).1
  unfolding select_next_hop
  select_next_hop-IsSound r dest is_proactive valid =
      if_Holds IsSound r.config.enable_link_lifetime (refresh_link_weights-IsSound r valid) valid

  pub next_hop_for_data-IsSound :
      (r : Router W) (dest prev_hop : NodeAddress)
      → IsSound r
      → IsSound (next_hop_for_data env r dest prev_hop).1
  unfolding next_hop_for_data
  next_hop_for_data-IsSound r dest prev_hop valid =
      if_Holds IsSound r.config.enable_link_lifetime (refresh_link_weights-IsSound r valid) valid

  pub learn_neighbor-IsSound :
      (r : Router W) (n : NodeAddress) → IsSound r → IsSound (learn_neighbor env r n)
  learn_neighbor-IsSound r n valid = elim (table-learn_neighbor env r n) [
    | inl e ↦ carry _ _ e valid
    | inr e ↦ carry _ _ e (
        update_regular-IsValid r.config (add_neighbor r.table n) n n _
          (add_neighbor-IsValid r.table n valid))
  ]

  pub report_neighbor_loss-IsSound :
      (r : Router W) (n : NodeAddress) → IsSound r → LeavesSound (report_neighbor_loss env r n)
  report_neighbor_loss-IsSound r n valid =
      carry _ _ (table-report_neighbor_loss env r n)
        (clean_neighbor-IsValid r.config r.table n valid)

  pub expire-IsSound :
      (o : Outcome W) (n : NodeAddress) → LeavesSound o → LeavesSound (expire env o n)
  unfolding expire
  expire-IsSound (r, out) n valid = report_neighbor_loss-IsSound r n valid

  pub age_table-IsSound : (r : Router W) → IsSound r → IsSound (age_table env r)
  unfolding age_table
  age_table-IsSound r valid =
      let dt = d.sub env.now r.last_evaporation in
      let r' = update_churn r dt in
      if_Holds IsSound _ valid (
        if_Holds IsSound r.config.enable_adaptive_evaporation
          (evaporate_all-IsValid r'.config r'.table dt (some r'.evap_multiplier)
            (carry _ _ (table-update_churn env r dt) valid))
          (evaporate_all-IsValid r.config r.table dt none valid))

  apply_loss-IsSound :
      (reporter : NodeAddress) (o : Router W × List (HelloDest W)) (adv : HelloDest W)
      → IsSound o.0
      → IsSound (apply_loss env reporter o adv).0
  apply_loss-IsSound reporter o adv valid = elim (table-apply_loss env reporter o adv) [
    | inl e ↦ carry _ _ e valid
    | inr (inl e) ↦ carry _ _ e (remove_pheromone_regular-IsValid o.0.table adv.node reporter valid)
    | inr (inr e) ↦ carry _ _ e (set_pheromone_regular-IsValid o.0.table adv.node reporter _ valid)
  ]

  -- One maintenance tick keeps the pheromone table valid: the aging, the loss of every neighbour
  -- that was not heard from, and every repair whose deadline has passed.
  pub on_maintenance_tick-IsSound :
      (r : Router W) → IsSound r → LeavesSound (on_maintenance_tick env r)
  unfolding on_maintenance_tick
  on_maintenance_tick-IsSound r valid =
      let r1 = age_table env r in
      let max_idle = d.mul r.config.hello_interval (of_int r.config.allowed_hello_loss) in
      let o = foldl (expire env) (r1, []) (expired_neighbors env max_idle r1.last_seen) in
      carry o.0.table _
        (foldl_frame (λ (s : Outcome W). s.0.table) (check_repair env) (table-check_repair env) o
          o.0.repair_deadline)
        (foldl_inv LeavesSound (expire env) expire-IsSound (r1, [])
          (expired_neighbors env max_idle r1.last_seen) (age_table-IsSound r valid))

  -- A reported transmission failure keeps the pheromone table valid, whether it is only counted,
  -- loses the neighbour, or starts a repair as well.
  pub report_tx_failure-IsSound :
      (r : Router W) (next data_dest : NodeAddress)
      → IsSound r
      → LeavesSound (report_tx_failure env r next data_dest)
  report_tx_failure-IsSound r next data_dest valid =
      elim (table-report_tx_failure env r next data_dest) [
        | inl e ↦ carry _ _ e valid
        | inr e ↦ carry _ _ e (clean_neighbor-IsValid r.config r.table next valid)
      ]

  pub handle_link_fail-IsSound :
      (r : Router W) (note : AntMessage W) (reporter : NodeAddress)
      → IsSound r
      → LeavesSound (handle_link_fail env r note reporter)
  handle_link_fail-IsSound r note reporter valid =
      let told = foldl (apply_loss env reporter) (r, []) note.hello_dests in
      let heard : IsSound told.0 =
        foldl_inv (λ (o : Router W × List (HelloDest W)). IsSound o.0) (apply_loss env reporter)
          (apply_loss-IsSound reporter) (r, []) note.hello_dests valid in
      carry _ _ (table-handle_link_fail env r note reporter) heard
