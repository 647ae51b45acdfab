-- ===== src/Router/Frame.antt =====
-- What the steps of the router leave of the pheromone table.
use ant_hoc_net.Collections.Map
use ant_hoc_net.Address.{NodeAddress, invalid_address}
use ant_hoc_net.Collections.Key.{nat_key, pair_key}
use ant_hoc_net.Collections.Map.{Map}
use ant_hoc_net.Collections.Visit.{foldl_frame}
use ant_hoc_net.Double.{Double, gt, nought, one}
use ant_hoc_net.Engine.{clean_neighbor, update_regular}
use ant_hoc_net.Message.{AntMessage, HelloDest, repair}
use ant_hoc_net.Prelude.{
  List, Option-cases, [], arith, foldl, if◌then◌else◌, inl, inr, not, some, ℤ, ◌&&◌, ◌==◌, ◌∷◌, ◌≡◌,
  ◌⊎◌,
}
use ant_hoc_net.Router.{
  Notice, Outcome, Ports, RouteAction, Router, broadcast, broadcast_forward, count_ant, increment,
  next_seq, notify, send_ant,
}
use ant_hoc_net.Router.Ants.{create_forward_ant}
use ant_hoc_net.Router.Churn.{churn_dest, update_churn}
use ant_hoc_net.Router.Failure.{
  advertise_loss, affected_by, apply_loss, check_repair, cooldown, handle_link_fail, link_fail_note,
  report_neighbor_loss, report_tx_failure, send_note, start_repair,
}
use ant_hoc_net.Router.Links.{learn_neighbor, link_cost, lose_neighbor}
use ant_hoc_net.Table.{add_neighbor, best_regular, remove_pheromone_regular, set_pheromone_regular}

module _ {W : Type 0} where
  pub table-notify : (r : Router W) (n : Notice) → (notify r n).table ≡ r.table
  unfolding notify
  table-notify r n = ground arith

  pub table-send_ant :
      (r : Router W) (how : RouteAction) (next : NodeAddress) (ant : AntMessage W)
      → (send_ant r how next ant).0.table ≡ r.table
  unfolding send_ant
  table-send_ant r how next ant =
      table-notify (record r { ants_sent = count_ant r.ants_sent ant.type }) _

module _ {W : Type 0} ⦃d : Double W⦄ where
  pub table-broadcast_forward :
      (r : Router W) (ant : AntMessage W) → (broadcast_forward r ant).0.table ≡ r.table
  unfolding broadcast_forward
  table-broadcast_forward r ant = ground (arith, table-send_ant r broadcast invalid_address)

  pub table-lose_neighbor :
      (r : Router W) (n : NodeAddress)
      → (lose_neighbor r n).table ≡ clean_neighbor r.config r.table n
  unfolding lose_neighbor notify
  table-lose_neighbor r n = ground arith

module _ {W : Type 0} ⦃d : Double W⦄ (env : Ports W) where
  pub table-send_note :
      (r : Router W) (budget : ℤ) (adverts : List (HelloDest W))
      → (send_note env r budget adverts).0.table ≡ r.table
  unfolding send_note next_seq
  table-send_note r budget adverts =
      let (seq, r') = next_seq r in
      table-broadcast_forward r' (link_fail_note env r.address seq budget adverts)

  table-advertise_loss :
      (o : Router W × List (HelloDest W)) (loss : NodeAddress × W)
      → (advertise_loss env o loss).0.table ≡ o.0.table
  unfolding advertise_loss cooldown
  table-advertise_loss (r, adverts) (dest, before) = ground arith

  pub table-report_neighbor_loss :
      (r : Router W) (n : NodeAddress)
      → (report_neighbor_loss env r n).0.table ≡ clean_neighbor r.config r.table n
  unfolding report_neighbor_loss
  table-report_neighbor_loss r n =
      let affected = affected_by env r.config r.table n r.table.dest_regular in
      let told = foldl (advertise_loss env) (lose_neighbor r n, []) affected in
      ground (
        arith,
        table-lose_neighbor r n,
        foldl_frame (λ (o : Router W × List (HelloDest W)). o.0.table) (advertise_loss env)
            table-advertise_loss (lose_neighbor r n, []) affected,
        table-send_note told.0 r.config.repair_max_broadcasts told.1,
      )

  table-cooldown :
      (r s : Router W) (dest : NodeAddress) → cooldown env r dest ≡ some s → s.table ≡ r.table
  unfolding cooldown
  table-cooldown r s dest h = ground arith

  pub table-check_repair :
      (o : Outcome W) (entry : NodeAddress × W) → (check_repair env o entry).0.table ≡ o.0.table
  unfolding check_repair
  table-check_repair (r, out) (dest, deadline) =
      let r1 = record r {
        repair_deadline = Map.erase dest r.repair_deadline;
        repair_discards = increment r.repair_discards;
      } in
      let lost : List (HelloDest W) = record { node = dest; pheromone = nought } ∷ [] in
      elim (Option-cases (cooldown env r1 dest)) [
        | inl e ↦ ground (arith, e)
        | inr (s, e) ↦ ground (
          arith,
          e,
          table-cooldown r1 s dest e,
          table-send_note s r.config.repair_max_broadcasts lost,
          table-send_note s s.config.repair_max_broadcasts lost,
        )
      ]

  table-churn_dest :
      (dt w : W) (r : Router W) (dest : NodeAddress) → (churn_dest dt w r dest).table ≡ r.table
  unfolding churn_dest
  table-churn_dest dt w r dest = ground arith

  pub table-update_churn : (r : Router W) (dt : W) → (update_churn r dt).table ≡ r.table
  unfolding update_churn
  table-update_churn r dt =
      let w = d.sub one (d.exp (d.div (d.neg dt) r.config.adaptive_evap_tau)) in
      ground (
        arith,
        foldl_frame (λ (s : Router W). s.table) (churn_dest dt w) (table-churn_dest dt w)
            (record r { evap_multiplier = [] }) r.table.dest_regular,
      )

  pub table-start_repair :
      (r : Router W) (dest : NodeAddress) (delay : W)
      → (start_repair env r dest delay).0.table ≡ r.table
  unfolding start_repair create_forward_ant next_seq
  table-start_repair r dest delay =
      let made =
        create_forward_ant env (record r { last_repair = Map.insert dest env.now r.last_repair })
          repair dest in
      table-broadcast_forward made.1 (record made.0 { life_ant = r.config.life_ant })

  pub table-learn_neighbor :
      (r : Router W) (n : NodeAddress)
      → ((learn_neighbor env r n).table ≡ r.table)
        ⊎ ((learn_neighbor env r n).table
            ≡ update_regular r.config (add_neighbor r.table n) n n (
                r.metric.pheromone (record {
                  hops = one;
                  path_time = link_cost env r n;
                  hop_time = r.config.hop_time_sec;
                })))
  unfolding learn_neighbor notify
  table-learn_neighbor r n = ground arith

  pub table-report_tx_failure :
      (r : Router W) (next data_dest : NodeAddress)
      → ((report_tx_failure env r next data_dest).0.table ≡ r.table)
        ⊎ ((report_tx_failure env r next data_dest).0.table ≡ clean_neighbor r.config r.table next)
  unfolding report_tx_failure
  table-report_tx_failure r next data_dest =
      let r0 = record r { tx_failures = Map.erase next r.tx_failures } in
      let r1 = (report_neighbor_loss env r0 next).0 in
      let best = best_regular r.table data_dest in
      let delay =
        if not (data_dest == invalid_address) && gt best r.config.min_pheromone
        then d.div one best
        else nought in
      ground (arith, table-report_neighbor_loss r0 next, table-start_repair r1 data_dest delay)

  pub table-apply_loss :
      (reporter : NodeAddress) (o : Router W × List (HelloDest W)) (adv : HelloDest W)
      → let t = (apply_loss env reporter o adv).0.table in
        (t ≡ o.0.table)
        ⊎ (t ≡ remove_pheromone_regular o.0.table adv.node reporter)
        ⊎ (t
            ≡ set_pheromone_regular o.0.table adv.node reporter
                (d.div one (d.add (d.div one adv.pheromone) (link_cost env o.0 reporter))))
  unfolding apply_loss
  table-apply_loss reporter (r, adverts) adv = ground arith

  pub table-handle_link_fail :
      (r : Router W) (note : AntMessage W) (reporter : NodeAddress)
      → (handle_link_fail env r note reporter).0.table
        ≡ (foldl (apply_loss env reporter) (r, []) note.hello_dests).0.table
  unfolding handle_link_fail
  table-handle_link_fail r note reporter =
      let told = foldl (apply_loss env reporter) (r, []) note.hello_dests in
      ground (arith, table-send_note told.0 note.broadcast_budget told.1)
