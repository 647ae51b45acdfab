-- ===== src/Router/Failure.antt =====
-- Lost neighbours and failed transmissions: link-failure notes, local repair, the maintenance tick.
use ant_hoc_net.Collections.Map
use ant_hoc_net.Address.{NodeAddress, invalid_address}
use ant_hoc_net.Collections.Key.{nat_key, pair_key}
use ant_hoc_net.Collections.Map.{Map}
use ant_hoc_net.Config.{Config}
use ant_hoc_net.Double.{Double, ge, gt, nought, one}
use ant_hoc_net.Engine.{evaporate_all}
use ant_hoc_net.Message.{AntMessage, HelloDest, link_fail, new_message, repair, up}
use ant_hoc_net.Prelude.{
  Bool, List, Option, [], foldl, if◌then◌else◌, lt_ℤ, none, not, some, true, ℕ, ℤ, ◌&&◌, ◌++◌, ◌+◌,
  ◌==◌, ◌∷◌,
}
use ant_hoc_net.Router.{
  Outcome, Ports, RouteAction, RouteDecision, Router, bare, broadcast, broadcast_forward,
  discard_pending, increment, next_seq, of_int,
}
use ant_hoc_net.Router.Ants.{create_forward_ant}
use ant_hoc_net.Router.Churn.{update_churn}
use ant_hoc_net.Router.Links.{link_cost, lose_neighbor}
use ant_hoc_net.Table.{
  PheromoneTable, best_regular, get_pheromone_regular, remove_pheromone_regular,
  set_pheromone_regular,
}

module _ {W : Type 0} ⦃d : Double W⦄ (env : Ports W) where
  open d use {literal, add, sub, mul, div, lt, le}

  -- the destinations whose best path runs through n, with the best value
  unfoldable pub affected_by :
      Config W → PheromoneTable W → NodeAddress → List NodeAddress → List (NodeAddress × W)
  affected_by c t n [] = []
  affected_by c t n (dest ∷ dests) =
      let via = get_pheromone_regular t dest n in
      let before = best_regular t dest in
      let rest = affected_by c t n dests in
      if le via c.min_pheromone
      then rest
      else if ge via (sub before (literal 1 12))
      then (dest, before) ∷ rest
      else rest

  -- the origin cooldown: `none` suppresses the note, `some` notes the time
  unfoldable pub cooldown : Router W → NodeAddress → Option (Router W)
  cooldown r dest =
      let noted = record r {
        last_linkfail_notify = Map.insert dest env.now r.last_linkfail_notify;
      } in
      if not (gt r.config.linkfail_notify_interval nought)
      then some r
      else elim (Map.lookup dest r.last_linkfail_notify) [
        | none ↦ some noted
        | some last ↦
            if lt (sub env.now last) r.config.linkfail_notify_interval then none else some noted
      ]

  abbrev pub suppress : Router W → Router W
  suppress r = record r { linkfail_origins_suppressed = increment r.linkfail_origins_suppressed }

  -- one affected destination: the adverts of the note so far, and the state
  unfoldable pub advertise_loss :
      Router W × List (HelloDest W) → NodeAddress × W → Router W × List (HelloDest W)
  unfolding cooldown
  advertise_loss (r, adverts) (dest, before) =
      let after = best_regular r.table dest in
      if ge after before
      then (r, adverts)
      else if r.config.enable_multipath && gt after r.config.min_pheromone
      then (suppress r, adverts)
      else elim (cooldown r dest) [
        | none ↦ (suppress r, adverts)
        | some r' ↦ (r', adverts ++ (record { node = dest; pheromone = after } ∷ []))
      ]

  abbrev pub link_fail_note : NodeAddress → ℕ → ℤ → List (HelloDest W) → AntMessage W
  link_fail_note src seq budget adverts = record new_message {
    type = link_fail;
    direction = up;
    src = src;
    seq_num = seq;
    time_start = env.now;
    broadcast_budget = budget;
    hello_dests = adverts;
  }

  -- number a note, and broadcast it if its budget allows
  unfoldable pub send_note : Router W → ℤ → List (HelloDest W) → Router W × RouteDecision W
  unfolding next_seq broadcast_forward
  send_note r budget adverts =
      let (seq, r') = next_seq r in
      broadcast_forward r' (link_fail_note r.address seq budget adverts)

  unfoldable pub report_neighbor_loss : Router W → NodeAddress → Outcome W
  unfolding affected_by advertise_loss send_note lose_neighbor
  report_neighbor_loss r n =
      let affected = affected_by r.config r.table n r.table.dest_regular in
      let lost = lose_neighbor r n in
      let (r1, adverts) = foldl advertise_loss (lost, []) affected in
      let (r2, decision) = send_note r1 r.config.repair_max_broadcasts adverts in
      if not r.config.enable_link_fail
      then (lost, [])
      else elim adverts [ [] ↦ (r1, []) | a ∷ more ↦ (r2, decision ∷ []) ]

  -- the failures in a row toward `next`, one more than before
  unfoldable pub failures_after : Router W → NodeAddress → ℕ
  failures_after r next = elim (Map.lookup next r.tx_failures) [ none ↦ 1 | some n ↦ n + 1 ]

  -- now - last >= reactiveRetryInterval, or no last time
  unfoldable pub may_retry : Config W → Map NodeAddress W → NodeAddress → Bool
  may_retry c last dest = elim (Map.lookup dest last) [
    | none ↦ true
    | some time ↦ ge (sub env.now time) c.reactive_retry_interval
  ]

  -- the repair ant, and the window that it is given
  unfoldable pub start_repair : Router W → NodeAddress → W → Router W × RouteDecision W
  unfolding create_forward_ant broadcast_forward
  start_repair r dest lost_delay =
      let (ant, r1) =
        create_forward_ant env (record r { last_repair = Map.insert dest env.now r.last_repair })
          repair dest in
      let (r2, decision) = broadcast_forward r1 (record ant { life_ant = r.config.life_ant }) in
      let wait =
        if gt lost_delay nought
        then mul r.config.repair_wait_factor lost_delay
        else r.config.repair_timeout in
      (
        record r2 { repair_deadline = Map.insert dest (add env.now wait) r2.repair_deadline },
        decision,
      )

  unfoldable pub report_tx_failure : Router W → NodeAddress → NodeAddress → Outcome W
  unfolding failures_after may_retry start_repair report_neighbor_loss
  report_tx_failure r next data_dest =
      let failures = failures_after r next in
      let best = best_regular r.table data_dest in
      let has_data = not (data_dest == invalid_address) in
      let lost_delay =
        if has_data && gt best r.config.min_pheromone then div one best else nought in
      let (r1, notes) =
        report_neighbor_loss (record r { tx_failures = Map.erase next r.tx_failures }) next in
      let (r2, decision) = start_repair r1 data_dest lost_delay in
      let wanted =
        r.config.enable_repair
        && has_data
        && not (data_dest == r.address)
        && le (best_regular r1.table data_dest) r.config.min_pheromone
        && may_retry r.config r1.last_repair data_dest in
      if next == invalid_address
      then (r, [])
      else if lt_ℤ failures r.config.tx_failure_threshold
      then (record r { tx_failures = Map.insert next failures r.tx_failures }, [])
      else if wanted
      then (r2, notes ++ (decision ∷ []))
      else (r1, notes)

  -- one advert of a received note, with the adverts to propagate so far
  unfoldable pub apply_loss :
      NodeAddress → Router W × List (HelloDest W) → HelloDest W → Router W × List (HelloDest W)
  unfolding link_cost
  apply_loss reporter (r, adverts) adv =
      let dest = adv.node in
      let before = best_regular r.table dest in
      let via_reporter = gt (get_pheromone_regular r.table dest reporter) r.config.min_pheromone in
      let bootstrapped = div one (add (div one adv.pheromone) (link_cost env r reporter)) in
      let r' = record r {
        table =
            if le adv.pheromone r.config.min_pheromone
            then remove_pheromone_regular r.table dest reporter
            else set_pheromone_regular r.table dest reporter bootstrapped;
      } in
      let after = best_regular r'.table dest in
      if dest == r.address
      then (r, adverts)
      else if not (via_reporter && lt after before)
      then (r', adverts)
      else if r.config.enable_multipath && gt after r.config.min_pheromone
      then (r', adverts)
      else (r', adverts ++ (record { node = dest; pheromone = after } ∷ []))

  -- counts a propagated note, or one whose budget was spent
  abbrev count_propagation : Router W → RouteAction → Router W
  count_propagation r broadcast = record r {
    linkfail_propagations = increment r.linkfail_propagations;
  }
  count_propagation r _ = record r { linkfail_budget_drops = increment r.linkfail_budget_drops }

  unfoldable pub handle_link_fail : Router W → AntMessage W → NodeAddress → Outcome W
  unfolding apply_loss send_note
  handle_link_fail r note reporter =
      let (r1, adverts) = foldl (apply_loss reporter) (r, []) note.hello_dests in
      let (r2, decision) = send_note r1 note.broadcast_budget adverts in
      elim adverts [
        | [] ↦ (r1, [])
        | a ∷ more ↦
            if not r.config.enable_link_fail
            then (r1, [])
            else (count_propagation r2 decision.action, decision ∷ [])
      ]

  -- the neighbours not heard from for longer than max_idle
  unfoldable pub expired_neighbors : W → Map NodeAddress W → List NodeAddress
  expired_neighbors max_idle [] = []
  expired_neighbors max_idle ((n, last) ∷ m) =
      let rest = expired_neighbors max_idle m in
      if gt (sub env.now last) max_idle then n ∷ rest else rest

  unfoldable pub expire : Outcome W → NodeAddress → Outcome W
  unfolding report_neighbor_loss
  expire (r, out) n = let (r', notes) = report_neighbor_loss r n in (r', out ++ notes)

  -- one entry of `repairDeadline_`
  unfoldable pub check_repair : Outcome W → NodeAddress × W → Outcome W
  unfolding cooldown send_note
  check_repair (r, out) (dest, deadline) =
      let r1 = record r { repair_deadline = Map.erase dest r.repair_deadline } in
      let r2 = record r1 { repair_discards = increment r1.repair_discards } in
      let out' = out ++ (bare discard_pending dest ∷ []) in
      if lt env.now deadline
      then (r, out)
      else if gt (best_regular r.table dest) r.config.min_pheromone
      then (r1, out)
      else if not r.config.enable_link_fail
      then (r2, out')
      else elim (cooldown r2 dest) [
        | none ↦ (suppress r2, out')
        | some r3 ↦
            let (r4, decision) =
              send_note r3 r.config.repair_max_broadcasts
                (record { node = dest; pheromone = nought } ∷ []) in
            (r4, out' ++ (decision ∷ []))
      ]

  unfoldable pub age_table : Router W → Router W
  unfolding update_churn
  age_table r =
      let dt = sub env.now r.last_evaporation in
      let r' = update_churn r dt in
      if not r.config.enable_evaporation
      then r
      else if r.config.enable_adaptive_evaporation
      then record r' {
        table = evaporate_all r'.config r'.table dt (some r'.evap_multiplier);
        last_evaporation = env.now;
      }
      else record r { table = evaporate_all r.config r.table dt none; last_evaporation = env.now }

  unfoldable pub on_maintenance_tick : Router W → Outcome W
  unfolding age_table expired_neighbors expire check_repair
  on_maintenance_tick r =
      let r1 = age_table r in
      let max_idle = mul r.config.hello_interval (of_int r.config.allowed_hello_loss) in
      let (r2, out) = foldl expire (r1, []) (expired_neighbors max_idle r1.last_seen) in
      foldl check_repair (r2, out) r2.repair_deadline
