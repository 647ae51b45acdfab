-- ===== src/Router/Churn.antt =====
-- The best next hop of a destination over time: quiet mode and adaptive evaporation.
use ant_hoc_net.Collections.Map
use ant_hoc_net.Collections.Set
use ant_hoc_net.Address.{NodeAddress, invalid_address}
use ant_hoc_net.Collections.Key.{nat_key, pair_key}
use ant_hoc_net.Collections.Map.{Map}
use ant_hoc_net.Config.{Config}
use ant_hoc_net.Double.{Double, ge, gt, nought, one}
use ant_hoc_net.Prelude.{
  Bool, List, [], foldl, if◌then◌else◌, none, not, some, true, ◌&&◌, ◌+◌, ◌==◌, ◌∷◌,
}
use ant_hoc_net.Router.{ChurnState, QuietState, Router, of_int}
use ant_hoc_net.Table.{PheromoneTable, get_pheromone_regular}

module _ {W : Type 0} ⦃d : Double W⦄ where
  open d use {of_nat, neg, add, sub, mul, div, pow, exp, fabs, lt, le}

  -- the loop over the neighbours: the first with the largest value above the one at hand
  unfoldable pub best_hop : (NodeAddress → W) → NodeAddress × W → List NodeAddress → NodeAddress × W
  best_hop value best [] = best
  best_hop value best (n ∷ ns) =
      best_hop value (if gt (value n) best.1 then (n, value n) else best) ns

  unfoldable pub best_next_hop : PheromoneTable W → NodeAddress → NodeAddress × W
  unfolding best_hop
  best_next_hop t dest =
      best_hop (get_pheromone_regular t dest) (invalid_address, nought) t.neighbors

  -- quiet_[dest], made with the defaults if it is missing
  abbrev pub quiet_state : Router W → NodeAddress → QuietState W
  quiet_state r dest = elim (Map.lookup dest r.quiet) [
    | none ↦ record { best = invalid_address; pheromone = nought; stable = 0; skipped = 0 }
    | some q ↦ q
  ]

  -- the route looks as it did last round
  unfoldable pub is_same_route : Config W → QuietState W → NodeAddress × W → Bool
  is_same_route c q (best, ph) =
      not (best == invalid_address)
      && best == q.best
      && le (fabs (sub ph q.pheromone)) (mul c.quiet_tolerance q.pheromone)

  unfoldable pub quiet_allows : Router W → NodeAddress → Router W × Bool
  unfolding best_next_hop is_same_route
  quiet_allows r dest =
      let found = best_next_hop r.table dest in
      let q = quiet_state r dest in
      let stable = if is_same_route r.config q found then q.stable + 1 else 0 in
      let grown = pow r.config.quiet_backoff_factor (of_nat stable) in
      let most = of_int r.config.quiet_max_backoff in
      let backoff = if gt grown most then most else grown in
      let due = ge (of_nat (q.skipped + 1)) backoff in
      let q' : QuietState W = record {
        best = found.0;
        pheromone = found.1;
        stable = stable;
        skipped = if due then 0 else q.skipped + 1;
      } in
      if not r.config.enable_quiet_mode
      then (r, true)
      else (record r { quiet = Map.insert dest q' r.quiet }, due)

  -- one destination of `updateChurn`
  unfoldable pub churn_dest : W → W → Router W → NodeAddress → Router W
  unfolding best_next_hop
  churn_dest dt w r dest =
      let best = (best_next_hop r.table dest).0 in
      elim (Map.lookup dest r.churn) [
        | none ↦ record r {
          churn = Map.insert dest (record { best = best; rate = nought }) r.churn;
        }
        | some c ↦
            let changed = if best == c.best then nought else one in
            let rate = add (mul (sub one w) c.rate) (div (mul w changed) dt) in
            let m0 = div rate r.config.adaptive_evap_ref_churn in
            let m1 = if lt m0 r.config.adaptive_evap_min then r.config.adaptive_evap_min else m0 in
            let m2 = if gt m1 r.config.adaptive_evap_max then r.config.adaptive_evap_max else m1 in
            record r {
              churn = Map.insert dest (record { best = best; rate = rate }) r.churn;
              evap_multiplier = Map.insert dest m2 r.evap_multiplier;
            }
      ]

  -- the destinations that the table no longer holds are forgotten
  unfoldable pub known_churn :
      List NodeAddress → Map NodeAddress (ChurnState W) → Map NodeAddress (ChurnState W)
  known_churn dests [] = []
  known_churn dests ((n, c) ∷ m) =
      let rest = known_churn dests m in if Set.contains n dests then (n, c) ∷ rest else rest

  unfoldable pub update_churn : Router W → W → Router W
  unfolding churn_dest known_churn
  update_churn r dt =
      if le dt nought
      then r
      else let w = sub one (exp (div (neg dt) r.config.adaptive_evap_tau)) in
        let r' = foldl (churn_dest dt w) (record r { evap_multiplier = [] }) r.table.dest_regular in
        record r' { churn = known_churn r'.table.dest_regular r'.churn }
