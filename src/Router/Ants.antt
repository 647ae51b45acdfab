-- ===== src/Router/Ants.antt =====
-- Making ants and moving them: forward, hello and backward ants, the stamps of a forward ant and the
-- retraced path of a backward one.
use ant_hoc_net.Collections.Map
use ant_hoc_net.Address.{NodeAddress, invalid_address}
use ant_hoc_net.Collections.Key.{nat_key, pair_key}
use ant_hoc_net.Collections.Map.{Map}
use ant_hoc_net.Config.{Config}
use ant_hoc_net.Double.{Double, gt, nought, one}
use ant_hoc_net.Engine.{update_regular}
use ant_hoc_net.Message.{AntHop, AntMessage, AntType, down, new_message, reactive, repair, up}
use ant_hoc_net.Prelude.{
  List, Option, [], if◌then◌else◌, leb, length, negsuc, none, not, some, to_ℕ, ℤ, ◌&&◌, ◌++◌, ◌==◌,
  ◌∷◌,
}
use ant_hoc_net.Router.{Ports, Router, next_seq}
use ant_hoc_net.Table.{get_pheromone_regular}

module _ {W : Type 0} ⦃d : Double W⦄ where
  -- the sum of the times on a stack, from 0.0
  unfoldable pub sum_times : W → List (AntHop W) → W
  sum_times total [] = total
  sum_times total (h ∷ hs) = sum_times (d.add total h.time) hs

module _ {W : Type 0} ⦃d : Double W⦄ (env : Ports W) where
  open d use {literal, of_nat, add, sub, mul, lt, le, fabs, is_finite}

  abbrev first_budget : Config W → AntType → ℤ
  first_budget c repair = c.repair_max_broadcasts
  first_budget c reactive = negsuc 0
  first_budget c _ = c.proactive_max_broadcasts

  unfoldable pub create_forward_ant : Router W → AntType → NodeAddress → AntMessage W × Router W
  unfolding next_seq
  create_forward_ant r type dest =
      let (seq, r') = next_seq r in
      (
        record new_message {
          type = type;
          direction = up;
          src = r.address;
          dst = dest;
          seq_num = seq;
          time_start = env.now;
          broadcast_budget = first_budget r.config type;
          visited = record { node = r.address; time = nought } ∷ [];
        },
        r',
      )

  unfoldable pub create_back_ant : Router W → AntMessage W → AntMessage W × Router W
  unfolding next_seq
  create_back_ant r forward =
      let (seq, r') = next_seq r in
      (
        record new_message {
          type = forward.type;
          direction = down;
          src = r.address;
          dst = forward.src;
          seq_num = seq;
          time_start = env.now;
          life_ant = forward.life_ant;
          visited = forward.visited;
        },
        r',
      )

  unfoldable pub local_hop_cost : Router W → AntMessage W → NodeAddress → W
  unfolding sum_times
  local_hop_cost r ant next_hop =
      let transit = sub (sub env.now ant.time_start) (sum_times nought ant.visited) in
      if not r.config.enable_mac_metric then transit else elim env.link_state [
        | none ↦ transit
        | some link ↦
            let tmac = link.mac_service_time next_hop in
            if gt tmac nought
            then mul (add (of_nat (to_ℕ (link.mac_queue_length next_hop))) one) tmac
            else r.config.hop_time_sec
      ]

  unfoldable pub stamp_forward : Router W → AntMessage W → NodeAddress → AntMessage W
  unfolding local_hop_cost
  stamp_forward r ant next_hop =
      if leb r.config.max_path_length (length ant.visited) then ant else record ant {
        visited =
            ant.visited ++ (record { node = r.address; time = local_hop_cost r ant next_hop } ∷ []);
      }

-- `back()` of a stack with the rest, if it is not empty
unfoldable pub split_last {ℓ} : {A : Type ℓ} → List A → Option (List A × A)
split_last [] = none
split_last (x ∷ xs) = elim (split_last xs) [
  | none ↦ some ([], x)
  | some (front, last) ↦ some (x ∷ front, last)
]

module _ {W : Type 0} where
  -- the node on top of a stack
  unfoldable pub last_node : List (AntHop W) → NodeAddress
  unfolding split_last
  last_node hops = elim (split_last hops) [ none ↦ invalid_address | some (_, h) ↦ h.node ]

  -- the next hop, and the ant with this node moved from `visited` to `history`
  unfoldable pub advance_back_ant : AntMessage W → NodeAddress × AntMessage W
  unfolding last_node
  advance_back_ant ant = elim (split_last ant.visited) [
    | none ↦ (invalid_address, ant)
    | some (front, current) ↦
        (last_node front, record ant { visited = front; history = ant.history ++ (current ∷ []) })
  ]

module _ {W : Type 0} ⦃d : Double W⦄ where
  open d use {of_nat, add, sub, mul, le, lt}

  unfoldable pub back_ant_pheromone : Router W → AntMessage W → W
  unfolding sum_times
  back_ant_pheromone r ant = r.metric.pheromone (record {
    hops = of_nat (length ant.history);
    path_time = sum_times nought ant.history;
    hop_time = r.config.hop_time_sec;
  })

  unfoldable pub compute_back_ant_state : Router W → AntMessage W → AntMessage W
  unfolding back_ant_pheromone last_node
  compute_back_ant_state r ant = record ant {
    prev_hop = last_node ant.history;
    hops = length ant.history;
    path_time = sum_times nought ant.history;
    pheromone = back_ant_pheromone r ant;
  }

  -- the smoothed hop count of `reinforceFromBackAnt`
  unfoldable pub smoothed_hops : Router W → AntMessage W → W
  smoothed_hops r ant =
      let sample = of_nat ant.hops in
      elim (Map.lookup (ant.src, ant.prev_hop) r.hop_estimate) [
        | none ↦ sample
        | some h ↦
            if le (get_pheromone_regular r.table ant.src ant.prev_hop) nought
            then sample
            else add (mul r.config.hop_count_alpha h)
                (mul (sub one r.config.hop_count_alpha) sample)
      ]

  unfoldable pub reinforce_from_back_ant : Router W → AntMessage W → Router W
  unfolding smoothed_hops
  reinforce_from_back_ant r ant =
      let hops = smoothed_hops r ant in
      let deposit =
        r.metric.pheromone
          (record { hops = hops; path_time = ant.path_time; hop_time = r.config.hop_time_sec }) in
      if gt r.config.hop_count_alpha nought && not (ant.prev_hop == invalid_address)
      then record r {
        hop_estimate = Map.insert (ant.src, ant.prev_hop) hops r.hop_estimate;
        table = update_regular r.config r.table ant.src ant.prev_hop deposit;
      }
      else record r { table = update_regular r.config r.table ant.src ant.prev_hop ant.pheromone }
