-- ===== src/World/Clock.antt =====
-- The timers of web/src/sim.cpp, the running of its events, and what is done to a world from outside.
use ant_hoc_net.Collections.Set
use ant_hoc_net.Address.{NodeAddress, invalid_address}
use ant_hoc_net.Codec.{Patterns}
use ant_hoc_net.Collections.Key.{nat_key, pair_key}
use ant_hoc_net.Double.{Double, gt, nought, one}
use ant_hoc_net.Message.{AntMessage, reactive}
use ant_hoc_net.Prelude.{
  Bool, List, Option, [], false, foldl, if◌then◌else◌, none, some, suc, true, zero, ℕ, ◌++◌, ◌==◌,
  ◌∷◌,
}
use ant_hoc_net.Router.Ants.{create_forward_ant}
use ant_hoc_net.Router.Failure.{on_maintenance_tick}
use ant_hoc_net.Router.Links.{select_next_hop}
use ant_hoc_net.Router.Sessions.{create_hello_ant, create_proactive_ants}
use ant_hoc_net.Table.{advance, uniform}
use ant_hoc_net.World.{
  Action, Packet, World, ant_arrives, ant_fails, ask, battery_due, data_arrives, data_fails,
  flow_due, hello_due, node_of, pop_first, proactive_due, purge_due, put_node, retry_due, schedule,
  switch_due,
}
use ant_hoc_net.World.Adapter.{ant_failed, data_failed, execute, flow_tick, recv_ant, recv_data}
use ant_hoc_net.World.Queue.{ask_hop, flush_queue, purge}
use ant_hoc_net.World.Radio.{drain_battery, send_ant, set_node_up}

module _ {W : Type 0} ⦃d : Double W⦄ where
  open d use {literal, add, sub, mul}

  -- `jittered`: from [0, 1) at first, and from within 5 % later
  unfoldable pub jittered : NodeAddress → W → Bool → World W → W × World W
  jittered id base is_first w =
      let n = node_of w id in
      let u = uniform n.timer_rng in
      let lo = sub one (literal 5 2) in
      let hi = add one (literal 5 2) in
      (
        mul base (if is_first then u else add lo (mul (sub hi lo) u)),
        put_node id (record n { timer_rng = advance n.timer_rng }) w,
      )

  -- the timer fires again after the jittered interval
  unfoldable pub rearm : NodeAddress → W → Bool → Action W → World W → World W
  rearm id interval is_first fn w =
      let (wait, w') = jittered id interval is_first w in schedule (add w.now wait) fn w'

module _ {W : Type 0} ⦃d : Double W⦄ ⦃bits : Patterns W⦄ where
  open d use {lt, le, literal, add}

  -- liveness first, then the beacon
  unfoldable pub beacon : NodeAddress → World W → World W
  beacon id w =
      let w1 = execute id (ask id (λ env r. on_maintenance_tick env r) w) in
      let (w2, ant) =
        ask id
          (λ env r. let (ant, r') = create_hello_ant env r r.config.max_hello_adverts in (r', ant))
          w1 in
      send_ant id ant invalid_address w2

  unfoldable pub hello_timer : NodeAddress → World W → World W
  hello_timer id w =
      rearm id w.config.hello_interval false (hello_due id)
        (if (node_of w id).up then beacon id w else w)

  unfoldable pub send_probe : NodeAddress → World W → AntMessage W → World W
  send_probe id w ant =
      let (w', next) =
        ask id (λ env r. let (next, r') = select_next_hop env r ant.dst true in (r', next)) w in
      send_ant id ant (if next == invalid_address then invalid_address else next) w'

  unfoldable pub probe : NodeAddress → World W → World W
  probe id w =
      let (w', ants) = ask id (λ env r. create_proactive_ants env r) w in
      foldl (send_probe id) w' ants

  unfoldable pub proactive_timer : NodeAddress → World W → World W
  proactive_timer id w =
      rearm id w.config.proactive_interval false (proactive_due id)
        (if (node_of w id).up then probe id w else w)

  -- the destinations of the held packets, each once, in the order of their first packets
  unfoldable pub held_for : List NodeAddress → List (Packet W) → List NodeAddress
  held_for dests [] = dests
  held_for dests (p ∷ ps) =
      held_for (if Set.contains p.dst dests then dests else dests ++ (p.dst ∷ [])) ps

  unfoldable pub retry_one : NodeAddress → World W → NodeAddress → World W
  retry_one id w dst =
      let (w1, next) = ask_hop id dst invalid_address w in
      let (w2, ant) =
        ask id (λ env r. let (ant, r') = create_forward_ant env r reactive dst in (r', ant)) w1 in
      if next == invalid_address then send_ant id ant invalid_address w2 else flush_queue id dst w1

  unfoldable pub retry : NodeAddress → World W → World W
  retry id w = let w' = purge id w in foldl (retry_one id) w' (held_for [] (node_of w' id).pending)

  unfoldable pub retry_timer : NodeAddress → World W → World W
  retry_timer id w =
      schedule (add w.now (literal 25 2)) (retry_due id)
        (if (node_of w id).up then retry id w else w)

  unfoldable pub battery_timer : NodeAddress → World W → World W
  battery_timer id w =
      let w' = drain_battery id nought w in
      if gt (node_of w' id).battery nought
      then schedule (add w.now (literal 10 1)) (battery_due id) w'
      else w'

  unfoldable pub perform : Action W → World W → World W
  perform (ant_arrives to from bytes) w = recv_ant to from bytes w
  perform (data_arrives to from p) w = recv_data to from p w
  perform (ant_fails from to) w = ant_failed from to w
  perform (data_fails from next p) w = data_failed from next p w
  perform (purge_due id) w = purge id w
  perform (hello_due id) w = hello_timer id w
  perform (proactive_due id) w = proactive_timer id w
  perform (retry_due id) w = retry_timer id w
  perform (battery_due id) w = battery_timer id w
  perform (flow_due f) w = flow_tick f w
  perform (switch_due id switch) w = set_node_up id switch w

  -- one round of the loop of `advanceTo`; `none` where no event is due
  unfoldable pub step : W → World W → Option (World W)
  step until w = elim w.events [
    | [] ↦ none
    | e ∷ es ↦
        let (s, rest) = pop_first e es in
        if le s.t until then some (perform s.fn (record w { events = rest; now = s.t })) else none
  ]

  -- the loop of `advanceTo`, for at most the rounds of the fuel
  unfoldable pub advance_for : ℕ → W → World W → World W
  advance_for zero until w = w
  advance_for (suc n) until w = elim (step until w) [
    | none ↦ if lt w.now until then record w { now = until } else w
    | some w' ↦ advance_for n until w'
  ]
