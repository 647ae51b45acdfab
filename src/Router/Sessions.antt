-- ===== src/Router/Sessions.antt =====
-- Active data sessions, the proactive ants that monitor them, and the hello ant.
use ant_hoc_net.Collections.Map
use ant_hoc_net.Collections.Set
use ant_hoc_net.Address.{NodeAddress, invalid_address}
use ant_hoc_net.Codec.{max_hello_on_wire}
use ant_hoc_net.Collections.Key.{nat_key, pair_key}
use ant_hoc_net.Collections.Map.{Map}
use ant_hoc_net.Config.{Config}
use ant_hoc_net.Double.{Double, ge, gt, nought, one}
use ant_hoc_net.Message.{AntMessage, HelloDest, Kinematics, hello, new_message, proactive, up}
use ant_hoc_net.Prelude.{
  Bool, List, [], false, foldl, if◌then◌else◌, min, none, not, some, take, true, ℕ, ◌&&◌, ◌*◌, ◌++◌,
  ◌==◌, ◌^◌, ◌||◌, ◌∷◌,
}
use ant_hoc_net.Router.{Ports, Router, ant_sent, count_ant, next_seq, notify, sharing_kinematics}
use ant_hoc_net.Router.Ants.{create_forward_ant}
use ant_hoc_net.Router.Churn.{quiet_allows}
use ant_hoc_net.Router.Links.{own_position}
use ant_hoc_net.Table.{PheromoneTable, best_regular, get_pheromone_regular, get_pheromone_virtual}

module _ {W : Type 0} ⦃d : Double W⦄ (env : Ports W) where
  open d use {literal, add, sub, mul, lt, le, fabs, is_finite}

  unfoldable pub note_data_session : Router W → NodeAddress → Router W
  note_data_session r dest =
      if dest == invalid_address || dest == r.address
      then r
      else record r { active_sessions = Map.insert dest env.now r.active_sessions }

  unfoldable pub active_of : W → Map NodeAddress W → List NodeAddress
  active_of ttl [] = []
  active_of ttl ((dest, last) ∷ m) =
      let rest = active_of ttl m in if le (sub env.now last) ttl then dest ∷ rest else rest

  unfoldable pub active_destinations : Router W → List NodeAddress
  unfolding active_of
  active_destinations r = active_of r.config.session_ttl r.active_sessions

  -- the loop of `shouldSendProactive`: a hint on an unsampled link, or one that beats the regular
  -- value of its own link by the margin
  unfoldable pub has_better_hint :
      Config W → PheromoneTable W → NodeAddress → List NodeAddress → Bool
  has_better_hint c t dest [] = false
  has_better_hint c t dest (n ∷ ns) =
      let v = get_pheromone_virtual t dest n in
      let r = get_pheromone_regular t dest n in
      let rest = has_better_hint c t dest ns in
      if le v c.min_pheromone
      then rest
      else if le r c.min_pheromone
      then true
      else if ge v (mul r (add one c.proactive_virtual_margin))
      then true
      else rest

  unfoldable pub should_send_proactive : Router W → NodeAddress → Bool
  unfolding has_better_hint
  should_send_proactive r dest =
      if le r.config.proactive_virtual_margin nought
      then true
      else if not r.config.enable_diffusion
      then true
      else if le (best_regular r.table dest) r.config.min_pheromone
      then true
      else has_better_hint r.config r.table dest r.table.neighbors

  -- one session of `createProactiveAnts`; the ants so far come first
  unfoldable pub visit_session :
      Router W × List (AntMessage W) → NodeAddress × W → Router W × List (AntMessage W)
  unfolding should_send_proactive quiet_allows create_forward_ant notify count_ant
  visit_session (r, ants) (dest, last) =
      if lt r.config.session_ttl (sub env.now last)
      then (
        record r {
          quiet = Map.erase dest r.quiet;
          active_sessions = Map.erase dest r.active_sessions;
        },
        ants,
      )
      else if not (should_send_proactive r dest)
      then (r, ants)
      else let (r1, allowed) = quiet_allows r dest in
        let (ant, r2) = create_forward_ant env r1 proactive dest in
        let r3 = record r2 { ants_sent = count_ant r2.ants_sent proactive } in
        if allowed
        then (notify r3 (ant_sent proactive up false), ants ++ (ant ∷ []))
        else (r1, ants)

  unfoldable pub create_proactive_ants : Router W → Router W × List (AntMessage W)
  unfolding visit_session
  create_proactive_ants r =
      if not r.config.enable_proactive
      then (r, [])
      else foldl visit_session (r, []) r.active_sessions

  -- a value that float32 can carry
  abbrev pub is_sendable : W → Bool
  is_sendable v = is_finite v && lt (fabs v) (literal (3 * 10 ^ 38) 0)

  abbrev pub is_sendable_position : Kinematics W → Bool
  is_sendable_position k =
      is_sendable k.x
      && is_sendable k.y
      && is_sendable k.z
      && is_sendable k.vx
      && is_sendable k.vy
      && is_sendable k.vz

  -- the destinations with a usable path, with their best values
  unfoldable pub advert_candidates :
      Config W → PheromoneTable W → List NodeAddress → List (HelloDest W)
  advert_candidates c t [] = []
  advert_candidates c t (dest ∷ dests) =
      let best = best_regular t dest in
      let rest = advert_candidates c t dests in
      if le best c.min_pheromone then rest else record { node = dest; pheromone = best } ∷ rest

  -- active sessions first, then by value
  unfoldable pub is_before : List NodeAddress → HelloDest W → HelloDest W → Bool
  is_before active a b =
      let active_a = Set.contains a.node active in
      let active_b = Set.contains b.node active in
      if active_a && not active_b
      then true
      else if not active_a && active_b
      then false
      else gt a.pheromone b.pheromone

  -- std::stable_sort: an element stays in front of those that are not before it
  unfoldable pub sort_in : List NodeAddress → HelloDest W → List (HelloDest W) → List (HelloDest W)
  unfolding is_before
  sort_in active a [] = a ∷ []
  sort_in active a (b ∷ bs) =
      let rest = sort_in active a bs in if is_before active b a then b ∷ rest else a ∷ b ∷ bs

  unfoldable pub stable_sort : List NodeAddress → List (HelloDest W) → List (HelloDest W)
  unfolding sort_in
  stable_sort active [] = []
  stable_sort active (a ∷ as') = sort_in active a (stable_sort active as')

  -- the position section of a hello
  unfoldable pub add_position : Router W → AntMessage W → AntMessage W
  add_position r m = elim (own_position env) [
    | none ↦ m
    | some k ↦
        if sharing_kinematics r.config && is_sendable_position k
        then record m { has_kinematics = true; kinematics = k }
        else m
  ]

  unfoldable pub create_hello_ant : Router W → ℕ → AntMessage W × Router W
  unfolding next_seq notify count_ant add_position sharing_kinematics advert_candidates stable_sort
      active_destinations
  create_hello_ant r max_adverts =
      let (seq, r1) = next_seq r in
      let r2 =
        notify (record r1 { ants_sent = count_ant r1.ants_sent hello }) (ant_sent hello up true) in
      let m = add_position r (record new_message {
        type = hello;
        direction = up;
        src = r.address;
        seq_num = seq;
        time_start = env.now;
      }) in
      let sorted =
        stable_sort (active_destinations r)
          (advert_candidates r.config r.table r.table.dest_regular) in
      if not r.config.enable_proactive || not r.config.enable_diffusion
      then (m, r2)
      else (record m { hello_dests = take (min max_adverts max_hello_on_wire) sorted }, r2)
