-- ===== src/Router/Retrace.antt =====
-- The way back of a backward ant, from one node to the next.
use ant_hoc_net.Address.{NodeAddress, invalid_address}
use ant_hoc_net.Double.{Double}
use ant_hoc_net.Message.{AntHop, AntMessage}
use ant_hoc_net.Prelude.{
  Bool-cases, List, Option, Option-cases, [], ap, false, inl, inr, length, none, refl, some, suc,
  true, zero, ℕ, ◌++◌, ◌==◌, ◌∙◌, ◌∷◌, ◌≡◌,
}
use ant_hoc_net.Router.{
  Ports, RouteAction, RouteDecision, Router, deliver, delivered, send_ant, unicast,
}
use ant_hoc_net.Router.Ants.{advance_back_ant, compute_back_ant_state, last_node, split_last}
use ant_hoc_net.Router.Receive.{price_last_hop, receive_back}

module _ {W : Type 0} where
  -- a stack that is listed from its top
  unfoldable pub stack : List (AntHop W) → List (AntHop W)
  stack [] = []
  stack (h ∷ hs) = stack hs ++ (h ∷ [])

  pub nodes : List (AntHop W) → List NodeAddress
  nodes [] = []
  nodes (h ∷ hs) = h.node ∷ nodes hs

  -- a way from the first hop to a destination: it goes over real addresses, and no node before its
  -- end is one of the ant's two ends
  abbrev pub IsWay : NodeAddress → NodeAddress → AntHop W → List (AntHop W) → Type 0
  IsWay dst src h [] = (dst == h.node) ≡ true
  IsWay dst src h (x ∷ hs) =
      ((dst == h.node) ≡ false)
      × ((src == h.node) ≡ false)
      × ((x.node == invalid_address) ≡ false)
      × IsWay dst src x hs

  split_last-append :
      (hs : List (AntHop W)) (h : AntHop W) → split_last (hs ++ (h ∷ [])) ≡ some (hs, h)
  unfolding split_last
  split_last-append [] h = refl
  split_last-append (x ∷ hs) h = rw (split_last-append hs h) refl

  last_node-stack : (h : AntHop W) (hs : List (AntHop W)) → last_node (stack (h ∷ hs)) ≡ h.node
  unfolding last_node stack
  last_node-stack h hs = rw (split_last-append (stack hs) h, last_node) refl

  -- what is left of the ant's way, and its ends
  abbrev IsOnWay : AntMessage W → NodeAddress → NodeAddress → List (AntHop W) → Type 0
  IsOnWay ant dst src hs = (ant.dst ≡ dst) × (ant.src ≡ src) × (ant.visited ≡ stack hs)

  advance_back_ant-IsOnWay :
      (ant : AntMessage W) (dst src : NodeAddress) (h : AntHop W) (hs : List (AntHop W))
      → IsOnWay ant dst src (h ∷ hs)
      → ((advance_back_ant ant).0 ≡ last_node (stack hs))
        × IsOnWay (advance_back_ant ant).1 dst src hs
  unfolding advance_back_ant stack
  advance_back_ant-IsOnWay ant dst src h hs (to, of, e) =
      let split : split_last ant.visited ≡ some (stack hs, h) =
        ap split_last e ∙ split_last-append (stack hs) h in
      rw (split, advance_back_ant) (refl, (to, of, refl))

module _ {W : Type 0} ⦃d : Double W⦄ (env : NodeAddress → Ports W)
    (at : NodeAddress → Router W) where
  -- the ant as a node has it before it is sent on
  taken_in : NodeAddress → AntMessage W → AntMessage W
  taken_in here ant = compute_back_ant_state (at here) (price_last_hop (env here) (at here) ant)

  taken_in-IsOnWay :
      (here : NodeAddress) (ant : AntMessage W) (dst src : NodeAddress) (hs : List (AntHop W))
      → IsOnWay ant dst src hs
      → IsOnWay (taken_in here ant) dst src hs
  unfolding taken_in compute_back_ant_state price_last_hop
  taken_in-IsOnWay here ant dst src hs (to, of, e) = elim (Option-cases (split_last ant.history)) [
    | inl none_yet ↦ rw (price_last_hop, none_yet) (to, of, e)
    | inr ((front, last), split) ↦ elim (Bool-cases (at here).metric.uses_link_quality) [
      | inl priced ↦ rw (price_last_hop, split, priced) (to, of, e)
      | inr plain ↦ rw (price_last_hop, split, plain) (to, of, e)
    ]
  ]

  -- what the action of a node makes of the rest of the way: it ends there, goes on or is lost
  abbrev extended :
      RouteAction → NodeAddress → Option (List NodeAddress) → Option (List NodeAddress)
  extended deliver here rest = some (here ∷ [])
  extended unicast here none = none
  extended unicast here (some ns) = some (here ∷ ns)
  extended _ here rest = none

  -- The nodes that receive a backward ant one after another, each sending it on as `receive_back`
  -- decides, until one takes it as its own; `none` where a node drops it, or after so many steps.
  unfoldable pub travel : ℕ → NodeAddress → AntMessage W → Option (List NodeAddress)
  travel zero here ant = none
  travel (suc k) here ant = elim (receive_back (env here) (at here) ant).1 [
    | [] ↦ none
    | decision ∷ _ ↦ extended decision.action here (travel k decision.next_hop decision.message)
  ]

  receive_back_home :
      (here : NodeAddress) (ant : AntMessage W)
      → ((taken_in here ant).dst == (at here).address) ≡ true
      → (receive_back (env here) (at here) ant).1 ≡ delivered ∷ []
  unfolding receive_back taken_in
  receive_back_home here ant home = rw home refl

  receive_back_onward :
      (here : NodeAddress) (ant : AntMessage W)
      → ((taken_in here ant).dst == (at here).address) ≡ false
      → ((taken_in here ant).src == (at here).address) ≡ false
      → ((advance_back_ant (taken_in here ant)).0 == invalid_address) ≡ false
      → (receive_back (env here) (at here) ant).1
        ≡ record {
          action = unicast;
          next_hop = (advance_back_ant (taken_in here ant)).0;
          has_message = true;
          message = (advance_back_ant (taken_in here ant)).1;
        }
          ∷ []
  unfolding receive_back taken_in send_ant
  receive_back_onward here ant away further real = rw (away, further, real) refl

  travel_step :
      (k : ℕ) (here : NodeAddress) (ant : AntMessage W) (decision : RouteDecision W)
      → (receive_back (env here) (at here) ant).1 ≡ decision ∷ []
      → travel (suc k) here ant
        ≡ extended decision.action here (travel k decision.next_hop decision.message)
  unfolding travel
  travel_step k here ant decision e = rw (travel, e) refl

  -- A backward ant that arrives at the top of its stack retraces it: if each address has the node with
  -- that address, and the nodes of the stack from the top down are a way to the ant's destination on
  -- which only the last is the destination, none before it is the ant's source, and none below the top
  -- is the invalid address, then the ant is received by exactly these nodes in this order, and the last
  -- one takes it as its own, whatever the states of the nodes.
  pub travel-eq :
      (ant : AntMessage W) (h : AntHop W) (hs : List (AntHop W))
      → ((n : NodeAddress) → (at n).address ≡ n)
      → ant.visited ≡ stack (h ∷ hs)
      → IsWay ant.dst ant.src h hs
      → travel (length (h ∷ hs)) h.node ant ≡ some (nodes (h ∷ hs))
  unfolding travel nodes
  travel-eq ant h [] here_is e home =
      let on_way = taken_in-IsOnWay h.node ant ant.dst ant.src (h ∷ []) (refl, refl, e) in
      travel_step 0 h.node ant delivered
        (receive_back_home h.node ant (rw (on_way.0, here_is h.node) home))
  travel-eq ant h (x ∷ hs) here_is e (away, further, real, way) =
      let taken = taken_in h.node ant in
      let on_way = taken_in-IsOnWay h.node ant ant.dst ant.src (h ∷ x ∷ hs) (refl, refl, e) in
      let step = advance_back_ant-IsOnWay taken ant.dst ant.src h (x ∷ hs) on_way in
      let next = step.0 ∙ last_node-stack x hs in
      let onward =
        receive_back_onward h.node ant (rw (on_way.0, here_is h.node) away)
          (rw (on_way.1, here_is h.node) further) (rw next real) in
      let rest =
        travel-eq (advance_back_ant taken).1 x hs here_is step.1.2 (rw (step.1.0, step.1.1) way) in
      travel_step (length (x ∷ hs)) h.node ant _ onward ∙ rw (next, rest) refl
