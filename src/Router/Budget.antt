-- ===== src/Router/Budget.antt =====
-- The hop budget of a broadcast ant, and the count of the ants that a node has sent.
use ant_hoc_net.Collections.Map
use ant_hoc_net.Address.{NodeAddress, invalid_address}
use ant_hoc_net.Collections.Key.{nat_key, pair_key}
use ant_hoc_net.Collections.Map.{Map}
use ant_hoc_net.Double.{Double}
use ant_hoc_net.Message.{AntMessage}
use ant_hoc_net.Prelude.{
  List, Option-cases, [], arith, if◌then◌else◌, inl, inr, length, min, pos, refl, some, suc, true,
  zero, ℕ, ◌%◌, ◌+◌, ◌<◌, ◌^◌, ◌∙◌, ◌∷◌, ◌≡◌,
}
use ant_hoc_net.Router.{
  Ports, RouteAction, RouteDecision, Router, broadcast_forward, control_packets_sent, count_ant,
  count_of, dropped, increment, is_broadcast, notify, send_ant, sum_counts, type_byte,
}
use ant_hoc_net.Router.Ants.{stamp_forward}

module _ {W : Type 0} ⦃d : Double W⦄ (env : Ports W) where
  -- what a node sends on when it explores by broadcast: the ant is stamped, then broadcast
  pub relay : Router W → AntMessage W → RouteDecision W
  relay r ant = (broadcast_forward r (stamp_forward env r ant invalid_address)).1

  -- the broadcasts of one ant along a line of nodes, each relaying what the one before it sent
  pub relays : List (Router W) → AntMessage W → ℕ
  relays [] ant = 0
  relays (r ∷ rs) ant =
      let rest = relays rs (relay r ant).message in
      if is_broadcast (relay r ant).action then 1 + rest else 0

  stamp_forward-budget :
      (r : Router W) (ant : AntMessage W) (next : NodeAddress)
      → (stamp_forward env r ant next).broadcast_budget ≡ ant.broadcast_budget
  unfolding stamp_forward
  stamp_forward-budget r ant next = ground arith

  broadcast_forward_spent :
      (r : Router W) (ant : AntMessage W)
      → ant.broadcast_budget ≡ pos 0
      → (broadcast_forward r ant).1 ≡ dropped
  unfolding broadcast_forward
  broadcast_forward_spent r ant e = rw (e, broadcast_forward) refl

  broadcast_forward_counted :
      (r : Router W) (ant : AntMessage W) (n : ℕ)
      → ant.broadcast_budget ≡ pos (suc n)
      → let decision = (broadcast_forward r ant).1 in
        (is_broadcast decision.action ≡ true) × (decision.message.broadcast_budget ≡ pos n)
  unfolding broadcast_forward send_ant
  broadcast_forward_counted r ant n e = rw (e, broadcast_forward) (refl, refl)

  -- A counted budget bounds the flood: an ant that starts with a budget of n is broadcast by exactly
  -- the first n nodes of any line of relays, or by all of them if they are fewer, whatever the
  -- states of the nodes.
  pub relays-eq :
      (rs : List (Router W)) (ant : AntMessage W) (n : ℕ)
      → ant.broadcast_budget ≡ pos n
      → relays rs ant ≡ min (length rs) n
  unfolding relays relay
  relays-eq [] ant n e = omega arith
  relays-eq (r ∷ rs) ant zero e =
      rw
        (broadcast_forward_spent r (stamp_forward env r ant invalid_address)
          (stamp_forward-budget r ant invalid_address ∙ e))
        (omega arith)
  relays-eq (r ∷ rs) ant (suc n) e =
      let step =
        broadcast_forward_counted r (stamp_forward env r ant invalid_address) n
          (stamp_forward-budget r ant invalid_address ∙ e) in
      rw (step.0, relays-eq rs (relay r ant).message n step.1) (omega arith)

sum_counts-lt : (m : Map ℕ ℕ) → sum_counts m < 2 ^ 64
unfolding sum_counts
sum_counts-lt [] = omega arith
sum_counts-lt ((t, n) ∷ m) = omega arith

sum_counts-insert_new :
    (t n : ℕ) (m : Map ℕ ℕ) → sum_counts (Map.insert_new t n m) ≡ (n + sum_counts m) % 2 ^ 64
unfolding sum_counts Map.insert_new
sum_counts-insert_new t n [] = refl
sum_counts-insert_new t n ((j, k) ∷ m) = ground (arith, sum_counts-insert_new t n m)

sum_counts-replace :
    (t n : ℕ) (m : Map ℕ ℕ)
    → Map.lookup t m ≡ some n
    → sum_counts (Map.replace t (increment n) m) ≡ increment (sum_counts m)
unfolding sum_counts Map.replace Map.lookup
sum_counts-replace t n [] h = cc
sum_counts-replace t n ((j, k) ∷ m) h = ground (arith, sum_counts-replace t n m)

-- Each call of `sendAnt` adds exactly one to `controlPacketsSent`, whatever the type of the ant and
-- whether that type was counted before; the count wraps at 2 ^ 64 as the `uint64_t` does.
pub control_packets_sent-send_ant :
    {W : Type 0} (r : Router W) (how : RouteAction) (next : NodeAddress) (ant : AntMessage W)
    → control_packets_sent (send_ant r how next ant).0 ≡ increment (control_packets_sent r)
unfolding control_packets_sent send_ant notify count_ant count_of Map.insert
control_packets_sent-send_ant r how next ant =
    elim (Option-cases (Map.lookup (type_byte ant.type) r.ants_sent)) [
      | inl e ↦ ground (arith, e, sum_counts-insert_new (type_byte ant.type) 1 r.ants_sent)
      | inr (n, e) ↦ ground (arith, e, sum_counts-replace (type_byte ant.type) n r.ants_sent)
    ]
