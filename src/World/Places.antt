-- ===== src/World/Places.antt =====
-- Where the packets of a world of web/src/sim.cpp are: not sent yet, in flight, held by a node, or
-- delivered or dropped in the log.
use ant_hoc_net.Collections.Map
use ant_hoc_net.Address.{NodeAddress}
use ant_hoc_net.Collections.Key.{nat_key, pair_key}
use ant_hoc_net.Collections.Map.{Map}
use ant_hoc_net.Prelude.{
  Bool, Bool-cases, List, Option, Option-cases, [], arith, false, get_elem?, if◌then◌else◌, inl,
  inr, leb, none, not, refl, some, true, ℕ, ◌&&◌, ◌++◌, ◌+◌, ◌==◌, ◌∷◌, ◌≡◌,
}
use ant_hoc_net.World.{
  Action, Ev, Flow, LogEvent, Node, Packet, Scheduled, World, data_arrives, data_delivered,
  data_dropped, data_fails, int,
}
use ant_hoc_net.World.Radio.{filter}

abbrev pub one_if : Bool → ℕ
one_if b = if b then 1 else 0

abbrev pub is_end : Ev → Bool
is_end data_delivered = true
is_end data_dropped = true
is_end _ = false

module _ {W : Type 0} where
  abbrev pub packet_of : Action W → Option (Packet W)
  packet_of (data_arrives to from p) = some p
  packet_of (data_fails from next p) = some p
  packet_of _ = none

  module _ (f s : ℕ) where
    -- the packet is number s of flow f
    abbrev pub is_it : Packet W → ℕ
    is_it p = one_if (p.flow == f && p.seq == s)

    unfoldable pub carried : Action W → ℕ
    carried fn = elim (packet_of fn) [ none ↦ 0 | some p ↦ is_it p ]

    unfoldable pub in_flight : List (Scheduled W) → ℕ
    in_flight [] = 0
    in_flight (e ∷ es) = carried e.fn + in_flight es

    unfoldable pub held : List (Packet W) → ℕ
    held [] = 0
    held (p ∷ ps) = is_it p + held ps

    unfoldable pub waiting : Map NodeAddress (Node W) → ℕ
    waiting [] = 0
    waiting ((id, n) ∷ nodes) = held n.pending + waiting nodes

    unfoldable pub ended : List (LogEvent W) → ℕ
    ended [] = 0
    ended (e ∷ es) = one_if (is_end e.kind && (e.a == int f && e.b == int s)) + ended es

    unfoldable pub unsent : List (Flow W) → ℕ
    unsent flows = elim (get_elem? flows f) [ none ↦ 1 | some flow ↦ one_if (leb flow.sent s) ]

    -- in how many places the packet is
    unfoldable pub places : World W → ℕ
    unfolding in_flight waiting ended unsent
    places w = in_flight w.events + waiting w.nodes + ended w.log + unsent w.flows

    pub held-append : (ps qs : List (Packet W)) → held (ps ++ qs) ≡ held ps + held qs
    unfolding held
    held-append [] qs = omega arith
    held-append (p ∷ ps) qs = omega (arith, held-append ps qs)

    pub ended-append : (es gs : List (LogEvent W)) → ended (es ++ gs) ≡ ended es + ended gs
    unfolding ended
    ended-append [] gs = omega arith
    ended-append (e ∷ es) gs = omega (arith, ended-append es gs)

    pub held-filter :
        (test : Packet W → Bool) (ps : List (Packet W))
        → held (filter test ps) + held (filter (λ p. not (test p)) ps) ≡ held ps
    unfolding held filter
    held-filter test [] = refl
    held-filter test (p ∷ ps) = ground (arith, held-filter test ps)

    unfoldable pub held_at : Map NodeAddress (Node W) → NodeAddress → ℕ
    held_at nodes id = elim (Map.lookup id nodes) [ none ↦ 0 | some n ↦ held n.pending ]

    waiting-replace :
        (id : NodeAddress) (n m : Node W) (nodes : Map NodeAddress (Node W))
        → Map.lookup id nodes ≡ some m
        → waiting (Map.replace id n nodes) + held m.pending ≡ waiting nodes + held n.pending
    unfolding waiting Map.lookup Map.replace
    waiting-replace id n m [] h = absurd cc
    waiting-replace id n m ((j, k) ∷ nodes) h = elim (Bool-cases (j == id)) [
      | inl e ↦ (let same : k ≡ m = cc in rw (e, same) (omega arith))
      | inr e ↦ rw e (omega (arith, waiting-replace id n m nodes (rw e at h)))
    ]

    waiting-insert_new :
        (id : NodeAddress) (n : Node W) (nodes : Map NodeAddress (Node W))
        → waiting (Map.insert_new id n nodes) ≡ waiting nodes + held n.pending
    unfolding waiting Map.insert_new
    waiting-insert_new id n [] = omega arith
    waiting-insert_new id n ((j, k) ∷ nodes) = ground (arith, waiting-insert_new id n nodes)

    pub waiting-insert :
        (id : NodeAddress) (n : Node W) (nodes : Map NodeAddress (Node W))
        → waiting (Map.insert id n nodes) + held_at nodes id ≡ waiting nodes + held n.pending
    unfolding Map.insert held_at
    waiting-insert id n nodes = elim (Option-cases (Map.lookup id nodes)) [
      | inl e ↦ rw (held_at, e, Map.insert) (omega (arith, waiting-insert_new id n nodes))
      | inr (m, e) ↦ rw (held_at, e, Map.insert) (waiting-replace id n m nodes e)
    ]
