-- ===== src/Router/Hello.antt =====
-- The hello that `createHelloAnt` builds, on the wire.
use ant_hoc_net.Address.{NodeAddress}
use ant_hoc_net.Codec.{Patterns, max_hello_on_wire, serialize}
use ant_hoc_net.Codec.Decode.{deserialize}
use ant_hoc_net.Codec.RoundTrip.{AreAdverts, IsFloat, IsOnWire, deserialize-serialize, received}
use ant_hoc_net.Codec.Sections.{IsFaithful}
use ant_hoc_net.Config.{Config}
use ant_hoc_net.Double.{Double}
use ant_hoc_net.Message.{AntMessage, HelloDest, hello, new_message, up}
use ant_hoc_net.Prelude.{
  All, Bool-cases, List, Option-cases, [], arith, false≢true, inl, inr, length, min, not, refl,
  some, suc, take, true, zero, ℕ, ◌&&◌, ◌<◌, ◌^◌, ◌||◌, ◌∷◌, ◌≡◌, ◌≤◌,
}
use ant_hoc_net.Router.{Ports, Router, next_seq, sharing_kinematics}
use ant_hoc_net.Router.Links.{own_position}
use ant_hoc_net.Router.Sessions.{
  active_destinations, add_position, advert_candidates, create_hello_ant, is_before, is_sendable,
  is_sendable_position, sort_in, stable_sort,
}
use ant_hoc_net.Table.{PheromoneTable, best_regular}

module _ {ℓ} {A : Type ℓ} where
  length-take : (n : ℕ) (xs : List A) → length (take n xs) ≤ n
  length-take zero xs = omega arith
  length-take (suc n) [] = omega arith
  length-take (suc n) (x ∷ xs) = omega (arith, length-take n xs)

  All-take {κ} : (P : A → Type κ) (n : ℕ) (xs : List A) → All P xs → All P (take n xs)
  All-take P zero xs all = tt
  All-take P (suc n) [] all = tt
  All-take P (suc n) (x ∷ xs) all = (all.0, All-take P n xs all.1)

module _ {W : Type 0} ⦃d : Double W⦄ (env : Ports W) where
  advert_candidates-AreAdverts :
      (c : Config W) (t : PheromoneTable W) (dests : List NodeAddress)
      → All (λ a. a < 2 ^ 32) dests
      → AreAdverts (advert_candidates env c t dests)
  unfolding advert_candidates
  advert_candidates-AreAdverts c t [] all = tt
  advert_candidates-AreAdverts c t (dest ∷ dests) all =
      let ih = advert_candidates-AreAdverts c t dests all.1 in
      elim (Bool-cases (d.le (best_regular t dest) c.min_pheromone)) [
        | inl low ↦ rw low ih
        | inr usable ↦ rw usable (all.0, ih)
      ]

  sort_in-AreAdverts :
      (active : List NodeAddress) (a : HelloDest W) (as' : List (HelloDest W))
      → a.node < 2 ^ 32
      → AreAdverts as'
      → AreAdverts (sort_in env active a as')
  unfolding sort_in
  sort_in-AreAdverts active a [] h all = (h, tt)
  sort_in-AreAdverts active a (b ∷ bs) h all = elim (Bool-cases (is_before env active b a)) [
    | inl before ↦ rw before (all.0, sort_in-AreAdverts active a bs h all.1)
    | inr not_before ↦ rw not_before (h, all)
  ]

  stable_sort-AreAdverts :
      (active : List NodeAddress) (as' : List (HelloDest W))
      → AreAdverts as'
      → AreAdverts (stable_sort env active as')
  unfolding stable_sort
  stable_sort-AreAdverts active [] all = tt
  stable_sort-AreAdverts active (a ∷ as') all =
      sort_in-AreAdverts active a (stable_sort env active as') all.0
        (stable_sort-AreAdverts active as' all.1)

module _ {W : Type 0} ⦃d : Double W⦄ ⦃bits : Patterns W⦄ (env : Ports W)
    (sendable : (x : W) → is_sendable env x ≡ true → IsFloat x) where
  -- adverts that the wire format carries leave the rest of the ant as it was
  with_adverts :
      (m : AntMessage W) (as' : List (HelloDest W))
      → IsOnWire m
      → length as' ≤ max_hello_on_wire
      → AreAdverts as'
      → IsOnWire (record m { hello_dests = as' })
  with_adverts m as' wire few adverts = record {
    src_range = wire.src_range;
    dst_range = wire.dst_range;
    seq_range = wire.seq_range;
    budget_range = wire.budget_range;
    visited_few = wire.visited_few;
    visited_hops = wire.visited_hops;
    history_few = wire.history_few;
    history_hops = wire.history_hops;
    hello_few = few;
    hello_adverts = adverts;
    kinematics_hello = wire.kinematics_hello;
    kinematics_x = wire.kinematics_x;
    kinematics_y = wire.kinematics_y;
    kinematics_z = wire.kinematics_z;
    kinematics_vx = wire.kinematics_vx;
    kinematics_vy = wire.kinematics_vy;
    kinematics_vz = wire.kinematics_vz;
  }

  add_position-IsOnWire :
      (r : Router W) (m : AntMessage W)
      → IsOnWire m
      → m.type ≡ hello
      → IsOnWire (add_position env r m)
  unfolding add_position
  add_position-IsOnWire r m wire is_hello = elim (Option-cases (own_position env)) [
    | inl unknown ↦ rw (unknown, add_position) wire
    | inr (k, at) ↦ elim (Bool-cases (sharing_kinematics r.config && is_sendable_position env k)) [
      | inr silent ↦ rw (at, add_position, silent) wire
      | inl shared ↦
          rw (at, add_position, shared)
            (record {
              src_range = wire.src_range;
              dst_range = wire.dst_range;
              seq_range = wire.seq_range;
              budget_range = wire.budget_range;
              visited_few = wire.visited_few;
              visited_hops = wire.visited_hops;
              history_few = wire.history_few;
              history_hops = wire.history_hops;
              hello_few = wire.hello_few;
              hello_adverts = wire.hello_adverts;
              kinematics_hello = λ has. is_hello;
              kinematics_x = λ has. sendable k.x (ground arith);
              kinematics_y = λ has. sendable k.y (ground arith);
              kinematics_z = λ has. sendable k.z (ground arith);
              kinematics_vx = λ has. sendable k.vx (ground arith);
              kinematics_vy = λ has. sendable k.vy (ground arith);
              kinematics_vz = λ has. sendable k.vz (ground arith);
            })
    ]
  ]

  -- the hello before its position and its adverts
  abbrev plain_hello : Router W → AntMessage W
  plain_hello r = record new_message {
    type = hello;
    direction = up;
    src = r.address;
    seq_num = r.seq_num;
    time_start = env.now;
  }

  plain_hello-IsOnWire :
      (r : Router W) → r.address < 2 ^ 32 → r.seq_num < 2 ^ 32 → IsOnWire (plain_hello r)
  plain_hello-IsOnWire r address seq = record {
    src_range = address;
    dst_range = omega arith;
    seq_range = seq;
    budget_range = omega arith;
    visited_few = omega arith;
    visited_hops = tt;
    history_few = omega arith;
    history_hops = tt;
    hello_few = omega arith;
    hello_adverts = tt;
    kinematics_hello = λ has. refl;
    kinematics_x = λ has. absurd (false≢true has);
    kinematics_y = λ has. absurd (false≢true has);
    kinematics_z = λ has. absurd (false≢true has);
    kinematics_vx = λ has. absurd (false≢true has);
    kinematics_vy = λ has. absurd (false≢true has);
    kinematics_vz = λ has. absurd (false≢true has);
  }

  create_hello_ant-IsOnWire :
      (r : Router W) (max_adverts : ℕ)
      → r.address < 2 ^ 32
      → r.seq_num < 2 ^ 32
      → All (λ a. a < 2 ^ 32) r.table.dest_regular
      → IsOnWire (create_hello_ant env r max_adverts).0
  unfolding create_hello_ant next_seq
  create_hello_ant-IsOnWire r max_adverts address seq dests =
      let m = add_position env r (plain_hello r) in
      let wire : IsOnWire m =
        add_position-IsOnWire r (plain_hello r) (plain_hello-IsOnWire r address seq) refl in
      let most = min max_adverts max_hello_on_wire in
      let sorted =
        stable_sort env (active_destinations env r)
          (advert_candidates env r.config r.table r.table.dest_regular) in
      let adverts =
        stable_sort-AreAdverts env (active_destinations env r)
          (advert_candidates env r.config r.table r.table.dest_regular)
          (advert_candidates-AreAdverts env r.config r.table r.table.dest_regular dests) in
      let few : length (take most sorted) ≤ max_hello_on_wire =
        ground (arith, length-take most sorted) in
      elim (Bool-cases (not r.config.enable_proactive || not r.config.enable_diffusion)) [
        | inl off ↦ rw off wire
        | inr on ↦ rw on (
            with_adverts m (take most sorted) wire few
              (All-take (λ a. a.node < 2 ^ 32) most sorted adverts))
      ]

  -- If the patterns of numbers are faithful, and a value that `createHelloAnt` takes for sendable rounds
  -- to a finite `float`, then a receiver accepts every hello of a node with an `int32_t` address that
  -- knows `int32_t` destinations, whatever the number of adverts asked for, and reads what was sent.
  pub deserialize-create_hello_ant :
      IsFaithful W
      → (r : Router W) (max_adverts : ℕ) (old : AntMessage W) → r.address < 2 ^ 32
      → r.seq_num < 2 ^ 32
      → All (λ a. a < 2 ^ 32) r.table.dest_regular
      → deserialize (serialize (create_hello_ant env r max_adverts).0) old
        ≡ some (received old (create_hello_ant env r max_adverts).0)
  deserialize-create_hello_ant faithful r max_adverts old address seq dests =
      deserialize-serialize faithful (create_hello_ant env r max_adverts).0 old
        (create_hello_ant-IsOnWire r max_adverts address seq dests)
