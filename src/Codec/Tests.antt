-- ===== src/Codec/Tests.antt =====
-- The wire format at a concrete backward ant, with patterns of the thousandths.
use ant_hoc_net.Collections.Set
use ant_hoc_net.Address.{invalid_address, node}
use ant_hoc_net.Codec.{Patterns, serialize, serialized_size, write_hops}
use ant_hoc_net.Codec.Bounds.{IsBounded, deserialize-IsBounded}
use ant_hoc_net.Codec.Decode.{deserialize, read_hops}
use ant_hoc_net.Codec.Exact.{length-deserialize}
use ant_hoc_net.Codec.RoundTrip.{IsFloat, IsOnWire, deserialize-serialize, received}
use ant_hoc_net.Codec.Sections.{IsFaithful, read_hops-write_hops}
use ant_hoc_net.Codec.Size.{length-serialize}
use ant_hoc_net.Collections.Key.{nat_key, pair_key}
use ant_hoc_net.Config.{default_config}
use ant_hoc_net.Double.{Double}
use ant_hoc_net.Double.Fixed.{Fixed, fixed_double, minus, not_number, plus}
use ant_hoc_net.Message.{AntHop, AntMessage, down, hello, new_message}
use ant_hoc_net.Prelude.{
  All, Bool, List, [], arith, false, length, negsuc, none, not, refl, some, true, ℕ, ◌&&◌, ◌++◌,
  ◌<◌, ◌==◌, ◌^◌, ◌||◌, ◌∷◌, ◌≡◌,
}
use ant_hoc_net.Router.{Ports, Router, new_router}
use ant_hoc_net.Router.Hello.{deserialize-create_hello_ant}
use ant_hoc_net.Router.Sessions.{create_hello_ant, is_sendable}
use ant_hoc_net.Table.{add_neighbor, set_pheromone_regular}

abbrev numeral : Fixed → ℕ
numeral (plus n) = n
numeral (minus n) = n
numeral not_number = 0

instance abbrev pub test_patterns : Patterns Fixed
test_patterns = record { bits64 = numeral; of_bits64 = plus; bits32 = numeral; of_bits32 = plus }

abbrev test_ant : AntMessage Fixed
test_ant = record new_message {
  direction = down;
  src = node 4;
  visited = record { node = node 1; time = plus 0 } ∷ record { node = node 2; time = plus 3 } ∷ [];
  history = record { node = node 4; time = plus 3 } ∷ [];
}

length-serialize_example : length (serialize test_ant) ≡ serialized_size test_ant
length-serialize_example = length-serialize test_ant

-- numbers of which there are two, 0.0 and 1.0, with their IEEE 754 patterns
abbrev pub two_bits : Bool → ℕ
two_bits false = 0
two_bits true = 0x3ff0000000000000

abbrev pub two_bits32 : Bool → ℕ
two_bits32 false = 0
two_bits32 true = 0x3f800000

abbrev pub two_patterns : Patterns Bool
two_patterns = record {
  bits64 = two_bits;
  of_bits64 = λ n. n == 0x3ff0000000000000;
  bits32 = two_bits32;
  of_bits32 = λ n. n == 0x3f800000;
}

two_back : (x : Bool) → two_patterns.of_bits64 (two_patterns.bits64 x) ≡ x
two_back false = refl
two_back true = refl

two_in_range : (x : Bool) → two_patterns.bits64 x < 2 ^ 64
two_in_range false = omega arith
two_in_range true = omega arith

pub two-IsFaithful : IsFaithful Bool ⦃bits = two_patterns⦄
two-IsFaithful = record { back = two_back; in_range = two_in_range }

abbrev test_hops : List (AntHop Bool)
test_hops =
    record { node = node 1; time = false } ∷ record { node = invalid_address; time = true } ∷ []

read_hops-write_hops_example :
    read_hops ⦃bits = two_patterns⦄
      (length test_hops)
      (write_hops ⦃bits = two_patterns⦄ test_hops ++ (7 ∷ []))
    ≡ some (test_hops, 7 ∷ [])
read_hops-write_hops_example =
    read_hops-write_hops ⦃bits = two_patterns⦄ two-IsFaithful test_hops (7 ∷ [])
      (omega arith, (omega arith, tt))

-- the arithmetic of the two numbers, which stops at 1.0
abbrev pub two_double : Double Bool
two_double = record {
  literal = λ m e. not (m == 0);
  of_nat = λ n. not (n == 0);
  infinity = true;
  nan = true;
  neg = λ a. a;
  add = λ a b. a || b;
  sub = λ a b. a && not b;
  mul = λ a b. a && b;
  div = λ a b. a;
  pow = λ a b. a;
  exp = λ a. true;
  sqrt = λ a. a;
  fabs = λ a. a;
  lt = λ a b. not a && b;
  le = λ a b. not a || b;
  eq = λ a b. (a && b) || (not a && not b);
  is_nan = λ a. false;
  is_finite = λ a. true;
}

two-IsFloat : (x : Bool) → IsFloat ⦃bits = two_patterns⦄ ⦃d = two_double⦄ x
two-IsFloat false = record { in_range = omega arith; finite = refl }
two-IsFloat true = record { in_range = omega arith; finite = refl }

-- a hello with an advert, a budget and a position
abbrev pub test_hello : AntMessage Bool
test_hello = record (new_message ⦃d = two_double⦄) {
  type = hello;
  src = node 4;
  seq_num = 300;
  broadcast_budget = negsuc 0;
  visited = test_hops;
  hello_dests = record { node = node 9; pheromone = true } ∷ [];
  has_kinematics = true;
  kinematics = record { x = true; y = false; z = true; vx = false; vy = false; vz = true };
}

test_hello-IsOnWire : IsOnWire ⦃bits = two_patterns⦄ ⦃d = two_double⦄ test_hello
test_hello-IsOnWire = record {
  src_range = omega arith;
  dst_range = omega arith;
  seq_range = omega arith;
  budget_range = omega arith;
  visited_few = omega arith;
  visited_hops = (omega arith, (omega arith, tt));
  history_few = omega arith;
  history_hops = tt;
  hello_few = omega arith;
  hello_adverts = (omega arith, tt);
  kinematics_hello = λ has. refl;
  kinematics_x = λ has. two-IsFloat true;
  kinematics_y = λ has. two-IsFloat false;
  kinematics_z = λ has. two-IsFloat true;
  kinematics_vx = λ has. two-IsFloat false;
  kinematics_vy = λ has. two-IsFloat false;
  kinematics_vz = λ has. two-IsFloat true;
}

deserialize-serialize_example :
    deserialize ⦃d = two_double⦄ ⦃bits = two_patterns⦄
      (serialize ⦃bits = two_patterns⦄ test_hello)
      (new_message ⦃d = two_double⦄)
    ≡ some
        (received ⦃bits = two_patterns⦄ ⦃d = two_double⦄ (new_message ⦃d = two_double⦄) test_hello)
deserialize-serialize_example =
    deserialize-serialize ⦃bits = two_patterns⦄ two-IsFaithful ⦃d = two_double⦄ test_hello
      (new_message ⦃d = two_double⦄) test_hello-IsOnWire

deserialize-IsBounded_example :
    IsBounded
      (received ⦃bits = two_patterns⦄ ⦃d = two_double⦄ (new_message ⦃d = two_double⦄) test_hello)
deserialize-IsBounded_example =
    deserialize-IsBounded ⦃d = two_double⦄ ⦃bits = two_patterns⦄
      (serialize ⦃bits = two_patterns⦄ test_hello) (new_message ⦃d = two_double⦄)
      (received ⦃bits = two_patterns⦄ ⦃d = two_double⦄ (new_message ⦃d = two_double⦄) test_hello)
      deserialize-serialize_example

length-deserialize_example :
    length (serialize ⦃bits = two_patterns⦄ test_hello)
    ≡ serialized_size ⦃bits = two_patterns⦄
        (received ⦃bits = two_patterns⦄ ⦃d = two_double⦄ (new_message ⦃d = two_double⦄) test_hello)
length-deserialize_example =
    length-deserialize ⦃d = two_double⦄ ⦃bits = two_patterns⦄
      (serialize ⦃bits = two_patterns⦄ test_hello) (new_message ⦃d = two_double⦄)
      (received ⦃bits = two_patterns⦄ ⦃d = two_double⦄ (new_message ⦃d = two_double⦄) test_hello)
      deserialize-serialize_example

abbrev test_ports : Ports Bool
test_ports = record {
  now = true;
  link_state = none;
  link_quality = none;
  kinematics =
      some (some (record { x = true; y = false; z = true; vx = false; vy = false; vz = true }));
  residual_energy = none;
}

-- a router that knows a way to 9
abbrev test_router : Router Bool
test_router =
    let r =
      new_router ⦃d = two_double⦄ (node 2) (default_config ⦃d = two_double⦄)
        (record { stream = λ i. false; used = 0 }) none true in
    record r {
      table = set_pheromone_regular (add_neighbor r.table (node 9)) (node 9) (node 9) true;
    }

two-sendable :
    (x : Bool)
    → is_sendable ⦃d = two_double⦄ test_ports x ≡ true
    → IsFloat ⦃bits = two_patterns⦄ ⦃d = two_double⦄ x
two-sendable x h = two-IsFloat x

test_router-address : test_router.address < 2 ^ 32
unfolding new_router
test_router-address = omega arith

test_router-seq_num : test_router.seq_num < 2 ^ 32
unfolding new_router
test_router-seq_num = omega arith

test_router-destinations : All (λ a. a < 2 ^ 32) test_router.table.dest_regular
unfolding new_router add_neighbor set_pheromone_regular Set.insert
test_router-destinations = (omega arith, tt)

deserialize-create_hello_ant_example :
    deserialize ⦃d = two_double⦄ ⦃bits = two_patterns⦄
      (serialize ⦃bits = two_patterns⦄
        (create_hello_ant ⦃d = two_double⦄ test_ports test_router 10).0)
      (new_message ⦃d = two_double⦄)
    ≡ some (
        received ⦃bits = two_patterns⦄ ⦃d = two_double⦄
          (new_message ⦃d = two_double⦄)
          (create_hello_ant ⦃d = two_double⦄ test_ports test_router 10).0)
deserialize-create_hello_ant_example =
    deserialize-create_hello_ant ⦃d = two_double⦄ ⦃bits = two_patterns⦄ test_ports two-sendable
      two-IsFaithful test_router 10 (new_message ⦃d = two_double⦄) test_router-address
      test_router-seq_num test_router-destinations
