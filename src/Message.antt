-- ===== src/Message.antt =====
-- `AntMessage` and its parts: core/include/anthocnet/core/ant_message.h, visited_path.h, types.h.
-- Sequence numbers are `uint32_t`, kept below 2 ^ 32 by the code that makes them; `budget` is the
-- `int` -1 (untracked) or a count, and any other negative number is a budget too, as in the source.
use ant_hoc_net.Address.{NodeAddress, invalid_address}
use ant_hoc_net.Double.{Double, nought}
use ant_hoc_net.Prelude.{Bool, List, [], false, negsuc, true, ℕ, ℤ}

pub data AntType : Type 0 where
  hello reactive proactive repair link_fail : AntType

pub data AntDirection : Type 0 where
  up down : AntDirection

pub record Kinematics (W : Type 0) : Type 0 where
  pub x : W
  pub y : W
  pub z : W
  pub vx : W
  pub vy : W
  pub vz : W

pub record AntHop (W : Type 0) : Type 0 where
  pub node : NodeAddress
  pub time : W

pub record HelloDest (W : Type 0) : Type 0 where
  pub node : NodeAddress
  pub pheromone : W

pub record AntMessage (W : Type 0) : Type 0 where
  pub type : AntType
  pub direction : AntDirection
  pub src : NodeAddress
  pub dst : NodeAddress
  pub seq_num : ℕ
  pub time_start : W
  pub life_ant : W
  pub broadcast_budget : ℤ
  pub visited : List (AntHop W)
  pub history : List (AntHop W)
  pub hello_dests : List (HelloDest W)
  -- `hasKinematics` and `kinematics`; the section is read only where the flag is set
  pub has_kinematics : Bool
  pub kinematics : Kinematics W
  -- recomputed at each node from `history`, and not on the wire
  pub prev_hop : NodeAddress
  pub hops : ℕ
  pub path_time : W
  pub pheromone : W

abbrev pub is_forward : {W : Type 0} → AntMessage W → Bool
is_forward m = elim m.direction [ up ↦ true | down ↦ false ]

abbrev pub same_type : AntType → AntType → Bool
same_type hello hello = true
same_type reactive reactive = true
same_type proactive proactive = true
same_type repair repair = true
same_type link_fail link_fail = true
same_type _ _ = false

abbrev pub still : {W : Type 0} ⦃d : Double W⦄ → Kinematics W
still = record { x = nought; y = nought; z = nought; vx = nought; vy = nought; vz = nought }

-- `AntMessage m;`
abbrev pub new_message : {W : Type 0} ⦃d : Double W⦄ → AntMessage W
new_message = record {
  type = reactive;
  direction = up;
  src = invalid_address;
  dst = invalid_address;
  seq_num = 0;
  time_start = nought;
  life_ant = nought;
  broadcast_budget = negsuc 0;
  visited = [];
  history = [];
  hello_dests = [];
  has_kinematics = false;
  kinematics = still;
  prev_hop = invalid_address;
  hops = 0;
  path_time = nought;
  pheromone = nought;
}
