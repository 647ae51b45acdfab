-- ===== src/Codec.antt =====
-- The wire format of core/include/anthocnet/core/ant_message_codec.h and
-- core/src/ant_message_codec.cpp. A byte is a number below 256. The pattern of a `double` and the
-- conversion to `float` are the compiler's: the interface `Patterns`.
pub mod Decode
pub mod Size
pub mod Sections
pub mod RoundTrip
pub mod Bounds
pub mod Spent
pub mod Exact
pub mod Tests
use ant_hoc_net.Address.{to_u32}
use ant_hoc_net.Message.{
  AntDirection, AntHop, AntMessage, AntType, HelloDest, Kinematics, down, hello, link_fail,
  proactive, reactive, repair, up,
}
use ant_hoc_net.Prelude.{
  List, [], if◌then◌else◌, length, ltb, negsuc, pos, suc, zero, ℕ, ℤ, ◌%◌, ◌*◌, ◌++◌, ◌+◌, ◌-◌, ◌/◌,
  ◌^◌, ◌∷◌,
}

pub record Patterns (W : Type 0) : Type 0 where
  -- the 64 bits of a `double`, and back
  pub bits64 : W → ℕ
  pub of_bits64 : ℕ → W
  -- the 32 bits of the nearest `float`, and the `double` of a `float`
  pub bits32 : W → ℕ
  pub of_bits32 : ℕ → W

abbrev pub wire_version : ℕ
wire_version = 0x04

abbrev pub kinematics_tag : ℕ
kinematics_tag = 0x4b

abbrev pub kinematics_size : ℕ
kinematics_size = 25

abbrev pub max_visited_on_wire : ℕ
max_visited_on_wire = 100

abbrev pub max_history_on_wire : ℕ
max_history_on_wire = 100

-- kMaxHelloOnWire
abbrev pub max_hello_on_wire : ℕ
max_hello_on_wire = 64

abbrev pub hop_size : ℕ
hop_size = 12

abbrev pub hello_size : ℕ
hello_size = 12

abbrev pub fixed_size : ℕ
fixed_size = 34

abbrev pub count_fields : ℕ
count_fields = 6

abbrev pub direction_byte : AntDirection → ℕ
direction_byte up = 0x11
direction_byte down = 0x12

abbrev pub wire_type : AntType → ℕ
wire_type hello = 0x01
wire_type reactive = 0x02
wire_type proactive = 0x04
wire_type repair = 0x08
wire_type link_fail = 0x10

-- n bytes, the lowest first, of a number
unfoldable pub little_endian : ℕ → ℕ → List ℕ
little_endian zero v = []
little_endian (suc n) v = (v % 256) ∷ little_endian n (v / 256)

-- static_cast<std::uint32_t> of an `int`, and back
abbrev pub int_to_u32 : ℤ → ℕ
int_to_u32 (pos n) = n % 2 ^ 32
int_to_u32 (negsuc n) = (2 ^ 32 - 1) - n % 2 ^ 32

abbrev pub int_of_u32 : ℕ → ℤ
int_of_u32 w = if ltb w (2 ^ 31) then pos w else negsuc (2 ^ 32 - 1 - w)

module _ {W : Type 0} ⦃bits : Patterns W⦄ where
  open bits use {bits64, bits32}

  unfoldable pub write_hops : List (AntHop W) → List ℕ
  unfolding little_endian
  write_hops [] = []
  write_hops (h ∷ hs) =
      little_endian 4 (to_u32 h.node) ++ (little_endian 8 (bits64 h.time) ++ write_hops hs)

  unfoldable pub write_adverts : List (HelloDest W) → List ℕ
  unfolding little_endian
  write_adverts [] = []
  write_adverts (a ∷ as') =
      little_endian 4 (to_u32 a.node) ++ (little_endian 8 (bits64 a.pheromone) ++ write_adverts as')

  unfoldable pub write_kinematics : Kinematics W → List ℕ
  unfolding little_endian
  write_kinematics k =
      kinematics_tag
      ∷ (little_endian 4 (bits32 k.x)
          ++ (little_endian 4 (bits32 k.y)
              ++ (little_endian 4 (bits32 k.z)
                  ++ (little_endian 4 (bits32 k.vx)
                      ++ (little_endian 4 (bits32 k.vy) ++ little_endian 4 (bits32 k.vz))))))

  unfoldable pub serialized_size : AntMessage W → ℕ
  serialized_size m =
      1
      + fixed_size
      + count_fields
      + length m.visited * hop_size
      + length m.history * hop_size
      + length m.hello_dests * hello_size
      + (if m.has_kinematics then kinematics_size else 0)

  unfoldable pub serialize : AntMessage W → List ℕ
  unfolding write_hops write_adverts write_kinematics little_endian
  serialize m =
      wire_version
      ∷ wire_type m.type
      ∷ direction_byte m.direction
      ∷ (little_endian 4 (to_u32 m.src)
          ++ (little_endian 4 (to_u32 m.dst)
              ++ (little_endian 4 m.seq_num
                  ++ (little_endian 8 (bits64 m.time_start)
                      ++ (little_endian 8 (bits64 m.life_ant)
                          ++ (little_endian 4 (int_to_u32 m.broadcast_budget)
                              ++ (little_endian 2 (length m.visited)
                                  ++ (write_hops m.visited
                                      ++ (little_endian 2 (length m.history)
                                          ++ (write_hops m.history
                                              ++ (little_endian 2 (length m.hello_dests)
                                                  ++ (write_adverts m.hello_dests
                                                      ++ (if m.has_kinematics
                                                          then write_kinematics m.kinematics
                                                          else [])))))))))))))
