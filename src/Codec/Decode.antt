-- ===== src/Codec/Decode.antt =====
-- `deserialize`: a reader over the bytes that fails for good when they run out.
use ant_hoc_net.Address.{node, of_u32}
use ant_hoc_net.Codec.{
  Patterns, hello_size, hop_size, int_of_u32, kinematics_size, kinematics_tag, max_hello_on_wire,
  max_history_on_wire, max_visited_on_wire, wire_version,
}
use ant_hoc_net.Double.{Double}
use ant_hoc_net.Message.{
  AntDirection, AntHop, AntMessage, AntType, HelloDest, Kinematics, down, hello, link_fail,
  proactive, reactive, repair, same_type, still, up,
}
use ant_hoc_net.Prelude.{
  Bool, List, Option, [], false, if◌then◌else◌, leb, length, none, some, suc, true, zero, ℕ, ◌&&◌,
  ◌*◌, ◌+◌, ◌==◌, ◌∷◌,
}

-- A reading step: `none` is the failed reader, and the result comes with the bytes that are left.
abbrev pub Reading : Type 0 → Type 0
Reading A = List ℕ → Option (A × List ℕ)

infixl 5 ◌>>=◌ ◌>>◌
abbrev pub ◌>>=◌ : {A B : Type 0} → Reading A → (A → Reading B) → Reading B
◌>>=◌ m f bytes = elim (m bytes) [ none ↦ none | some (a, rest) ↦ f a rest ]

abbrev pub ◌>>◌ : {B : Type 0} → Reading (Unit {0}) → Reading B → Reading B
m >> k = m >>= λ _. k

abbrev pub pure : {A : Type 0} → A → Reading A
pure a bytes = some (a, bytes)

-- return false
abbrev pub guard : Bool → Reading (Unit {0})
guard test bytes = if test then some (tt, bytes) else none

-- u8, u16, u32 and the bits of dbl: n bytes, the lowest first
unfoldable pub read : ℕ → Reading ℕ
read zero bytes = some (0, bytes)
read (suc n) [] = none
read (suc n) (b ∷ bytes) = elim (read n bytes) [
  | none ↦ none
  | some (high, rest) ↦ some (b + 256 * high, rest)
]

unfoldable pub type_of : ℕ → Option AntType
type_of b =
    if b == 0x01
    then some hello
    else if b == 0x02
    then some reactive
    else if b == 0x04
    then some proactive
    else if b == 0x08
    then some repair
    else if b == 0x10
    then some link_fail
    else none

unfoldable pub direction_of : ℕ → Option AntDirection
direction_of b = if b == 0x11 then some up else if b == 0x12 then some down else none

abbrev pub lift : {A : Type 0} → Option A → Reading A
lift o bytes = elim o [ none ↦ none | some a ↦ some (a, bytes) ]

-- r.remaining < n * size
abbrev pub holds : ℕ → Reading Bool
holds needed bytes = some (leb needed (length bytes), bytes)

module _ {W : Type 0} ⦃bits : Patterns W⦄ where
  open bits use {of_bits64, of_bits32}

  unfoldable pub read_hops : ℕ → Reading (List (AntHop W))
  unfolding read
  read_hops zero = pure []
  read_hops (suc n) = do
    node ← read 4
    time ← read 8
    rest ← read_hops n
    pure (record { node = of_u32 node; time = of_bits64 time } ∷ rest)

  unfoldable pub read_adverts : ℕ → Reading (List (HelloDest W))
  unfolding read
  read_adverts zero = pure []
  read_adverts (suc n) = do
    node ← read 4
    pheromone ← read 8
    rest ← read_adverts n
    pure (record { node = of_u32 node; pheromone = of_bits64 pheromone } ∷ rest)

  -- a length-prefixed section: its count is bounded, and its bytes are all there
  unfoldable pub read_hop_section : ℕ → Reading (List (AntHop W))
  unfolding read read_hops
  read_hop_section most = do
    n ← read 2
    there ← holds (n * hop_size)
    guard (leb n most && there)
    read_hops n

  unfoldable pub read_advert_section : ℕ → Reading (List (HelloDest W))
  unfolding read read_adverts
  read_advert_section most = do
    n ← read 2
    there ← holds (n * hello_size)
    guard (leb n most && there)
    read_adverts n

module _ {W : Type 0} ⦃d : Double W⦄ ⦃bits : Patterns W⦄ where
  open d use {is_finite}
  open bits use {of_bits64, of_bits32}

  unfoldable pub read_float : Reading W
  unfolding read
  read_float = do w ← read 4; guard (is_finite (of_bits32 w)); pure (of_bits32 w)

  -- the whole rest is one kinematics section
  unfoldable pub read_kinematics : Reading (Kinematics W)
  unfolding read read_float
  read_kinematics = do
    whole ← (λ bytes. some (length bytes == kinematics_size, bytes))
    guard whole
    tag ← read 1
    guard (tag == kinematics_tag)
    x ← read_float
    y ← read_float
    z ← read_float
    vx ← read_float
    vy ← read_float
    vz ← read_float
    pure (record { x = x; y = y; z = z; vx = vx; vy = vy; vz = vz })

  -- what follows the adverts
  unfoldable pub read_tail : AntMessage W → Reading (AntMessage W)
  unfolding read_kinematics
  read_tail m [] = some (record m { has_kinematics = false; kinematics = still }, [])
  read_tail m (b ∷ bytes) =
      (do
        guard (same_type m.type hello)
        k ← read_kinematics
        pure (record m { has_kinematics = true; kinematics = k }))
        (b ∷ bytes)

  -- What follows the three bytes of the header. The fields of `old` that are not on the wire stay.
  unfoldable pub read_body : AntMessage W → AntType → AntDirection → Reading (AntMessage W)
  unfolding read read_hop_section read_advert_section read_tail
  read_body old type direction = do
    src ← read 4
    dst ← read 4
    seq ← read 4
    time_start ← read 8
    life_ant ← read 8
    budget ← read 4
    visited ← read_hop_section max_visited_on_wire
    history ← read_hop_section max_history_on_wire
    adverts ← read_advert_section max_hello_on_wire
    read_tail (record old {
      type = type;
      direction = direction;
      src = of_u32 src;
      dst = of_u32 dst;
      seq_num = seq;
      time_start = of_bits64 time_start;
      life_ant = of_bits64 life_ant;
      broadcast_budget = int_of_u32 budget;
      visited = visited;
      history = history;
      hello_dests = adverts;
    })

  unfoldable pub read_message : AntMessage W → Reading (AntMessage W)
  unfolding read type_of direction_of read_body
  read_message old = do
    version ← read 1
    guard (version == wire_version)
    type_code ← read 1
    direction_byte' ← read 1
    type ← lift (type_of type_code)
    direction ← lift (direction_of direction_byte')
    read_body old type direction

  unfoldable pub deserialize : List ℕ → AntMessage W → Option (AntMessage W)
  unfolding read_message
  deserialize bytes old = elim (read_message old bytes) [ none ↦ none | some (m, rest) ↦ some m ]
