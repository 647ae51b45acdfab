-- ===== src/AntHeader.antt =====
-- `AntHeader` of ns3/anthocnet/model/anthocnet-packet.h and anthocnet-packet.cc: an ant as the header of
-- an ns-3 packet. ns-3's `Buffer::Iterator` is the interface Buffer: what its `WriteU16`, `WriteU32` and
-- `WriteU64` put in, for 2, 4 and 8 bytes, and what the reads take out. A read past the end, which
-- ns-3 does not allow, and a byte that is no enumerator are `none`.
pub mod Size
pub mod RoundTrip
mod Tests
use ant_hoc_net.Address.{node, of_u32, to_u32}
use ant_hoc_net.Codec.{
  Patterns, count_fields, direction_byte, fixed_size, hello_size, hop_size, int_of_u32, int_to_u32,
  kinematics_size, kinematics_tag, wire_type, wire_version,
}
use ant_hoc_net.Codec.Decode.{Reading, direction_of, lift, pure, type_of, ◌>>=◌}
use ant_hoc_net.Double.{Double}
use ant_hoc_net.Message.{AntDirection, AntHop, AntMessage, AntType, HelloDest, Kinematics, still}
use ant_hoc_net.Prelude.{
  List, [], false, if◌then◌else◌, leb, length, none, not, some, suc, true, zero, ℕ, ◌%◌, ◌*◌, ◌++◌,
  ◌+◌, ◌==◌, ◌^◌, ◌∷◌,
}

pub record Buffer : Type 0 where
  pub write : ℕ → ℕ → List ℕ
  pub read : ℕ → Reading ℕ

module _ {W : Type 0} ⦃bits : Patterns W⦄ (buffer : Buffer) where
  open bits use {bits64, bits32}
  open buffer use {write}

  -- Each writer takes what is written after it.
  unfoldable pub put_hops : List (AntHop W) → List ℕ → List ℕ
  put_hops [] after = after
  put_hops (h ∷ hs) after =
      write 4 (to_u32 h.node) ++ (write 8 (bits64 h.time) ++ put_hops hs after)

  unfoldable pub put_adverts : List (HelloDest W) → List ℕ → List ℕ
  put_adverts [] after = after
  put_adverts (a ∷ as') after =
      write 4 (to_u32 a.node) ++ (write 8 (bits64 a.pheromone) ++ put_adverts as' after)

  unfoldable pub put_floats : List W → List ℕ
  put_floats [] = []
  put_floats (x ∷ xs) = write 4 (bits32 x) ++ put_floats xs

  -- the optional section at the end
  unfoldable pub put_kinematics : AntMessage W → List ℕ
  put_kinematics m =
      let k = m.kinematics in
      if m.has_kinematics
      then kinematics_tag ∷ put_floats (k.x ∷ k.y ∷ k.z ∷ k.vx ∷ k.vy ∷ k.vz ∷ [])
      else []

  -- the sections, each after its size as a `uint16_t`
  unfoldable pub put_sections : AntMessage W → List ℕ
  put_sections m =
      write 2 (length m.visited % 2 ^ 16)
      ++ put_hops m.visited (
          write 2 (length m.history % 2 ^ 16)
          ++ put_hops m.history (
              write 2 (length m.hello_dests % 2 ^ 16)
              ++ put_adverts m.hello_dests (put_kinematics m)))

  unfoldable pub put_header : AntMessage W → List ℕ
  put_header m =
      wire_version
      ∷ wire_type m.type
      ∷ direction_byte m.direction
      ∷ (write 4 (to_u32 m.src)
          ++ (write 4 (to_u32 m.dst)
              ++ (write 4 m.seq_num
                  ++ (write 8 (bits64 m.time_start)
                      ++ (write 8 (bits64 m.life_ant)
                          ++ (write 4 (int_to_u32 m.broadcast_budget) ++ put_sections m))))))

module _ {W : Type 0} where
  -- `GetSerializedSize`, in `uint32_t`
  unfoldable pub get_serialized_size : AntMessage W → ℕ
  get_serialized_size m =
      (1
        + fixed_size
        + count_fields
        + length m.visited * hop_size
        + length m.history * hop_size
        + length m.hello_dests * hello_size
        + (if m.has_kinematics then kinematics_size else 0))
      % 2 ^ 32

module _ {W : Type 0} ⦃bits : Patterns W⦄ (buffer : Buffer) where
  open bits use {of_bits64, of_bits32}
  open buffer use {read}

  unfoldable pub get_hops : ℕ → Reading (List (AntHop W))
  get_hops zero = pure []
  get_hops (suc n) = do
    node ← read 4
    time ← read 8
    rest ← get_hops n
    pure (record { node = of_u32 node; time = of_bits64 time } ∷ rest)

  unfoldable pub get_adverts : ℕ → Reading (List (HelloDest W))
  get_adverts zero = pure []
  get_adverts (suc n) = do
    node ← read 4
    pheromone ← read 8
    rest ← get_adverts n
    pure (record { node = of_u32 node; pheromone = of_bits64 pheromone } ∷ rest)

  unfoldable pub get_floats : Reading (Kinematics W)
  get_floats = do
    x ← read 4
    y ← read 4
    z ← read 4
    vx ← read 4
    vy ← read 4
    vz ← read 4
    pure (record {
      x = of_bits32 x;
      y = of_bits32 y;
      z = of_bits32 z;
      vx = of_bits32 vx;
      vy = of_bits32 vy;
      vz = of_bits32 vz;
    })

  module _ ⦃d : Double W⦄ where
    -- what is left can only be the kinematics of a hello; a byte that is not its tag is passed over
    unfoldable pub get_kinematics : AntMessage W → Reading (AntMessage W)
    get_kinematics m [] = some (record m { has_kinematics = false; kinematics = still }, [])
    get_kinematics m (b ∷ bytes) =
        let without = record m { has_kinematics = false; kinematics = still } in
        if not (leb kinematics_size (length bytes + 1))
        then some (without, b ∷ bytes)
        else if not (b == kinematics_tag)
        then some (without, bytes)
        else (do k ← get_floats; pure (record m { has_kinematics = true; kinematics = k })) bytes

    -- `Deserialize`, after the three bytes in front
    unfoldable pub get_body : AntMessage W → AntType → AntDirection → Reading (AntMessage W)
    get_body old type direction = do
      src ← read 4
      dst ← read 4
      seq ← read 4
      time_start ← read 8
      life_ant ← read 8
      budget ← read 4
      nv ← read 2
      visited ← get_hops nv
      nh ← read 2
      history ← get_hops nh
      nd ← read 2
      adverts ← get_adverts nd
      get_kinematics (record old {
        type = type;
        direction = direction;
        src = of_u32 src;
        dst = of_u32 dst;
        seq_num = seq;
        time_start = of_bits64 time_start;
        life_ant = of_bits64 life_ant;
        broadcast_budget = int_of_u32 budget;
        visited = visited;
        history = history;
        hello_dests = adverts;
      })

    -- the version is not looked at
    unfoldable pub get_header : AntMessage W → Reading (AntMessage W)
    get_header old [] = none
    get_header old (version ∷ []) = none
    get_header old (version ∷ type_code ∷ []) = none
    get_header old (version ∷ type_code ∷ direction_code ∷ bytes) =
        (do
          type ← lift (type_of type_code)
          direction ← lift (direction_of direction_code)
          get_body old type direction)
          bytes
