-- ===== src/Codec/RoundTrip.antt =====
-- `deserialize` reads back what `serialize` writes.
use ant_hoc_net.Address.{NodeAddress, of_u32, to_u32}
use ant_hoc_net.Codec.{
  Patterns, direction_byte, hello_size, hop_size, int_of_u32, int_to_u32, kinematics_size,
  kinematics_tag, little_endian, max_hello_on_wire, max_history_on_wire, max_visited_on_wire,
  serialize, wire_type, wire_version, write_adverts, write_hops, write_kinematics,
}
use ant_hoc_net.Codec.Decode.{
  deserialize, read, read_advert_section, read_adverts, read_body, read_float, read_hop_section,
  read_kinematics, read_message, read_tail, ◌>>=◌, ◌>>◌,
}
use ant_hoc_net.Codec.Sections.{
  Fits, IsFaithful, assemble-address, assemble-double, read_hops-write_hops,
}
use ant_hoc_net.Codec.Size.{length-write_adverts, length-write_hops, length-write_kinematics}
use ant_hoc_net.Double.{Double}
use ant_hoc_net.Message.{
  AntDirection, AntHop, AntMessage, AntType, HelloDest, Kinematics, down, hello, link_fail,
  proactive, reactive, repair, still, up,
}
use ant_hoc_net.Prelude.{
  All, Bool-cases, List, Option, [], ap, arith, if◌then◌else◌, inl, inr, leb, length, length-append,
  negsuc, none, pos, refl, some, suc, sym, true, zero, ℕ, ℤ, ◌%◌, ◌*◌, ◌++◌, ◌+◌, ◌/◌, ◌<◌, ◌^◌,
  ◌∙◌, ◌∷◌, ◌≡◌, ◌≤◌,
}

-- the number is an `int32_t`
abbrev pub IsInt : ℤ → Type 0
IsInt (pos n) = n < 2 ^ 31
IsInt (negsuc n) = n < 2 ^ 31

pub int_back : (i : ℤ) → IsInt i → int_of_u32 (int_to_u32 i) ≡ i
int_back (pos n) h = ground arith
int_back (negsuc n) h = ground arith

pub int_to_u32-Fits : (i : ℤ) → Fits 4 (int_to_u32 i)
int_to_u32-Fits (pos n) = omega arith
int_to_u32-Fits (negsuc n) = omega arith

pub read-little_endian :
    (n v : ℕ) (rest : List ℕ) → Fits n v → read n (little_endian n v ++ rest) ≡ some (v, rest)
unfolding read little_endian
read-little_endian zero v rest h = rw h refl
read-little_endian (suc n) v rest h =
    let whole : v % 256 + 256 * (v / 256) ≡ v = omega arith in
    rw (read-little_endian n (v / 256) rest h, whole) refl

read-byte : (b : ℕ) (rest : List ℕ) → read 1 (b ∷ rest) ≡ some (b, rest)
unfolding read
read-byte b rest = let same : b + 0 ≡ b = omega arith in rw same refl

module _ {W : Type 0} where
  -- every address is an `int32_t`
  abbrev pub AreHops : List (AntHop W) → Type 0
  AreHops hs = All (λ (h : AntHop W). h.node < 2 ^ 32) hs

  abbrev pub AreAdverts : List (HelloDest W) → Type 0
  AreAdverts as' = All (λ (a : HelloDest W). a.node < 2 ^ 32) as'

module _ {W : Type 0} ⦃bits : Patterns W⦄ where
  -- the number rounded to a `float`
  abbrev pub as_float : W → W
  as_float x = bits.of_bits32 (bits.bits32 x)

  abbrev pub as_floats : Kinematics W → Kinematics W
  as_floats k = record {
    x = as_float k.x;
    y = as_float k.y;
    z = as_float k.z;
    vx = as_float k.vx;
    vy = as_float k.vy;
    vz = as_float k.vz;
  }

  -- The ant as the reader leaves it: kinematics are rounded, and what is not on the wire stays as it was.
  abbrev pub received : ⦃d : Double W⦄ → AntMessage W → AntMessage W → AntMessage W
  received old m = record m {
    kinematics = if m.has_kinematics then as_floats m.kinematics else still;
    prev_hop = old.prev_hop;
    hops = old.hops;
    path_time = old.path_time;
    pheromone = old.pheromone;
  }

  -- the number rounds to a finite `float`, of 32 bits
  pub record IsFloat ⦃d : Double W⦄ (x : W) : Type 0 where
    pub in_range : bits.bits32 x < 2 ^ 32
    pub finite : d.is_finite (as_float x) ≡ true

  -- What the wire format can carry of an ant: numbers of their C++ types, sections within their bounds,
  -- and kinematics only on a hello, which round to finite floats.
  pub record IsOnWire ⦃d : Double W⦄ (m : AntMessage W) : Type 0 where
    pub src_range : m.src < 2 ^ 32
    pub dst_range : m.dst < 2 ^ 32
    pub seq_range : m.seq_num < 2 ^ 32
    pub budget_range : IsInt m.broadcast_budget
    pub visited_few : length m.visited ≤ max_visited_on_wire
    pub visited_hops : AreHops m.visited
    pub history_few : length m.history ≤ max_history_on_wire
    pub history_hops : AreHops m.history
    pub hello_few : length m.hello_dests ≤ max_hello_on_wire
    pub hello_adverts : AreAdverts m.hello_dests
    pub kinematics_hello : m.has_kinematics ≡ true → m.type ≡ hello
    pub kinematics_x : m.has_kinematics ≡ true → IsFloat m.kinematics.x
    pub kinematics_y : m.has_kinematics ≡ true → IsFloat m.kinematics.y
    pub kinematics_z : m.has_kinematics ≡ true → IsFloat m.kinematics.z
    pub kinematics_vx : m.has_kinematics ≡ true → IsFloat m.kinematics.vx
    pub kinematics_vy : m.has_kinematics ≡ true → IsFloat m.kinematics.vy
    pub kinematics_vz : m.has_kinematics ≡ true → IsFloat m.kinematics.vz

module _ {W : Type 0} ⦃bits : Patterns W⦄ (faithful : IsFaithful W) where
  open bits use {bits64, of_bits64}

  pub bits64-Fits : (x : W) → Fits 8 (bits64 x)
  bits64-Fits x = let bound = faithful.in_range x in omega arith

  pub address_back : (a : NodeAddress) → a < 2 ^ 32 → of_u32 (to_u32 a) ≡ a
  address_back a h = omega arith

  then_advert :
      HelloDest W → Option (List (HelloDest W) × List ℕ) → Option (List (HelloDest W) × List ℕ)
  then_advert x none = none
  then_advert x (some (hs, rest)) = some (x ∷ hs, rest)

  read_adverts-write_adverts :
      (as' : List (HelloDest W)) (rest : List ℕ)
      → AreAdverts as'
      → read_adverts (length as') (write_adverts as' ++ rest) ≡ some (as', rest)
  unfolding read_adverts write_adverts then_advert
  read_adverts-write_adverts [] rest h = refl
  read_adverts-write_adverts (x ∷ as') rest (small, h) =
      rw (assemble-address x.node small, assemble-double faithful x.pheromone)
        (ap (then_advert x) (read_adverts-write_adverts as' rest h))

  hop_section_back :
      (most : ℕ) (hs : List (AntHop W)) (rest : List ℕ)
      → AreHops hs
      → length hs ≤ most
      → most < 2 ^ 16
      → read_hop_section most (little_endian 2 (length hs) ++ (write_hops hs ++ rest))
        ≡ some (hs, rest)
  unfolding read_hop_section
  hop_section_back most hs rest addresses few small =
      let there : leb (length hs * hop_size) (length (write_hops hs ++ rest)) ≡ true =
        ground (arith, length-append {0} (write_hops hs) rest, length-write_hops hs) in
      let allowed : leb (length hs) most ≡ true = ground arith in
      rw
        (
          read-little_endian 2 (length hs) (write_hops hs ++ rest) (omega arith),
          ◌>>=◌,
          ◌>>◌,
          allowed,
          there,
        )
        (read_hops-write_hops faithful hs rest addresses)

  advert_section_back :
      (most : ℕ) (as' : List (HelloDest W)) (rest : List ℕ)
      → AreAdverts as'
      → length as' ≤ most
      → most < 2 ^ 16
      → read_advert_section most (little_endian 2 (length as') ++ (write_adverts as' ++ rest))
        ≡ some (as', rest)
  unfolding read_advert_section
  advert_section_back most as' rest addresses few small =
      let there : leb (length as' * hello_size) (length (write_adverts as' ++ rest)) ≡ true =
        ground (arith, length-append {0} (write_adverts as') rest, length-write_adverts as') in
      let allowed : leb (length as') most ≡ true = ground arith in
      rw
        (
          read-little_endian 2 (length as') (write_adverts as' ++ rest) (omega arith),
          ◌>>=◌,
          ◌>>◌,
          allowed,
          there,
        )
        (read_adverts-write_adverts as' rest addresses)

  module _ ⦃d : Double W⦄ where
    float_back :
        (x : W) (rest : List ℕ)
        → IsFloat x
        → read_float (little_endian 4 (bits.bits32 x) ++ rest) ≡ some (as_float x, rest)
    unfolding read_float
    float_back x rest f =
        let range = f.in_range in
        let read_it = read-little_endian 4 (bits.bits32 x) rest (omega arith) in
        rw (read_it, ◌>>=◌) (rw (◌>>◌, f.finite) refl)

    -- the numbers of a section, with the bytes after it
    abbrev float_bytes : Kinematics W → List ℕ → List ℕ
    float_bytes k rest =
        little_endian 4 (bits.bits32 k.x)
        ++ (little_endian 4 (bits.bits32 k.y)
            ++ (little_endian 4 (bits.bits32 k.z)
                ++ (little_endian 4 (bits.bits32 k.vx)
                    ++ (little_endian 4 (bits.bits32 k.vy)
                        ++ (little_endian 4 (bits.bits32 k.vz) ++ rest)))))

    kinematics_bytes : (k : Kinematics W) → write_kinematics k ≡ kinematics_tag ∷ float_bytes k []
    unfolding write_kinematics
    kinematics_bytes k = refl

    kinematics_size_eq :
        (k : Kinematics W) → length (kinematics_tag ∷ float_bytes k []) ≡ kinematics_size
    kinematics_size_eq k = ap length (sym (kinematics_bytes k)) ∙ length-write_kinematics k

    kinematics_back :
        (k : Kinematics W)
        → IsFloat k.x
        → IsFloat k.y
        → IsFloat k.z
        → IsFloat k.vx
        → IsFloat k.vy
        → IsFloat k.vz
        → read_kinematics (write_kinematics k) ≡ some (as_floats k, [])
    unfolding read_kinematics
    kinematics_back k x y z vx vy vz =
        rw (kinematics_bytes k, kinematics_size_eq k, ◌>>=◌)
          (rw (float_back k.x, ◌>>=◌)
            (rw (float_back k.y, ◌>>=◌)
              (rw (float_back k.z, ◌>>=◌)
                (rw (float_back k.vx, ◌>>=◌)
                  (rw (float_back k.vy, ◌>>=◌) (rw (float_back k.vz, ◌>>=◌) refl))))))

    tail_bytes : AntMessage W → List ℕ
    tail_bytes m = if m.has_kinematics then write_kinematics m.kinematics else []

    tail_back :
        (m n : AntMessage W)
        → IsOnWire m
        → n.type ≡ m.type
        → read_tail n (tail_bytes m)
          ≡ some (
            record n {
              has_kinematics = m.has_kinematics;
              kinematics = if m.has_kinematics then as_floats m.kinematics else still;
            },
            [],
          )
    unfolding read_tail tail_bytes
    tail_back m n wire same = elim (Bool-cases m.has_kinematics) [
      | inr without ↦ rw without refl
      | inl has ↦
          let e : n.type ≡ hello = same ∙ wire.kinematics_hello has in
          let k =
            kinematics_back m.kinematics (wire.kinematics_x has) (wire.kinematics_y has)
              (wire.kinematics_z has) (wire.kinematics_vx has) (wire.kinematics_vy has)
              (wire.kinematics_vz has) in
          rw (has, kinematics_bytes m.kinematics, ◌>>◌, e)
            (rw (← kinematics_bytes m.kinematics) (rw (k, ◌>>=◌) refl))
    ]

    -- the sections of lists, with the bytes after them
    section_bytes : AntMessage W → List ℕ
    section_bytes m =
        little_endian 2 (length m.visited)
        ++ (write_hops m.visited
            ++ (little_endian 2 (length m.history)
                ++ (write_hops m.history
                    ++ (little_endian 2 (length m.hello_dests)
                        ++ (write_adverts m.hello_dests ++ tail_bytes m)))))

    body_bytes : AntMessage W → List ℕ
    body_bytes m =
        little_endian 4 (to_u32 m.src)
        ++ (little_endian 4 (to_u32 m.dst)
            ++ (little_endian 4 m.seq_num
                ++ (little_endian 8 (bits64 m.time_start)
                    ++ (little_endian 8 (bits64 m.life_ant)
                        ++ (little_endian 4 (int_to_u32 m.broadcast_budget) ++ section_bytes m)))))

    message_bytes :
        (m : AntMessage W)
        → serialize m ≡ wire_version ∷ wire_type m.type ∷ direction_byte m.direction ∷ body_bytes m
    unfolding serialize body_bytes section_bytes tail_bytes
    message_bytes m = refl

    header_back :
        (old : AntMessage W) (t : AntType) (dir : AntDirection) (rest : List ℕ)
        → read_message old (wire_version ∷ wire_type t ∷ direction_byte dir ∷ rest)
          ≡ read_body old t dir rest
    unfolding read_message
    header_back old hello up rest = refl
    header_back old hello down rest = refl
    header_back old reactive up rest = refl
    header_back old reactive down rest = refl
    header_back old proactive up rest = refl
    header_back old proactive down rest = refl
    header_back old repair up rest = refl
    header_back old repair down rest = refl
    header_back old link_fail up rest = refl
    header_back old link_fail down rest = refl

    body_back :
        (m old : AntMessage W)
        → IsOnWire m
        → read_body old m.type m.direction (body_bytes m) ≡ some (received old m, [])
    unfolding read_body body_bytes section_bytes
    body_back m old wire =
        let seq_range = wire.seq_range in
        rw (read-little_endian 4 (to_u32 m.src) _ (omega arith), ◌>>=◌)
          (rw (read-little_endian 4 (to_u32 m.dst) _ (omega arith), ◌>>=◌)
            (rw (read-little_endian 4 m.seq_num _ (omega arith), ◌>>=◌)
              (rw (read-little_endian 8 (bits64 m.time_start) _ (bits64-Fits m.time_start), ◌>>=◌)
                (rw (read-little_endian 8 (bits64 m.life_ant) _ (bits64-Fits m.life_ant), ◌>>=◌)
                  (rw
                    (
                      read-little_endian 4 (int_to_u32 m.broadcast_budget) _
                          (int_to_u32-Fits m.broadcast_budget),
                      ◌>>=◌,
                    )
                    (rw
                      (
                        hop_section_back max_visited_on_wire m.visited _ wire.visited_hops
                            wire.visited_few (omega arith),
                        ◌>>=◌,
                      )
                      (rw
                        (
                          hop_section_back max_history_on_wire m.history _ wire.history_hops
                              wire.history_few (omega arith),
                          ◌>>=◌,
                        )
                        (rw
                          (
                            advert_section_back max_hello_on_wire m.hello_dests _ wire.hello_adverts
                                wire.hello_few (omega arith),
                            ◌>>=◌,
                          )
                          (rw
                            (
                              address_back m.src wire.src_range,
                              address_back m.dst wire.dst_range,
                              faithful.back m.time_start,
                              faithful.back m.life_ant,
                              int_back m.broadcast_budget wire.budget_range,
                            )
                            (tail_back m
                              (record (received old m) {
                                has_kinematics = old.has_kinematics;
                                kinematics = old.kinematics;
                              })
                              wire refl))))))))))

    -- If the patterns of `double` numbers are faithful, then `deserialize` gives back, from the bytes that
    -- `serialize` writes, every ant that the wire format can carry, with its kinematics rounded to floats
    -- and the fields that are not on the wire as they were before.
    pub deserialize-serialize :
        (m old : AntMessage W) → IsOnWire m → deserialize (serialize m) old ≡ some (received old m)
    unfolding deserialize
    deserialize-serialize m old wire =
        rw
          (
            message_bytes m,
            deserialize,
            header_back old m.type m.direction (body_bytes m),
            body_back m old wire,
          )
          refl
