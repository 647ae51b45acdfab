-- ===== src/AntHeader/Size.antt =====
-- How many bytes ns3/anthocnet/model/anthocnet-packet.cc puts into a buffer, and what it relies on.
use ant_hoc_net.Address.{to_u32}
use ant_hoc_net.AntHeader.{
  Buffer, get_serialized_size, put_adverts, put_floats, put_header, put_hops, put_kinematics,
  put_sections,
}
use ant_hoc_net.Codec.{Patterns, hello_size, hop_size, int_to_u32, kinematics_size}
use ant_hoc_net.Codec.RoundTrip.{AreAdverts, AreHops, IsInt}
use ant_hoc_net.Codec.Sections.{Fits}
use ant_hoc_net.Message.{AntHop, AntMessage, HelloDest}
use ant_hoc_net.Prelude.{
  List, [], arith, if◌then◌else◌, length, length-append, refl, some, ℕ, ◌%◌, ◌*◌, ◌++◌, ◌+◌, ◌<◌,
  ◌^◌, ◌∷◌, ◌≡◌,
}

-- What ns-3's buffer is relied on for: a number is read back from the bytes that it was written as,
-- and these are as many as asked for.
pub record IsBuffer (buffer : Buffer) : Type 0 where
  pub read_back :
      (n v : ℕ) (rest : List ℕ)
      → Fits n v
      → buffer.read n (buffer.write n v ++ rest) ≡ some (v, rest)
  pub size : (n v : ℕ) → length (buffer.write n v) ≡ n

-- What a header can carry of an ant: numbers of their C++ types, and sections whose sizes are
-- `uint16_t`.
pub record IsCarried {W : Type 0} (m : AntMessage W) : Type 0 where
  pub src_range : m.src < 2 ^ 32
  pub dst_range : m.dst < 2 ^ 32
  pub seq_range : m.seq_num < 2 ^ 32
  pub budget_range : IsInt m.broadcast_budget
  pub visited_few : length m.visited < 2 ^ 16
  pub visited_hops : AreHops m.visited
  pub history_few : length m.history < 2 ^ 16
  pub history_hops : AreHops m.history
  pub hello_few : length m.hello_dests < 2 ^ 16
  pub hello_adverts : AreAdverts m.hello_dests

module _ (buffer : Buffer) (sound : IsBuffer buffer) where
  length-put : (n v : ℕ) (rest : List ℕ) → length (buffer.write n v ++ rest) ≡ n + length rest
  length-put n v rest = omega (arith, length-append {0} (buffer.write n v) rest, sound.size n v)

  module _ {W : Type 0} ⦃bits : Patterns W⦄ where
    open bits use {bits64, bits32}

    length-put_hops :
        (hs : List (AntHop W)) (after : List ℕ)
        → length (put_hops buffer hs after) ≡ length hs * hop_size + length after
    unfolding put_hops
    length-put_hops [] after = omega arith
    length-put_hops (h ∷ hs) after = omega (
      arith,
      length-put 4 (to_u32 h.node) (buffer.write 8 (bits64 h.time) ++ put_hops buffer hs after),
      length-put 8 (bits64 h.time) (put_hops buffer hs after),
      length-put_hops hs after,
    )

    length-put_adverts :
        (as' : List (HelloDest W)) (after : List ℕ)
        → length (put_adverts buffer as' after) ≡ length as' * hello_size + length after
    unfolding put_adverts
    length-put_adverts [] after = omega arith
    length-put_adverts (a ∷ as') after = omega (
      arith,
      length-put 4 (to_u32 a.node)
          (buffer.write 8 (bits64 a.pheromone) ++ put_adverts buffer as' after),
      length-put 8 (bits64 a.pheromone) (put_adverts buffer as' after),
      length-put_adverts as' after,
    )

    pub length-put_floats : (xs : List W) → length (put_floats buffer xs) ≡ length xs * 4
    unfolding put_floats
    length-put_floats [] = refl
    length-put_floats (x ∷ xs) =
        omega (arith, length-put 4 (bits32 x) (put_floats buffer xs), length-put_floats xs)

    kinematics_bytes_of : AntMessage W → ℕ
    kinematics_bytes_of m = if m.has_kinematics then kinematics_size else 0

    length-put_kinematics :
        (m : AntMessage W) → length (put_kinematics buffer m) ≡ kinematics_bytes_of m
    unfolding put_kinematics kinematics_bytes_of
    length-put_kinematics m =
        let k = m.kinematics in
        ground (arith, length-put_floats (k.x ∷ k.y ∷ k.z ∷ k.vx ∷ k.vy ∷ k.vz ∷ []))

    length-put_sections :
        (m : AntMessage W)
        → length (put_sections buffer m)
          ≡ 6
            + length m.visited * hop_size
            + length m.history * hop_size
            + length m.hello_dests * hello_size
            + kinematics_bytes_of m
    unfolding put_sections
    length-put_sections m =
        let kinematics = put_kinematics buffer m in
        let adverts : List ℕ = put_adverts buffer m.hello_dests kinematics in
        let hellos : List ℕ = buffer.write 2 (length m.hello_dests % 2 ^ 16) ++ adverts in
        let history : List ℕ = put_hops buffer m.history hellos in
        let histories : List ℕ = buffer.write 2 (length m.history % 2 ^ 16) ++ history in
        omega (
          arith,
          length-put 2 (length m.visited % 2 ^ 16) (put_hops buffer m.visited histories),
          length-put_hops m.visited histories,
          length-put 2 (length m.history % 2 ^ 16) history,
          length-put_hops m.history hellos,
          length-put 2 (length m.hello_dests % 2 ^ 16) adverts,
          length-put_adverts m.hello_dests kinematics,
          length-put_kinematics m,
        )

    -- `Serialize` puts in as many bytes as `GetSerializedSize` says
    pub length-put_header :
        (m : AntMessage W) → IsCarried m → length (put_header buffer m) ≡ get_serialized_size m
    unfolding put_header get_serialized_size kinematics_bytes_of
    length-put_header m c =
        let few_visited = c.visited_few in
        let few_history = c.history_few in
        let few_hello = c.hello_few in
        let sections = put_sections buffer m in
        let budget = buffer.write 4 (int_to_u32 m.broadcast_budget) ++ sections in
        let life : List ℕ = buffer.write 8 (bits64 m.life_ant) ++ budget in
        let time : List ℕ = buffer.write 8 (bits64 m.time_start) ++ life in
        let seq : List ℕ = buffer.write 4 m.seq_num ++ time in
        let dst : List ℕ = buffer.write 4 (to_u32 m.dst) ++ seq in
        ground (
          arith,
          length-put 4 (to_u32 m.src) dst,
          length-put 4 (to_u32 m.dst) seq,
          length-put 4 m.seq_num time,
          length-put 8 (bits64 m.time_start) life,
          length-put 8 (bits64 m.life_ant) budget,
          length-put 4 (int_to_u32 m.broadcast_budget) sections,
          length-put_sections m,
        )
