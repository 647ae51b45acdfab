-- ===== src/Codec/Size.antt =====
-- The length of an encoded ant.
use ant_hoc_net.Address.{to_u32}
use ant_hoc_net.Codec.{
  Patterns, hello_size, hop_size, kinematics_size, little_endian, serialize, serialized_size,
  write_adverts, write_hops, write_kinematics,
}
use ant_hoc_net.Message.{AntHop, AntMessage, HelloDest, Kinematics}
use ant_hoc_net.Prelude.{
  List, [], arith, if◌then◌else◌, length, length-append, refl, ℕ, ◌*◌, ◌++◌, ◌+◌, ◌∷◌, ◌≡◌,
}

-- a node and a number, in front of what follows
length-entry :
    (a v : ℕ) (rest : List ℕ)
    → length (little_endian 4 a ++ (little_endian 8 v ++ rest)) ≡ 12 + length rest
unfolding little_endian
length-entry a v rest = omega arith

module _ {W : Type 0} ⦃bits : Patterns W⦄ where
  open bits use {bits64, bits32}

  pub length-write_hops : (hs : List (AntHop W)) → length (write_hops hs) ≡ length hs * hop_size
  unfolding write_hops
  length-write_hops [] = refl
  length-write_hops (h ∷ hs) =
      omega
        (arith, length-entry (to_u32 h.node) (bits64 h.time) (write_hops hs), length-write_hops hs)

  pub length-write_adverts :
      (as' : List (HelloDest W)) → length (write_adverts as') ≡ length as' * hello_size
  unfolding write_adverts
  length-write_adverts [] = refl
  length-write_adverts (a ∷ as') = omega (
    arith,
    length-entry (to_u32 a.node) (bits64 a.pheromone) (write_adverts as'),
    length-write_adverts as',
  )

  pub length-write_kinematics : (k : Kinematics W) → length (write_kinematics k) ≡ kinematics_size
  unfolding write_kinematics
  length-write_kinematics k = refl

  -- `serialize` writes exactly the `serializedSize` bytes that it sizes its buffer to.
  pub length-serialize : (m : AntMessage W) → length (serialize m) ≡ serialized_size m
  unfolding serialize serialized_size
  length-serialize m =
      let kinematics = if m.has_kinematics then write_kinematics m.kinematics else [] in
      let adverts = write_adverts m.hello_dests ++ kinematics in
      let history : List ℕ =
        write_hops m.history ++ (little_endian 2 (length m.hello_dests) ++ adverts) in
      ground (
        arith,
        length-append {0} (write_hops m.visited) (little_endian 2 (length m.history) ++ history),
        length-append {0} (write_hops m.history)
            (little_endian 2 (length m.hello_dests) ++ adverts),
        length-append {0} (write_adverts m.hello_dests) kinematics,
        length-write_hops m.visited,
        length-write_hops m.history,
        length-write_adverts m.hello_dests,
        length-write_kinematics m.kinematics,
      )
