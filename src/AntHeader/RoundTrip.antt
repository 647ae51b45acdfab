-- ===== src/AntHeader/RoundTrip.antt =====
-- `Deserialize` of ns3/anthocnet/model/anthocnet-packet.cc reads back what `Serialize` puts in.
use ant_hoc_net.Address.{to_u32}
use ant_hoc_net.AntHeader.{
  Buffer, get_adverts, get_body, get_floats, get_header, get_hops, get_kinematics,
  get_serialized_size, put_adverts, put_floats, put_header, put_hops, put_kinematics, put_sections,
}
use ant_hoc_net.AntHeader.Size.{IsBuffer, IsCarried, length-put_floats, length-put_header}
use ant_hoc_net.Codec.{
  Patterns, direction_byte, int_to_u32, kinematics_size, wire_type, wire_version,
}
use ant_hoc_net.Codec.Decode.{direction_of, type_of, ◌>>=◌}
use ant_hoc_net.Codec.RoundTrip.{
  AreAdverts, AreHops, address_back, as_floats, bits64-Fits, int_back, int_to_u32-Fits, received,
}
use ant_hoc_net.Codec.Sections.{IsFaithful}
use ant_hoc_net.Double.{Double}
use ant_hoc_net.Message.{
  AntDirection, AntHop, AntMessage, AntType, HelloDest, Kinematics, down, hello, link_fail,
  proactive, reactive, repair, still, up,
}
use ant_hoc_net.Prelude.{
  Bool-cases, List, [], arith, if◌then◌else◌, inl, inr, leb, length, refl, some, true, ℕ, ◌%◌, ◌++◌,
  ◌+◌, ◌<◌, ◌^◌, ◌∙◌, ◌∷◌, ◌≡◌,
}

module _ (buffer : Buffer) (sound : IsBuffer buffer) where
  module _ {W : Type 0} ⦃bits : Patterns W⦄ where
    open bits use {bits64, bits32}

    get_hops-put_hops :
        IsFaithful W
        → (hs : List (AntHop W)) (after : List ℕ) → AreHops hs
        → get_hops buffer (length hs) (put_hops buffer hs after) ≡ some (hs, after)
    unfolding get_hops put_hops
    get_hops-put_hops faithful [] after h = refl
    get_hops-put_hops faithful (x ∷ hs) after (small, h) =
        rw (sound.read_back 4 (to_u32 x.node) _ (omega arith), ◌>>=◌)
          (rw (sound.read_back 8 (bits64 x.time) _ (bits64-Fits faithful x.time), ◌>>=◌)
            (rw (get_hops-put_hops faithful hs after h, ◌>>=◌)
              (rw (address_back faithful x.node small, faithful.back x.time) refl)))

    get_adverts-put_adverts :
        IsFaithful W
        → (as' : List (HelloDest W)) (after : List ℕ) → AreAdverts as'
        → get_adverts buffer (length as') (put_adverts buffer as' after) ≡ some (as', after)
    unfolding get_adverts put_adverts
    get_adverts-put_adverts faithful [] after h = refl
    get_adverts-put_adverts faithful (x ∷ as') after (small, h) =
        rw (sound.read_back 4 (to_u32 x.node) _ (omega arith), ◌>>=◌)
          (rw (sound.read_back 8 (bits64 x.pheromone) _ (bits64-Fits faithful x.pheromone), ◌>>=◌)
            (rw (get_adverts-put_adverts faithful as' after h, ◌>>=◌)
              (rw (address_back faithful x.node small, faithful.back x.pheromone) refl)))

    module _ (faithful : IsFaithful W) (floats : (x : W) → bits32 x < 2 ^ 32) ⦃d : Double W⦄ where
      float_back :
          (x : W) (after : List ℕ)
          → buffer.read 4 (buffer.write 4 (bits32 x) ++ after) ≡ some (bits32 x, after)
      float_back x after = let small = floats x in sound.read_back 4 (bits32 x) after (omega arith)

      -- the numbers of the section
      numbers_of : Kinematics W → List W
      numbers_of k = k.x ∷ k.y ∷ k.z ∷ k.vx ∷ k.vy ∷ k.vz ∷ []

      get_floats-put_floats :
          (k : Kinematics W)
          → get_floats buffer (put_floats buffer (numbers_of k)) ≡ some (as_floats k, [])
      unfolding get_floats put_floats numbers_of
      get_floats-put_floats k =
          rw (float_back k.x, ◌>>=◌)
            (rw (float_back k.y, ◌>>=◌)
              (rw (float_back k.z, ◌>>=◌)
                (rw (float_back k.vx, ◌>>=◌)
                  (rw (float_back k.vy, ◌>>=◌) (rw (float_back k.vz, ◌>>=◌) refl)))))

      get_kinematics-put_kinematics :
          (m n : AntMessage W)
          → get_kinematics buffer n (put_kinematics buffer m)
            ≡ some (
              record n {
                has_kinematics = m.has_kinematics;
                kinematics = if m.has_kinematics then as_floats m.kinematics else still;
              },
              [],
            )
      unfolding get_kinematics put_kinematics numbers_of
      get_kinematics-put_kinematics m n = elim (Bool-cases m.has_kinematics) [
        | inr without ↦ rw without refl
        | inl has ↦
            let all_there : leb kinematics_size
                  (length (put_floats buffer (numbers_of m.kinematics)) + 1)
                ≡ true =
              ground (arith, length-put_floats buffer sound (numbers_of m.kinematics)) in
            rw (has, all_there) (rw (get_floats-put_floats m.kinematics, ◌>>=◌) refl)
      ]

      size_back :
          (n : ℕ) (after : List ℕ)
          → n < 2 ^ 16
          → buffer.read 2 (buffer.write 2 (n % 2 ^ 16) ++ after) ≡ some (n, after)
      size_back n after small =
          let whole : n % 2 ^ 16 ≡ n = omega arith in
          rw whole (sound.read_back 2 n after (omega arith))

      body_bytes : AntMessage W → List ℕ
      body_bytes m =
          buffer.write 4 (to_u32 m.src)
          ++ (buffer.write 4 (to_u32 m.dst)
              ++ (buffer.write 4 m.seq_num
                  ++ (buffer.write 8 (bits64 m.time_start)
                      ++ (buffer.write 8 (bits64 m.life_ant)
                          ++ (buffer.write 4 (int_to_u32 m.broadcast_budget)
                              ++ put_sections buffer m)))))

      get_body-body_bytes :
          (m old : AntMessage W)
          → IsCarried m
          → get_body buffer old m.type m.direction (body_bytes m) ≡ some (received old m, [])
      unfolding get_body body_bytes put_sections
      get_body-body_bytes m old c =
          let seq_range = c.seq_range in
          rw (sound.read_back 4 (to_u32 m.src) _ (omega arith), ◌>>=◌)
            (rw (sound.read_back 4 (to_u32 m.dst) _ (omega arith), ◌>>=◌)
              (rw (sound.read_back 4 m.seq_num _ (omega arith), ◌>>=◌)
                (rw
                  (
                    sound.read_back 8 (bits64 m.time_start) _ (bits64-Fits faithful m.time_start),
                    ◌>>=◌,
                  )
                  (rw
                    (
                      sound.read_back 8 (bits64 m.life_ant) _ (bits64-Fits faithful m.life_ant),
                      ◌>>=◌,
                    )
                    (rw
                      (
                        sound.read_back 4 (int_to_u32 m.broadcast_budget) _
                            (int_to_u32-Fits m.broadcast_budget),
                        ◌>>=◌,
                      )
                      (rw (size_back (length m.visited) _ c.visited_few, ◌>>=◌)
                        (rw (get_hops-put_hops faithful m.visited _ c.visited_hops, ◌>>=◌)
                          (rw (size_back (length m.history) _ c.history_few, ◌>>=◌)
                            (rw (get_hops-put_hops faithful m.history _ c.history_hops, ◌>>=◌)
                              (rw (size_back (length m.hello_dests) _ c.hello_few, ◌>>=◌)
                                (rw
                                  (
                                    get_adverts-put_adverts faithful m.hello_dests _
                                        c.hello_adverts,
                                    ◌>>=◌,
                                  )
                                  (rw
                                    (
                                      address_back faithful m.src c.src_range,
                                      address_back faithful m.dst c.dst_range,
                                      faithful.back m.time_start,
                                      faithful.back m.life_ant,
                                      int_back m.broadcast_budget c.budget_range,
                                    )
                                    (get_kinematics-put_kinematics m (record (received old m) {
                                      has_kinematics = old.has_kinematics;
                                      kinematics = old.kinematics;
                                    }))))))))))))))

      front_back :
          (old : AntMessage W) (t : AntType) (dir : AntDirection) (after : List ℕ)
          → get_header buffer old (wire_version ∷ wire_type t ∷ direction_byte dir ∷ after)
            ≡ get_body buffer old t dir after
      unfolding get_header type_of direction_of
      front_back old hello up after = refl
      front_back old hello down after = refl
      front_back old reactive up after = refl
      front_back old reactive down after = refl
      front_back old proactive up after = refl
      front_back old proactive down after = refl
      front_back old repair up after = refl
      front_back old repair down after = refl
      front_back old link_fail up after = refl
      front_back old link_fail down after = refl

      -- If ns-3's buffer reads back what it wrote, in as many bytes as asked for, and the patterns of
      -- numbers are faithful and of their sizes, then for every ant of fields in the ranges of their
      -- types and sections below 2 ^ 16: `Serialize` puts in as many bytes as `GetSerializedSize`
      -- says, and `Deserialize` takes out exactly these and gives back the ant, with its kinematics
      -- rounded to floats and the fields that are not sent as they were before.
      pub get_header-put_header :
          (m old : AntMessage W)
          → IsCarried m
          → (length (put_header buffer m) ≡ get_serialized_size m)
            × (get_header buffer old (put_header buffer m) ≡ some (received old m, []))
      unfolding put_header body_bytes
      get_header-put_header m old c = (
        length-put_header buffer sound m c,
        front_back old m.type m.direction (body_bytes m) ∙ get_body-body_bytes m old c,
      )
