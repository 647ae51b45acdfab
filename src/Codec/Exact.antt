-- ===== src/Codec/Exact.antt =====
-- How many bytes `deserialize` takes: a frame that it accepts has none left over.
use ant_hoc_net.Address.{of_u32}
use ant_hoc_net.Codec.{
  Patterns, hello_size, hop_size, int_of_u32, kinematics_size, max_hello_on_wire,
  max_history_on_wire, max_visited_on_wire, serialized_size, wire_version,
}
use ant_hoc_net.Codec.Decode.{
  deserialize, direction_of, guard, holds, lift, pure, read, read_advert_section, read_adverts,
  read_body, read_hop_section, read_hops, read_kinematics, read_message, read_tail, type_of, ◌>>=◌,
}
use ant_hoc_net.Codec.Spent.{
  Ends, Ends-bind, Ends-map, Uses, Uses-bind, Uses-count, Uses-guard, Uses-holds, Uses-later,
  Uses-lift, Uses-pure, Uses-read,
}
use ant_hoc_net.Double.{Double}
use ant_hoc_net.Message.{AntDirection, AntMessage, AntType, Kinematics, hello, same_type, still}
use ant_hoc_net.Prelude.{
  ==_iff, Bool-cases, List, Option-cases, [], ap, arith, false, inl, inr, leb, length, some, subst,
  suc, true, zero, ℕ, ◌&&◌, ◌*◌, ◌+◌, ◌==◌, ◌∷◌, ◌≡◌,
}

module _ (W : Type 0) ⦃bits : Patterns W⦄ where
  read_hops-Uses : (n : ℕ) → Uses 0 (read_hops {W = W} n) (λ hs. length hs * hop_size)
  unfolding read_hops
  read_hops-Uses zero = Uses-pure 0 [] _ (omega arith)
  read_hops-Uses (suc n) = Uses-bind 0 (read 4) _ _ _ (Uses-read 4) (λ node.
      Uses-bind 4 (read 8) _ _ _ (Uses-read 8) (λ time.
        Uses-bind 12 (read_hops n) _ _ _ (read_hops-Uses n) (λ hs.
          Uses-pure (length hs * hop_size + 12)
            (record { node = of_u32 node; time = bits.of_bits64 time } ∷ hs) _ (omega arith))))

  read_adverts-Uses : (n : ℕ) → Uses 0 (read_adverts {W = W} n) (λ as'. length as' * hello_size)
  unfolding read_adverts
  read_adverts-Uses zero = Uses-pure 0 [] _ (omega arith)
  read_adverts-Uses (suc n) = Uses-bind 0 (read 4) _ _ _ (Uses-read 4) (λ node.
      Uses-bind 4 (read 8) _ _ _ (Uses-read 8) (λ pheromone.
        Uses-bind 12 (read_adverts n) _ _ _ (read_adverts-Uses n) (λ as'.
          Uses-pure (length as' * hello_size + 12)
            (record { node = of_u32 node; pheromone = bits.of_bits64 pheromone } ∷ as') _
            (omega arith))))

  read_hop_section-Uses :
      (most : ℕ) → Uses 0 (read_hop_section {W = W} most) (λ hs. 2 + length hs * hop_size)
  unfolding read_hop_section
  read_hop_section-Uses most = Uses-bind 0 (read 2) _ _ _ (Uses-read 2) (λ n.
      Uses-bind 2 (holds (n * hop_size)) _ _ _ (Uses-holds (n * hop_size)) (λ there.
        Uses-count 2 (leb n most && there) (read_hops n) _
          (Uses-later 2 (read_hops n) _ (read_hops-Uses n))))

  read_advert_section-Uses :
      (most : ℕ) → Uses 0 (read_advert_section {W = W} most) (λ as'. 2 + length as' * hello_size)
  unfolding read_advert_section
  read_advert_section-Uses most = Uses-bind 0 (read 2) _ _ _ (Uses-read 2) (λ n.
      Uses-bind 2 (holds (n * hello_size)) _ _ _ (Uses-holds (n * hello_size)) (λ there.
        Uses-count 2 (leb n most && there) (read_adverts n) _
          (Uses-later 2 (read_adverts n) _ (read_adverts-Uses n))))

module _ (W : Type 0) ⦃d : Double W⦄ ⦃bits : Patterns W⦄ where
  -- kinematics are read only where they are the whole rest
  read_kinematics-Ends : Ends 0 (read_kinematics {W = W}) (λ _. kinematics_size)
  unfolding read_kinematics Ends
  read_kinematics-Ends bytes k rest h = elim (Bool-cases (length bytes == kinematics_size)) [
    | inl whole ↦ let size = (==_iff (length bytes) kinematics_size).0 whole in omega (arith, size)
    | inr other ↦ absurd (cc (rw other at h))
  ]

module _ {W : Type 0} ⦃d : Double W⦄ ⦃bits : Patterns W⦄ where
  read_tail-Ends :
      (k : ℕ) (m : AntMessage W)
      → k
        ≡ 41
          + length m.visited * hop_size
          + length m.history * hop_size
          + length m.hello_dests * hello_size
      → Ends k (read_tail m) serialized_size
  unfolding read_tail Ends serialized_size
  read_tail-Ends k m e [] = λ b rest h.
      let same : record m { has_kinematics = false; kinematics = still } ≡ b = cc in
      subst (λ x. k + 0 ≡ serialized_size x) same (omega (arith, e))
  read_tail-Ends k m e (byte ∷ bytes) =
      let with_them : Kinematics W → AntMessage W =
        λ kinematics. record m { has_kinematics = true; kinematics = kinematics } in
      Ends-bind k (guard (same_type m.type hello))
        (λ u. read_kinematics >>= λ kinematics. pure (with_them kinematics)) (λ u. 0)
        serialized_size (Uses-guard (same_type m.type hello))
        (λ u.
          Ends-map (0 + k) read_kinematics with_them (λ _. kinematics_size) serialized_size
            (read_kinematics-Ends W) (λ kinematics. omega (arith, e)))
        (byte ∷ bytes)

  read_body-Ends :
      (old : AntMessage W) (t : AntType) (dir : AntDirection)
      → Ends 3 (read_body old t dir) serialized_size
  unfolding read_body
  read_body-Ends old t dir = Ends-bind 3 (read 4) _ _ _ (Uses-read 4) (λ src.
      Ends-bind 7 (read 4) _ _ _ (Uses-read 4) (λ dst.
        Ends-bind 11 (read 4) _ _ _ (Uses-read 4) (λ seq.
          Ends-bind 15 (read 8) _ _ _ (Uses-read 8) (λ time_start.
            Ends-bind 23 (read 8) _ _ _ (Uses-read 8) (λ life_ant.
              Ends-bind 31 (read 4) _ _ _ (Uses-read 4) (λ budget.
                Ends-bind 35 (read_hop_section max_visited_on_wire) _ _ _
                  (read_hop_section-Uses W max_visited_on_wire)
                  (λ visited.
                    Ends-bind _ (read_hop_section max_history_on_wire) _ _ _
                      (read_hop_section-Uses W max_history_on_wire)
                      (λ history.
                        Ends-bind _ (read_advert_section max_hello_on_wire) _ _ _
                          (read_advert_section-Uses W max_hello_on_wire)
                          (λ adverts.
                            read_tail-Ends _
                              (record old {
                                type = t;
                                direction = dir;
                                src = of_u32 src;
                                dst = of_u32 dst;
                                seq_num = seq;
                                time_start = bits.of_bits64 time_start;
                                life_ant = bits.of_bits64 life_ant;
                                broadcast_budget = int_of_u32 budget;
                                visited = visited;
                                history = history;
                                hello_dests = adverts;
                              })
                              (omega arith))))))))))

  read_message-Ends : (old : AntMessage W) → Ends 0 (read_message old) serialized_size
  unfolding read_message
  read_message-Ends old = Ends-bind 0 (read 1) _ _ _ (Uses-read 1) (λ version.
      Ends-bind 1 (guard (version == wire_version)) _ _ _ (Uses-guard (version == wire_version))
        (λ u. Ends-bind 1 (read 1) _ _ _ (Uses-read 1) (λ type_code.
          Ends-bind 2 (read 1) _ _ _ (Uses-read 1) (λ code.
            Ends-bind 3 (lift (type_of type_code)) _ _ _ (Uses-lift (type_of type_code)) (λ t.
              Ends-bind 3 (lift (direction_of code)) _ _ _ (Uses-lift (direction_of code))
                (λ dir. read_body-Ends old t dir))))))

  -- Whatever the bytes: a frame that `deserialize` accepts is exactly as long as the serialized size of
  -- the ant that it gives, so that a frame with a byte too few or too many for its ant is refused.
  pub length-deserialize :
      (bytes : List ℕ) (old m : AntMessage W)
      → deserialize bytes old ≡ some m
      → length bytes ≡ serialized_size m
  unfolding deserialize Ends
  length-deserialize bytes old m h = elim (Option-cases (read_message old bytes)) [
    | inl fails ↦ absurd (cc (rw (fails, deserialize) at h))
    | inr ((n, rest), e) ↦
        let same : n ≡ m = cc (rw (e, deserialize) at h) in
        omega (arith, read_message-Ends old bytes n rest e, ap serialized_size same)
  ]
