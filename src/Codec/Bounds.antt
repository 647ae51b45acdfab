-- ===== src/Codec/Bounds.antt =====
-- What `deserialize` lets through: the bounds of the trust boundary, for any bytes.
use ant_hoc_net.Address.{of_u32}
use ant_hoc_net.Codec.{
  Patterns, hello_size, hop_size, int_of_u32, max_hello_on_wire, max_history_on_wire,
  max_visited_on_wire, wire_version,
}
use ant_hoc_net.Codec.Decode.{
  Reading, deserialize, direction_of, guard, holds, lift, pure, read, read_advert_section,
  read_adverts, read_body, read_hop_section, read_hops, read_kinematics, read_message, read_tail,
  type_of, ◌>>=◌, ◌>>◌,
}
use ant_hoc_net.Double.{Double, one}
use ant_hoc_net.Message.{AntDirection, AntMessage, AntType, hello, same_type, still}
use ant_hoc_net.Prelude.{
  Bool, Bool-cases, List, Option-cases, [], ap, arith, false, false≢true, inl, inr, leb, length,
  refl, some, subst, suc, true, zero, ℕ, ◌&&◌, ◌*◌, ◌==◌, ◌∷◌, ◌≡◌, ◌≤◌,
}

-- whatever the reader returns has the property
unfoldable Ensures : {A : Type 0} → Reading A → (A → Type 0) → Type 0
Ensures {A} m P = (bytes : List ℕ) (a : A) (rest : List ℕ) → m bytes ≡ some (a, rest) → P a

ensures_bind :
    {A B : Type 0} (m : Reading A) (f : A → Reading B) (P : A → Type 0) (Q : B → Type 0)
    → Ensures m P
    → ((a : A) → P a → Ensures (f a) Q)
    → Ensures (m >>= f) Q
unfolding Ensures
ensures_bind m f P Q one then bytes b rest h = elim (Option-cases (m bytes)) [
  | inl fails ↦ absurd (cc (rw (fails, ◌>>=◌) at h))
  | inr ((a, left), e) ↦ then a (one bytes a left e) left b rest (rw (e, ◌>>=◌) at h)
]

ensures_any : {A : Type 0} (m : Reading A) → Ensures m (λ _. Unit {0})
unfolding Ensures
ensures_any m bytes a rest h = tt

-- a step of which nothing is asked, and then the others
ensures_step :
    {A B : Type 0} (m : Reading A) (f : A → Reading B) (Q : B → Type 0)
    → ((a : A) → Ensures (f a) Q)
    → Ensures (m >>= f) Q
ensures_step m f Q then = ensures_bind m f (λ _. Unit {0}) Q (ensures_any m) (λ a known. then a)

ensures_pure : {A : Type 0} (a : A) (P : A → Type 0) → P a → Ensures (pure a) P
unfolding Ensures
ensures_pure a P p bytes b rest h = let same : a ≡ b = cc in subst P same p

ensures_guard : (test : Bool) → Ensures (guard test) (λ _. test ≡ true)
unfolding Ensures
ensures_guard test bytes a rest h = ground arith

module _ (W : Type 0) ⦃bits : Patterns W⦄ where
  read_hops-Ensures : (n : ℕ) → Ensures (read_hops {W = W} n) (λ hs. length hs ≡ n)
  unfolding read_hops
  read_hops-Ensures zero = ensures_pure [] (λ hs. length hs ≡ 0) refl
  read_hops-Ensures (suc n) = ensures_step (read 4) _ _ (λ node. ensures_step (read 8) _ _ (λ time.
      ensures_bind (read_hops n) _ _ _ (read_hops-Ensures n) (λ hs e.
        ensures_pure (record { node = of_u32 node; time = bits.of_bits64 time } ∷ hs) _
          (ap suc e))))

  read_adverts-Ensures : (n : ℕ) → Ensures (read_adverts {W = W} n) (λ as'. length as' ≡ n)
  unfolding read_adverts
  read_adverts-Ensures zero = ensures_pure [] (λ as'. length as' ≡ 0) refl
  read_adverts-Ensures (suc n) = ensures_step (read 4) _ _ (λ node.
      ensures_step (read 8) _ _ (λ pheromone.
        ensures_bind (read_adverts n) _ _ _ (read_adverts-Ensures n) (λ as' e.
          ensures_pure (record { node = of_u32 node; pheromone = bits.of_bits64 pheromone } ∷ as') _
            (ap suc e))))

  -- the test of a section's count holds where its elements are read
  ensures_count :
      {A : Type 0} (most n : ℕ) (there : Bool) (m : Reading (List A))
      → Ensures m (λ xs. length xs ≡ n)
      → Ensures (guard (leb n most && there) >> m) (λ xs. length xs ≤ most)
  unfolding Ensures
  ensures_count most n there m counted bytes xs rest h = elim (Bool-cases (leb n most && there)) [
    | inl ok ↦ let size = counted bytes xs rest (rw (ok, ◌>>◌) at h) in ground arith
    | inr over ↦ absurd (cc (rw (over, ◌>>◌) at h))
  ]

  read_hop_section-Ensures :
      (most : ℕ) → Ensures (read_hop_section {W = W} most) (λ hs. length hs ≤ most)
  unfolding read_hop_section
  read_hop_section-Ensures most = ensures_step (read 2) _ _ (λ n.
      ensures_step (holds (n * hop_size)) _ _
        (λ there. ensures_count most n there (read_hops n) (read_hops-Ensures n)))

  read_advert_section-Ensures :
      (most : ℕ) → Ensures (read_advert_section {W = W} most) (λ as'. length as' ≤ most)
  unfolding read_advert_section
  read_advert_section-Ensures most = ensures_step (read 2) _ _ (λ n.
      ensures_step (holds (n * hello_size)) _ _
        (λ there. ensures_count most n there (read_adverts n) (read_adverts-Ensures n)))

module _ {W : Type 0} where
  -- the bounds of the sections, and kinematics on hellos only
  pub record IsBounded (m : AntMessage W) : Type 0 where
    pub visited_few : length m.visited ≤ max_visited_on_wire
    pub history_few : length m.history ≤ max_history_on_wire
    pub hello_few : length m.hello_dests ≤ max_hello_on_wire
    pub kinematics_hello : m.has_kinematics ≡ true → m.type ≡ hello

same_type-eq : (s t : AntType) → same_type s t ≡ true → s ≡ t
same_type-eq s t h = ground arith

module _ {W : Type 0} ⦃d : Double W⦄ ⦃bits : Patterns W⦄ where
  read_tail-Ensures :
      (m : AntMessage W)
      → length m.visited ≤ max_visited_on_wire
      → length m.history ≤ max_history_on_wire
      → length m.hello_dests ≤ max_hello_on_wire
      → Ensures (read_tail m) IsBounded
  unfolding read_tail Ensures
  read_tail-Ensures m v h a [] =
      ensures_pure (record m { has_kinematics = false; kinematics = still }) IsBounded
        (record {
          visited_few = v;
          history_few = h;
          hello_few = a;
          kinematics_hello = λ has. absurd (false≢true has);
        })
        []
  read_tail-Ensures m v h a (b ∷ bytes) =
      ensures_bind (guard (same_type m.type hello))
        (λ u. read_kinematics >>= λ k. pure (record m { has_kinematics = true; kinematics = k }))
        (λ u. same_type m.type hello ≡ true) IsBounded (ensures_guard (same_type m.type hello))
        (λ u ok.
          ensures_step read_kinematics
            (λ k. pure (record m { has_kinematics = true; kinematics = k })) IsBounded
            (λ k.
              ensures_pure (record m { has_kinematics = true; kinematics = k }) IsBounded
                (record {
                  visited_few = v;
                  history_few = h;
                  hello_few = a;
                  kinematics_hello = λ has. same_type-eq m.type hello ok;
                })))
        (b ∷ bytes)

  read_body-Ensures :
      (old : AntMessage W) (t : AntType) (dir : AntDirection)
      → Ensures (read_body old t dir) IsBounded
  unfolding read_body
  read_body-Ensures old t dir = ensures_step (read 4) _ _ (λ src. ensures_step (read 4) _ _ (λ dst.
      ensures_step (read 4) _ _ (λ seq. ensures_step (read 8) _ _ (λ time_start.
        ensures_step (read 8) _ _ (λ life_ant. ensures_step (read 4) _ _ (λ budget.
          ensures_bind (read_hop_section max_visited_on_wire) _ _ _
            (read_hop_section-Ensures W max_visited_on_wire)
            (λ visited v.
              ensures_bind (read_hop_section max_history_on_wire) _ _ _
                (read_hop_section-Ensures W max_history_on_wire)
                (λ history h.
                  ensures_bind (read_advert_section max_hello_on_wire) _ _ _
                    (read_advert_section-Ensures W max_hello_on_wire)
                    (λ adverts a.
                      read_tail-Ensures
                        (record old {
                          type = t;
                          direction = dir;
                          src = of_u32 src;
                          dst = of_u32 dst;
                          seq_num = seq;
                          time_start = bits.of_bits64 time_start;
                          life_ant = bits.of_bits64 life_ant;
                          broadcast_budget = int_of_u32 budget;
                          visited = visited;
                          history = history;
                          hello_dests = adverts;
                        })
                        v h a)))))))))

  read_message-Ensures : (old : AntMessage W) → Ensures (read_message old) IsBounded
  unfolding read_message
  read_message-Ensures old = ensures_step (read 1) _ _ (λ version.
      ensures_step (guard (version == wire_version)) _ _ (λ u.
        ensures_step (read 1) _ _ (λ type_code. ensures_step (read 1) _ _ (λ code.
          ensures_step (lift (type_of type_code)) _ _ (λ t.
            ensures_step (lift (direction_of code)) _ _ (λ dir. read_body-Ensures old t dir))))))

  -- Whatever the bytes: an ant that `deserialize` accepts has at most kMaxVisitedOnWire visited hops,
  -- kMaxHistoryOnWire hops of history and kMaxHelloOnWire adverts, and kinematics only if it is a hello.
  pub deserialize-IsBounded :
      (bytes : List ℕ) (old m : AntMessage W) → deserialize bytes old ≡ some m → IsBounded m
  unfolding deserialize Ensures
  deserialize-IsBounded bytes old m h = elim (Option-cases (read_message old bytes)) [
    | inl fails ↦ absurd (cc (rw (fails, deserialize) at h))
    | inr ((n, rest), e) ↦
        let same : n ≡ m = cc (rw (e, deserialize) at h) in
        subst IsBounded same (read_message-Ensures old bytes n rest e)
  ]
