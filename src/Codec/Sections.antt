-- ===== src/Codec/Sections.antt =====
-- Reading back what the writer of a section has written.
use ant_hoc_net.Address.{NodeAddress, of_u32, to_u32}
use ant_hoc_net.Codec.{Patterns, write_hops}
use ant_hoc_net.Codec.Decode.{read_hops}
use ant_hoc_net.Message.{AntHop}
use ant_hoc_net.Prelude.{
  All, List, Option, [], ap, arith, length, none, refl, some, suc, sym, zero, ℕ, ◌%◌, ◌*◌, ◌++◌,
  ◌+◌, ◌/◌, ◌<◌, ◌^◌, ◌∙◌, ◌∷◌, ◌≡◌,
}

-- the number has at most so many bytes
abbrev pub Fits : ℕ → ℕ → Type 0
Fits zero v = v ≡ 0
Fits (suc n) v = Fits n (v / 256)

-- what `read` makes of the bytes that `little_endian` writes
abbrev pub assemble : ℕ → ℕ → ℕ
assemble zero v = 0
assemble (suc n) v = v % 256 + 256 * assemble n (v / 256)

pub assemble-eq : (n v : ℕ) → Fits n v → assemble n v ≡ v
assemble-eq zero v h = sym h
assemble-eq (suc n) v h = omega (arith, assemble-eq n (v / 256) h)

pub assemble-address : (a : NodeAddress) → a < 2 ^ 32 → of_u32 (assemble 4 (to_u32 a)) ≡ a
assemble-address a h = ap of_u32 (assemble-eq 4 (to_u32 a) (omega arith)) ∙ omega arith

-- What `memcpy` between a `double` and a `uint64_t` is relied on for: the pattern has 64 bits, and
-- gives the number back.
pub record IsFaithful (W : Type 0) ⦃bits : Patterns W⦄ : Type 0 where
  pub back : (x : W) → bits.of_bits64 (bits.bits64 x) ≡ x
  pub in_range : (x : W) → bits.bits64 x < 2 ^ 64

module _ {W : Type 0} ⦃bits : Patterns W⦄ (faithful : IsFaithful W) where
  -- what the loop does with the hops that it reads after `x`
  abbrev then_cons :
      AntHop W → Option (List (AntHop W) × List ℕ) → Option (List (AntHop W) × List ℕ)
  then_cons x none = none
  then_cons x (some (hs, rest)) = some (x ∷ hs, rest)

  pub assemble-double : (x : W) → bits.of_bits64 (assemble 8 (bits.bits64 x)) ≡ x
  assemble-double x =
      let bound = faithful.in_range x in
      ap bits.of_bits64 (assemble-eq 8 (bits.bits64 x) (omega arith)) ∙ faithful.back x

  -- If the patterns of numbers are faithful and every address is an `int32_t`, then reading as many
  -- hops as were written, from what was written and any bytes after it, gives those hops and leaves
  -- the bytes after them.
  pub read_hops-write_hops :
      (hs : List (AntHop W)) (rest : List ℕ)
      → All (λ h. h.node < 2 ^ 32) hs
      → read_hops (length hs) (write_hops hs ++ rest) ≡ some (hs, rest)
  unfolding read_hops write_hops
  read_hops-write_hops [] rest h = refl
  read_hops-write_hops (x ∷ hs) rest (small, h) =
      rw (assemble-address x.node small, assemble-double x.time)
        (ap (then_cons x) (read_hops-write_hops hs rest h))
