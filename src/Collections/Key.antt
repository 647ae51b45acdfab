-- ===== src/Collections/Key.antt =====
-- Keys of ordered containers: an equality and a strict total order. `std::pair` is ordered
-- lexicographically.
use ant_hoc_net.Prelude.{
  ==_iff, Bool, arith, false, ltb, true, ℕ, ◌&&◌, ◌==◌ as nat_beq, ◌||◌, ◌↔◌, ◌≡◌,
}

pub record Key {ℓ} (K : Type ℓ) : Type ℓ where
  pub beq : K → K → Bool
  pub less : K → K → Bool
  pub beq_iff : (a b : K) → (beq a b ≡ true) ↔ (a ≡ b)
  pub less_irrefl : (a b : K) → beq a b ≡ true → less a b ≡ false
  pub less_trans : (a b c : K) → less a b ≡ true → less b c ≡ true → less a c ≡ true
  pub less_total : (a b : K) → beq a b ≡ false → less a b ≡ false → less b a ≡ true

pub nat_irrefl : (a b : ℕ) → nat_beq a b ≡ true → ltb a b ≡ false
nat_irrefl a b h = ground arith

pub nat_trans : (a b c : ℕ) → ltb a b ≡ true → ltb b c ≡ true → ltb a c ≡ true
nat_trans a b c h k = ground arith

pub nat_total : (a b : ℕ) → nat_beq a b ≡ false → ltb a b ≡ false → ltb b a ≡ true
nat_total a b h k = ground arith

instance abbrev pub nat_key : Key ℕ
nat_key = record {
  beq = nat_beq;
  less = ltb;
  beq_iff = ==_iff;
  less_irrefl = nat_irrefl;
  less_trans = nat_trans;
  less_total = nat_total;
}

abbrev pub NatPair : Type 0
NatPair = ℕ × ℕ

abbrev pub pair_beq : NatPair → NatPair → Bool
pair_beq (a, b) (c, d) = nat_beq a c && nat_beq b d

abbrev pub pair_less : NatPair → NatPair → Bool
pair_less (a, b) (c, d) = ltb a c || (nat_beq a c && ltb b d)

pub pair_beq_iff : (p q : NatPair) → (pair_beq p q ≡ true) ↔ (p ≡ q)
pair_beq_iff (a, b) (c, d) = ground arith

pub pair_irrefl : (p q : NatPair) → pair_beq p q ≡ true → pair_less p q ≡ false
pair_irrefl (a, b) (c, d) h = ground arith

pub pair_trans :
    (p q r : NatPair) → pair_less p q ≡ true → pair_less q r ≡ true → pair_less p r ≡ true
pair_trans (a, b) (c, d) (e, f) h k = ground arith

pub pair_total :
    (p q : NatPair) → pair_beq p q ≡ false → pair_less p q ≡ false → pair_less q p ≡ true
pair_total (a, b) (c, d) h k = ground arith

instance abbrev pub pair_key : Key NatPair
pair_key = record {
  beq = pair_beq;
  less = pair_less;
  beq_iff = pair_beq_iff;
  less_irrefl = pair_irrefl;
  less_trans = pair_trans;
  less_total = pair_total;
}
