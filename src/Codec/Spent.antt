-- ===== src/Codec/Spent.antt =====
-- How many bytes a reader of core/src/ant_message_codec.cpp takes, step by step.
use ant_hoc_net.Codec.Decode.{Reading, guard, holds, lift, pure, read, ◌>>=◌, ◌>>◌}
use ant_hoc_net.Prelude.{
  Bool, Bool-cases, List, Option, Option-cases, [], ap, arith, inl, inr, length, none, some, suc,
  zero, ℕ, ◌+◌, ◌∷◌, ◌≡◌,
}

unfoldable pub Uses : {A : Type 0} → ℕ → Reading A → (A → ℕ) → Type 0
Uses {A} k m size =
    (bytes : List ℕ) (a : A) (rest : List ℕ)
    → m bytes ≡ some (a, rest)
    → k + length bytes ≡ size a + length rest

pub Uses-bind :
    {A B : Type 0} (k : ℕ) (m : Reading A) (f : A → Reading B) (taken : A → ℕ) (size : B → ℕ)
    → Uses 0 m taken
    → ((a : A) → Uses (taken a + k) (f a) size)
    → Uses k (m >>= f) size
unfolding Uses
Uses-bind k m f taken size ok then bytes b rest h = elim (Option-cases (m bytes)) [
  | inl fails ↦ absurd (cc (rw (fails, ◌>>=◌) at h))
  | inr ((a, left), e) ↦ omega (arith, ok bytes a left e, then a left b rest (rw (e, ◌>>=◌) at h))
]

pub Uses-pure : {A : Type 0} (k : ℕ) (a : A) (size : A → ℕ) → k ≡ size a → Uses k (pure a) size
unfolding Uses
Uses-pure k a size e bytes b rest h =
    let same : a ≡ b = cc in
    let left : bytes ≡ rest = cc in omega (arith, e, ap size same, ap length left)

pub Uses-guard : (test : Bool) → Uses 0 (guard test) (λ _. 0)
unfolding Uses
Uses-guard test bytes a rest h = ground (arith, h)

pub Uses-holds : (n : ℕ) → Uses 0 (holds n) (λ _. 0)
unfolding Uses
Uses-holds n bytes a rest h = let left : bytes ≡ rest = cc in omega (arith, ap length left)

pub Uses-lift : {A : Type 0} (o : Option A) → Uses 0 (lift o) (λ _. 0)
unfolding Uses
Uses-lift none bytes a rest h = absurd cc
Uses-lift (some b) bytes a rest h = let left : bytes ≡ rest = cc in omega (arith, ap length left)

pub Uses-read : (n : ℕ) → Uses 0 (read n) (λ _. n)
unfolding Uses read
Uses-read zero bytes a rest h = let left : bytes ≡ rest = cc in omega (arith, ap length left)
Uses-read (suc n) [] a rest h = absurd cc
Uses-read (suc n) (b ∷ bytes) a rest h = elim (Option-cases (read n bytes)) [
  | inl fails ↦ absurd (cc (rw fails at h))
  | inr ((high, left), e) ↦
      let same : left ≡ rest = cc (rw e at h) in
      omega (arith, Uses-read n bytes high left e, ap length same)
]

-- the test of a section takes nothing
pub Uses-count :
    {A : Type 0} (k : ℕ) (test : Bool) (m : Reading A) (size : A → ℕ)
    → Uses k m size
    → Uses k (guard test >> m) size
unfolding Uses
Uses-count k test m size all bytes a rest h = elim (Bool-cases test) [
  | inl ok ↦ all bytes a rest (rw (ok, ◌>>◌) at h)
  | inr over ↦ absurd (cc (rw (over, ◌>>◌) at h))
]

-- after k bytes
pub Uses-later :
    {A : Type 0} (k : ℕ) (m : Reading A) (size : A → ℕ) → Uses 0 m size → Uses k m (λ a. k + size a)
unfolding Uses
Uses-later k m size ok bytes a rest h = omega (arith, ok bytes a rest h)

-- the same of a reader after which `deserialize` is at its end
unfoldable pub Ends : {A : Type 0} → ℕ → Reading A → (A → ℕ) → Type 0
Ends {A} k m size =
    (bytes : List ℕ) (a : A) (rest : List ℕ) → m bytes ≡ some (a, rest) → k + length bytes ≡ size a

pub Ends-bind :
    {A B : Type 0} (k : ℕ) (m : Reading A) (f : A → Reading B) (taken : A → ℕ) (size : B → ℕ)
    → Uses 0 m taken
    → ((a : A) → Ends (taken a + k) (f a) size)
    → Ends k (m >>= f) size
unfolding Uses Ends
Ends-bind k m f taken size ok then bytes b rest h = elim (Option-cases (m bytes)) [
  | inl fails ↦ absurd (cc (rw (fails, ◌>>=◌) at h))
  | inr ((a, left), e) ↦ omega (arith, ok bytes a left e, then a left b rest (rw (e, ◌>>=◌) at h))
]

pub Ends-map :
    {A B : Type 0} (k : ℕ) (m : Reading A) (g : A → B) (taken : A → ℕ) (size : B → ℕ)
    → Ends 0 m taken
    → ((a : A) → k + taken a ≡ size (g a))
    → Ends k (m >>= λ a. pure (g a)) size
unfolding Ends
Ends-map k m g taken size ok sum bytes b rest h = elim (Option-cases (m bytes)) [
  | inl fails ↦ absurd (cc (rw (fails, ◌>>=◌) at h))
  | inr ((a, left), e) ↦
      let same : g a ≡ b = cc (rw (e, ◌>>=◌) at h) in
      omega (arith, ok bytes a left e, sum a, ap size same)
]
