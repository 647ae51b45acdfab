-- ===== src/Prelude/Int.antt =====
-- Signed integers over the native numbers, for the source's `int` fields.
use Prim.Native.Nat.{ℕ, zero, suc}
use mathlib.Core.Bool.{Bool, true, false}
use ant_hoc_net.Prelude.Tests.{ltb}

pub data ℤ : Type 0 where
  pos : ℕ → ℤ
  -- - (n + 1)
  negsuc : ℕ → ℤ

abbrev pub is_negative : ℤ → Bool
is_negative (pos n) = false
is_negative (negsuc n) = true

-- n < i, for a count n
abbrev pub lt_ℤ : ℕ → ℤ → Bool
lt_ℤ n (pos m) = ltb n m
lt_ℤ n (negsuc m) = false

abbrev pub to_ℕ : ℤ → ℕ
to_ℕ (pos n) = n
to_ℕ (negsuc n) = 0

-- i == 0
abbrev pub is_spent : ℤ → Bool
is_spent (pos n) = elim n [ zero ↦ true | suc m ↦ false ]
is_spent (negsuc n) = false
