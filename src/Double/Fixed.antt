-- ===== src/Double/Fixed.antt =====
-- A concrete `Double`: signed thousandths, and NaN. It shows that what the theorems assume of the
-- arithmetic can hold, and it lets the model run. `exp` and `sqrt` are rough: no theorem reads them.
use ant_hoc_net.Double.{Double, IsOrdered}
use ant_hoc_net.Prelude.{
  Bool, arith, false, if◌then◌else◌, leb, ltb, not, refl, suc, true, zero, ℕ, ◌&&◌, ◌*◌, ◌+◌, ◌-◌,
  ◌/◌, ◌==◌, ◌^◌,
}

pub data Fixed : Type 0 where
  -- n / 1000
  plus : ℕ → Fixed
  -- - (n + 1) / 1000
  minus : ℕ → Fixed
  not_number : Fixed

abbrev pub negative : ℕ → Fixed
negative zero = plus 0
negative (suc n) = minus n

abbrev pub fixed_neg : Fixed → Fixed
fixed_neg (plus n) = negative n
fixed_neg (minus n) = plus (n + 1)
fixed_neg not_number = not_number

abbrev pub fixed_add : Fixed → Fixed → Fixed
fixed_add (plus a) (plus b) = plus (a + b)
fixed_add (plus a) (minus b) = if ltb b a then plus (a - b - 1) else minus (b - a)
fixed_add (minus a) (plus b) = if ltb a b then plus (b - a - 1) else minus (a - b)
fixed_add (minus a) (minus b) = minus (a + b + 1)
fixed_add _ _ = not_number

abbrev pub fixed_mul : Fixed → Fixed → Fixed
fixed_mul (plus a) (plus b) = plus (a * b / 1000)
fixed_mul (plus a) (minus b) = negative (a * (b + 1) / 1000)
fixed_mul (minus a) (plus b) = negative ((a + 1) * b / 1000)
fixed_mul (minus a) (minus b) = plus ((a + 1) * (b + 1) / 1000)
fixed_mul _ _ = not_number

abbrev pub fixed_div : Fixed → Fixed → Fixed
fixed_div (plus a) (plus b) = if b == 0 then not_number else plus (a * 1000 / b)
fixed_div (plus a) (minus b) = negative (a * 1000 / (b + 1))
fixed_div (minus a) (plus b) = if b == 0 then not_number else negative ((a + 1) * 1000 / b)
fixed_div (minus a) (minus b) = plus ((a + 1) * 1000 / (b + 1))
fixed_div _ _ = not_number

abbrev pub power : Fixed → ℕ → Fixed
power x zero = plus 1000
power x (suc n) = fixed_mul x (power x n)

-- whole exponents
abbrev pub fixed_pow : Fixed → Fixed → Fixed
fixed_pow x (plus e) = power x (e / 1000)
fixed_pow x (minus e) = fixed_div (plus 1000) (power x ((e + 1) / 1000))
fixed_pow x not_number = not_number

abbrev pub fixed_abs : Fixed → Fixed
fixed_abs (minus n) = plus (n + 1)
fixed_abs x = x

abbrev pub fixed_le : Fixed → Fixed → Bool
fixed_le (plus a) (plus b) = leb a b
fixed_le (plus a) (minus b) = false
fixed_le (minus a) (plus b) = true
fixed_le (minus a) (minus b) = leb b a
fixed_le _ _ = false

abbrev pub fixed_lt : Fixed → Fixed → Bool
fixed_lt (plus a) (plus b) = ltb a b
fixed_lt (plus a) (minus b) = false
fixed_lt (minus a) (plus b) = true
fixed_lt (minus a) (minus b) = ltb b a
fixed_lt _ _ = false

abbrev pub fixed_is_nan : Fixed → Bool
fixed_is_nan not_number = true
fixed_is_nan _ = false

instance abbrev pub fixed_double : Double Fixed
fixed_double = record {
  literal = λ m e. plus (m * 1000 / 10 ^ e);
  of_nat = λ n. plus (n * 1000);
  infinity = plus (10 ^ 12);
  nan = not_number;
  neg = fixed_neg;
  add = fixed_add;
  sub = λ a b. fixed_add a (fixed_neg b);
  mul = fixed_mul;
  div = fixed_div;
  pow = fixed_pow;
  exp = λ a. fixed_add (plus 1000) a;
  sqrt = λ a. a;
  fabs = fixed_abs;
  lt = fixed_lt;
  le = fixed_le;
  eq = λ a b. fixed_le a b && fixed_le b a;
  is_nan = fixed_is_nan;
  is_finite = λ a. not (fixed_is_nan a);
}

pub Fixed-IsOrdered : IsOrdered Fixed
Fixed-IsOrdered = record {
  nought_number = refl;
  le_refl = λ a. ground arith;
  le_trans = λ a b c. ground arith;
  le_total = λ a b. ground arith;
  lt_iff = λ a b. ground arith;
  lt_nan = λ a b. ground arith;
  le_nan = λ a b. ground arith;
}
