-- ===== src/Address.antt =====
-- `NodeAddress` of core/include/anthocnet/core/types.h, an `int32_t`. It is kept as its value plus
-- 2 ^ 31, a number below 2 ^ 32: so the order of the numbers is the order of the addresses, which is
-- the order in which `std::set` and `std::map` are iterated.
use ant_hoc_net.Prelude.{ℕ, ◌%◌, ◌+◌, ◌-◌, ◌^◌}

abbrev pub NodeAddress : Type 0
NodeAddress = ℕ

-- kInvalidAddress, which is -1
abbrev pub invalid_address : NodeAddress
invalid_address = 2 ^ 31 - 1

-- the address of value n
abbrev pub node : ℕ → NodeAddress
node n = 2 ^ 31 + n

-- the bit pattern of the `int32_t`, as a cast to `uint32_t` gives it, and back
abbrev pub to_u32 : NodeAddress → ℕ
to_u32 a = (a + 2 ^ 31) % 2 ^ 32

abbrev pub of_u32 : ℕ → NodeAddress
of_u32 w = (w + 2 ^ 31) % 2 ^ 32
