-- ===== src/AntHeader/Tests.antt =====
-- A hello in a buffer that puts the lowest byte first.
use ant_hoc_net.AntHeader.{Buffer, get_header, get_serialized_size, put_header}
use ant_hoc_net.AntHeader.RoundTrip.{get_header-put_header}
use ant_hoc_net.AntHeader.Size.{IsBuffer, IsCarried}
use ant_hoc_net.Codec.{little_endian}
use ant_hoc_net.Codec.Decode.{read}
use ant_hoc_net.Codec.RoundTrip.{read-little_endian, received}
use ant_hoc_net.Codec.Tests.{test_hello, two-IsFaithful, two_bits32, two_double, two_patterns}
use ant_hoc_net.Message.{new_message}
use ant_hoc_net.Prelude.{
  Bool, [], ap, arith, false, length, refl, some, suc, true, zero, ℕ, ◌/◌, ◌<◌, ◌^◌, ◌≡◌,
}

abbrev test_buffer : Buffer
test_buffer = record { write = little_endian; read = read }

length-little_endian : (n v : ℕ) → length (little_endian n v) ≡ n
unfolding little_endian
length-little_endian zero v = refl
length-little_endian (suc n) v = ap suc (length-little_endian n (v / 256))

test_buffer-IsBuffer : IsBuffer test_buffer
test_buffer-IsBuffer = record { read_back = read-little_endian; size = length-little_endian }

two_floats : (x : Bool) → two_bits32 x < 2 ^ 32
two_floats false = omega arith
two_floats true = omega arith

test_hello-IsCarried : IsCarried test_hello
test_hello-IsCarried = record {
  src_range = omega arith;
  dst_range = omega arith;
  seq_range = omega arith;
  budget_range = omega arith;
  visited_few = omega arith;
  visited_hops = (omega arith, (omega arith, tt));
  history_few = omega arith;
  history_hops = tt;
  hello_few = omega arith;
  hello_adverts = (omega arith, tt);
}

get_header-put_header_example :
    (length (put_header ⦃bits = two_patterns⦄ test_buffer test_hello)
      ≡ get_serialized_size test_hello)
    × (get_header ⦃bits = two_patterns⦄ test_buffer ⦃d = two_double⦄
          (new_message ⦃d = two_double⦄)
          (put_header ⦃bits = two_patterns⦄ test_buffer test_hello)
        ≡ some (
          received ⦃bits = two_patterns⦄ ⦃d = two_double⦄ (new_message ⦃d = two_double⦄) test_hello,
          [],
        ))
get_header-put_header_example =
    get_header-put_header test_buffer test_buffer-IsBuffer ⦃bits = two_patterns⦄ two-IsFaithful
      two_floats ⦃d = two_double⦄ test_hello (new_message ⦃d = two_double⦄) test_hello-IsCarried
