-- ===== src/Tests/Words.antt =====
-- 256-bit words: the theorems at words, over a concrete `construct_uint!`.
use Prim.Native.Nat.{compare}
use fvm_utils.Base.{
  ℕ, zero, suc, ◌+◌, ◌-◌, ◌/◌, ◌%◌, ◌^◌, ◌<◌, ◌≤◌, ◌≡◌, refl, true, same_list, Option, some, none,
  List, [], ◌∷◌, Result, ok, String, ltb, nat_eq, if◌then◌else◌, length, ℤ, pos, negsuc, arith, ◌↔◌,
}
use fvm_utils.Bytes.{
  from_be_acc, from_be_bytes, to_be_bytes, from_be_bytes-to_be_bytes, length-to_be_bytes,
}
use fvm_utils.Uints.{
  U256, UintCrate, IsU256, value, from_value, fitting, i256_neg, i256_is_negative, i256_div,
  i256_mod, i256_cmp, i128_min, from_u64, eq_u64,
}
use fvm_utils.Uints.Limbs.{value_lt}
use fvm_utils.Uints.Signed.{signed, from_int, int_cmp, i256_cmp_lem, low_bits}
use fvm_utils.Uints.Division.{int_div, int_mod, i256_div_lem, i256_mod_lem}
use fvm_utils.Uints.Encoding.{
  BigIntCrate, Format, Sign, int_abs, serialize, deserialize, zeroless_view, leading_zeros,
  to_amount, from_amount, visit_bytes,
}
use fvm_utils.Uints.SelfTests.{
  div_i256, mod_i256, negative_i256, u256_serde, u256_empty, u256_overflow,
}
use fvm_utils.Uints.Serde.{deserialize-serialize, from_amount-to_amount}

bit_length : ℕ → ℕ → ℕ
bit_length zero n = 0
bit_length (suc k) n = let rest = bit_length k (n / 2) in if nat_eq n 0 then 0 else suc rest

pow_pos : (m : ℕ) → 0 < 2 ^ m
pow_pos zero = omega arith
pow_pos (suc m) = omega (arith, pow_pos m)

bit_length_lem : (k n m : ℕ) → n < 2 ^ k → (bit_length k n ≤ m) ↔ (n < 2 ^ m)
unfolding bit_length
bit_length_lem zero n m h = ground (arith, pow_pos m)
bit_length_lem (suc k) n zero h = ground arith
bit_length_lem (suc k) n (suc m) h = ground (arith, bit_length_lem k (n / 2) m, pow_pos m)

if_divisor : (u v w : U256) → 0 < value v → (if nat_eq (value v) 0 then none else some w) ≡ some w
if_divisor u v w p = ground arith

abbrev from_up_to_32 : List ℕ → Option U256
from_up_to_32 bs = if ltb 32 (length bs) then none else some (from_value (from_be_bytes bs))

from_up_to_32_lem :
    (bs : List ℕ) → length bs ≤ 32 → from_up_to_32 bs ≡ some (from_value (from_be_bytes bs))
from_up_to_32_lem bs h = ground arith

toy_bits : (u : U256) (n : ℕ) → IsU256 u → (bit_length 256 (value u) ≤ n) ↔ (value u < 2 ^ n)
toy_bits u n h = bit_length_lem 256 (value u) n (value_lt u h)

instance abbrev toy_uint : UintCrate
toy_uint = record {
  is_zero = λ u. nat_eq (value u) 0;
  bit_not = λ u. from_value (2 ^ 256 - 1 - value u);
  add = λ u v. fitting (value u + value v);
  div = λ u v. if nat_eq (value v) 0 then none else some (from_value (value u / value v));
  rem = λ u v. if nat_eq (value v) 0 then none else some (from_value (value u % value v));
  cmp = λ u v. compare (value u) (value v);
  bits = λ u. bit_length 256 (value u);
  to_big_endian = λ u. to_be_bytes 32 (value u);
  from_big_endian = from_up_to_32;
  is_zero_lem = λ u h. refl;
  bit_not_lem = λ u h. refl;
  add_lem = λ u v h k. refl;
  div_lem = λ u v h k p. if_divisor u v (from_value (value u / value v)) p;
  rem_lem = λ u v h k p. if_divisor u v (from_value (value u % value v)) p;
  cmp_lem = λ u v h k. refl;
  bits_lem = toy_bits;
  to_big_endian_lem = λ u h. refl;
  from_big_endian_lem = from_up_to_32_lem;
}

-- -7 and 2
abbrev minus_seven : U256
minus_seven = from_int (negsuc 6)

abbrev two : U256
two = from_u64 2

minus_seven-IsU256 : IsU256 minus_seven
unfolding from_value low_bits
minus_seven-IsU256 = omega arith

-- -7 / 2 is -3
i256_div_lem_example :
    i256_div minus_seven two ≡ some (from_int (int_div (signed minus_seven) (signed two)))
i256_div_lem_example = i256_div_lem minus_seven two minus_seven-IsU256 (omega arith)

quotient_of_minus_seven : int_div (signed minus_seven) (signed two) ≡ negsuc 2
unfolding int_div signed value from_value low_bits
quotient_of_minus_seven = refl

-- the remainder of -7 by 2 is -1
i256_mod_lem_example :
    i256_mod minus_seven two ≡ some (from_int (int_mod (signed minus_seven) (signed two)))
i256_mod_lem_example = i256_mod_lem minus_seven two minus_seven-IsU256 (omega arith)

remainder_of_minus_seven : int_mod (signed minus_seven) (signed two) ≡ negsuc 0
unfolding int_mod signed value from_value low_bits
remainder_of_minus_seven = refl

i256_cmp_lem_example : i256_cmp minus_seven two ≡ int_cmp (signed minus_seven) (signed two)
i256_cmp_lem_example = i256_cmp_lem minus_seven two minus_seven-IsU256 (omega arith)

-- the least integer over -1 wraps around to itself
least_over_minus_one : i256_div i128_min (from_int (negsuc 0)) ≡ some i128_min
unfolding i256_div i256_neg i256_is_negative value from_value low_bits
least_over_minus_one = refl

toy_bigint_lem :
    (z : ℤ)
    → int_abs z < 2 ^ 256
    → (length (to_be_bytes 32 (int_abs z)) ≤ 32)
      × (from_be_bytes (to_be_bytes 32 (int_abs z)) ≡ int_abs z)
toy_bigint_lem z h = (
  omega (arith, length-to_be_bytes 32 (int_abs z)),
  from_be_bytes-to_be_bytes 32 (int_abs z) (omega arith),
)

abbrev sign_of : ℤ → Sign
sign_of (pos zero) = Sign.no_sign
sign_of (pos (suc n)) = Sign.plus
sign_of (negsuc n) = Sign.minus

abbrev signed_number : Sign → ℕ → ℤ
signed_number Sign.minus zero = pos 0
signed_number Sign.minus (suc n) = negsuc n
signed_number Sign.no_sign n = pos 0
signed_number Sign.plus n = pos n

abbrev toy_bigint : BigIntCrate
toy_bigint = record {
  to_bytes_be = λ z. (sign_of z, to_be_bytes 32 (int_abs z));
  from_bytes_be = λ s bs. signed_number s (from_be_bytes bs);
  to_bytes_be_lem = toy_bigint_lem;
  from_bytes_be_lem = λ bs. refl;
}

from_amount-to_amount_example :
    (to_amount toy_bigint two ≡ pos (value two))
    × (from_amount toy_bigint (to_amount toy_bigint two) ≡ some two)
from_amount-to_amount_example = from_amount-to_amount toy_bigint two (omega arith)

raw_lem :
    (visit : List ℕ → Option (Result U256 String)) (bs w : List ℕ)
    → ◌≡◌ {A = Result (List ℕ) String} (ok bs) (ok w)
    → visit w ≡ visit bs
raw_lem visit bs w e = cc e

-- a format that writes bytes as they are
abbrev raw : Format (List ℕ) String
raw = record {
  serialize_bytes = ok;
  deserialize_bytes = λ visit w. visit w;
  invalid_length = λ n expected. expected;
  deserialize-serialize_bytes = raw_lem;
}

two_bytes : serialize raw two ≡ ok (2 ∷ [])
unfolding serialize zeroless_view leading_zeros to_be_bytes value
two_bytes = refl

deserialize-serialize_example : deserialize raw (2 ∷ []) ≡ some (ok two)
deserialize-serialize_example = deserialize-serialize raw two (2 ∷ []) (omega arith) two_bytes

-- The tests of primitives/src/uints.rs pass over this `construct_uint!` and this format.
self_tests_hold :
    (div_i256 ≡ true)
    × (mod_i256 ≡ true)
    × (negative_i256 ≡ true)
    × (u256_serde raw ok ≡ true)
    × (u256_empty raw ok ≡ true)
    × (u256_overflow raw ok ≡ true)
unfolding div_i256 mod_i256 negative_i256 u256_serde u256_empty u256_overflow i256_div i256_mod
    i256_neg i256_is_negative value from_value eq_u64 same_list serialize deserialize visit_bytes
    zeroless_view leading_zeros to_be_bytes from_be_acc bit_length
self_tests_hold = (refl, refl, refl, refl, refl, refl)
