-- ===== src/Uints/Signed.antt =====
-- Words as signed integers in two's complement: `i256_neg` and `i256_cmp`.
use Prim.Native.Nat.{compare, Ordering}
use fvm_utils.Base.{
  ℕ, zero, suc, ◌-◌, ◌%◌, ◌^◌, ◌≤◌, ◌≡◌, ◌≢◌, refl, sym, ap, ◌∙◌, some, leb, arith, ℤ, pos, negsuc,
  if◌then◌else◌,
}
use fvm_utils.Uints.{
  U256, IsU256, value, from_value, i256_is_negative, UintCrate, i256_neg, i256_cmp, u256_zero,
  u256_one, stripped, below_zero,
}
use fvm_utils.Uints.Encoding.{int_abs}
use fvm_utils.Uints.Limbs.{
  value_lt, from_value-IsU256, value-from_value, from_value-value, i256_is_negative_lem,
}

-- the signed integer that a word is
unfoldable pub signed : U256 → ℤ
signed u = if leb (2 ^ 255) (value u) then negsuc (2 ^ 256 - 1 - value u) else pos (value u)

-- the low 256 bits of a signed integer
unfoldable pub low_bits : ℤ → ℕ
low_bits (pos n) = n % 2 ^ 256
low_bits (negsuc n) = 2 ^ 256 - 1 - n % 2 ^ 256

-- a signed integer as a word
abbrev pub from_int : ℤ → U256
from_int z = from_value (low_bits z)

abbrev pub minus : ℕ → ℤ
minus zero = pos 0
minus (suc n) = negsuc n

unfoldable pub int_neg : ℤ → ℤ
int_neg (pos n) = minus n
int_neg (negsuc n) = pos (suc n)

-- the order of the integers
unfoldable pub int_cmp : ℤ → ℤ → Ordering
int_cmp (pos a) (pos b) = compare a b
int_cmp (pos a) (negsuc b) = Ordering.gt
int_cmp (negsuc a) (pos b) = Ordering.lt
int_cmp (negsuc a) (negsuc b) = compare b a

low_bits-signed : (u : U256) → IsU256 u → low_bits (signed u) ≡ value u
unfolding low_bits signed
low_bits-signed u h = ground (arith, value_lt u h)

-- A word is the low bits of the integer that it is.
pub from_int-signed : (u : U256) → IsU256 u → from_int (signed u) ≡ u
from_int-signed u h = ap from_value (low_bits-signed u h) ∙ from_value-value u h

-- An integer in the range of a word's integers is the integer of its word.
pub signed-from_int : (z : ℤ) → int_abs z ≤ 2 ^ 255 → z ≢ pos (2 ^ 255) → signed (from_int z) ≡ z
unfolding signed low_bits
signed-from_int (pos n) h k =
    let e : n % 2 ^ 256 ≡ n = omega arith in rw (e, value-from_value n (omega arith)) (ground arith)
signed-from_int (negsuc n) h k =
    rw (value-from_value (2 ^ 256 - 1 - n % 2 ^ 256) (omega arith)) (ground arith)

pub negative_lem : (u : U256) → IsU256 u → i256_is_negative u ≡ below_zero (signed u)
unfolding signed
negative_lem u h = ground (arith, i256_is_negative_lem u h)

pub abs_bound : (u : U256) → IsU256 u → int_abs (signed u) ≤ 2 ^ 255
unfolding signed
abs_bound u h = ground (arith, value_lt u h)

low_bits-neg : (u : U256) → IsU256 u → low_bits (int_neg (signed u)) ≡ (2 ^ 256 - value u) % 2 ^ 256
unfolding signed low_bits int_neg
low_bits-neg u h = ground (arith, value_lt u h)

one_lem : value u256_one ≡ 1
unfolding value
one_lem = refl

zero_lem : (u : U256) → value u ≡ 0 → u256_zero ≡ from_value ((2 ^ 256 - value u) % 2 ^ 256)
unfolding from_value
zero_lem u e = rw e refl

module _ ⦃uint : UintCrate⦄ where
  pub neg_value :
      (u : U256) → IsU256 u → i256_neg u ≡ some (from_value ((2 ^ 256 - value u) % 2 ^ 256))
  unfolding i256_neg
  neg_value u h = ground (
    arith,
    uint.is_zero_lem u h,
    zero_lem u,
    uint.bit_not_lem u h,
    one_lem,
    value-from_value (2 ^ 256 - 1 - value u),
    value_lt u h,
    uint.add_lem (from_value (2 ^ 256 - 1 - value u)) u256_one
        (from_value-IsU256 (2 ^ 256 - 1 - value u))
        (omega arith, omega arith, omega arith, omega arith),
  )

  -- Negation gives the negated integer's low bits, and never panics.
  pub i256_neg_lem : (u : U256) → IsU256 u → i256_neg u ≡ some (from_int (int_neg (signed u)))
  i256_neg_lem u h = neg_value u h ∙ ap (λ n. some (from_value n)) (sym (low_bits-neg u h))

  -- On words of four `u64` limbs the signed comparison is that of the signed integers.
  pub i256_cmp_lem :
      (u v : U256) → IsU256 u → IsU256 v → i256_cmp u v ≡ int_cmp (signed u) (signed v)
  unfolding i256_cmp int_cmp signed
  i256_cmp_lem u v h k = ground (
    arith,
    uint.cmp_lem u v h k,
    i256_is_negative_lem u h,
    i256_is_negative_lem v k,
    value_lt u h,
    value_lt v k,
  )

  pub stripped_lem : (u : U256) → IsU256 u → stripped u ≡ some (from_value (int_abs (signed u)))
  unfolding signed
  stripped_lem u h =
      ground (arith, neg_value u h, i256_is_negative_lem u h, from_value-value u h, value_lt u h)
