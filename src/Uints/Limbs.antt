-- ===== src/Uints/Limbs.antt =====
-- Words and the numbers that they are.
use Prim.Native.Nat.{compare, min}
use fvm_utils.Base.{ℕ, ◌+◌, ◌-◌, ◌*◌, ◌^◌, ◌<◌, ◌≡◌, refl, sym, ap, ◌∙◌, some, leb, nat_eq, arith}
use fvm_utils.Uints.{
  U256, IsU256, value, from_value, from_u128_words, partial_cmp_u64, eq_u64, low_u256, u512_from,
  i256_is_negative, UintCrate, to_u64_saturating,
}

pub value_lt : (u : U256) → IsU256 u → value u < 2 ^ 256
unfolding value
value_lt u h = omega arith

pub from_value-IsU256 : (n : ℕ) → IsU256 (from_value n)
unfolding from_value
from_value-IsU256 n = (omega arith, omega arith, omega arith, omega arith)

pub value-from_value : (n : ℕ) → n < 2 ^ 256 → value (from_value n) ≡ n
unfolding value from_value
value-from_value n h = omega arith

same_limbs : (u v : U256) → u.w0 ≡ v.w0 → u.w1 ≡ v.w1 → u.w2 ≡ v.w2 → u.w3 ≡ v.w3 → u ≡ v
same_limbs u v a b c d = λ i. record { w0 = a i; w1 = b i; w2 = c i; w3 = d i }

pub from_value-value : (u : U256) → IsU256 u → from_value (value u) ≡ u
unfolding value from_value
from_value-value u h =
    same_limbs (from_value (value u)) u (omega arith) (omega arith) (omega arith) (omega arith)

-- Words that are the same number are the same.
pub value_inj : (u v : U256) → IsU256 u → IsU256 v → value u ≡ value v → u ≡ v
value_inj u v h k e = sym (from_value-value u h) ∙ ap from_value e ∙ from_value-value v k

pub i256_is_negative_lem : (u : U256) → IsU256 u → i256_is_negative u ≡ leb (2 ^ 255) (value u)
unfolding i256_is_negative value
i256_is_negative_lem u h = ground arith

-- A word and a `u64` compare as the numbers that they are, and are equal exactly where these are.
pub partial_cmp_u64_lem :
    (u : U256) (n : ℕ)
    → IsU256 u
    → n < 2 ^ 64
    → (partial_cmp_u64 u n ≡ some (compare (value u) n)) × (eq_u64 u n ≡ nat_eq (value u) n)
unfolding partial_cmp_u64 eq_u64 value
partial_cmp_u64_lem u n h k = (ground arith, ground arith)

-- The two halves of a word are its high and its low 128 bits.
pub from_u128_words-value :
    (high low : ℕ)
    → high < 2 ^ 128
    → low < 2 ^ 128
    → IsU256 (from_u128_words high low) × (value (from_u128_words high low) ≡ high * 2 ^ 128 + low)
unfolding from_u128_words value
from_u128_words-value high low h k =
    ((omega arith, omega arith, omega arith, omega arith), omega arith)

-- Widening a word to 512 bits and taking the low half gives it back.
pub low_u256-u512_from : (u : U256) → low_u256 (u512_from u) ≡ u
unfolding low_u256 u512_from
low_u256-u512_from u = refl

low_word : (u : U256) → IsU256 u → value u < 2 ^ 64 → u.w0 ≡ value u
unfolding value
low_word u h k = omega arith

-- Saturating to 64 bits gives the number where it fits, and the greatest `u64` elsewhere.
pub to_u64_saturating_lem :
    ⦃uint : UintCrate⦄ (u : U256) → IsU256 u → to_u64_saturating u ≡ min (value u) (2 ^ 64 - 1)
unfolding to_u64_saturating
to_u64_saturating_lem ⦃uint⦄ u h = ground (arith, uint.bits_lem u 64 h, low_word u h)
