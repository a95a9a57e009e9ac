-- ===== src/Uints.antt =====
-- primitives/src/uints.rs: 256-bit and 512-bit words. What `construct_uint!` generates is the crate
-- `uint`, a parameter: its operations on words are stated by the numbers that the words are.
pub mod Limbs
pub mod Signed
pub mod Division
pub mod Encoding
pub mod Serde
pub mod SelfTests
use Prim.Native.Nat.{compare, Ordering}
use fvm_utils.Base.{
  ℕ, ◌+◌, ◌-◌, ◌*◌, ◌/◌, ◌%◌, ◌^◌, ◌<◌, ◌≤◌, ◌≡◌, ◌↔◌, Bool, true, false, not, ◌&&◌, ◌||◌, Option,
  none, some, List, [], ◌∷◌, String, Result, ok, err, ltb, leb, nat_eq, if◌then◌else◌, length, drop,
  ℤ, pos, negsuc,
}
use fvm_utils.Bytes.{to_be_bytes, from_be_bytes}

-- the limbs of a word, the lowest first
pub record U256 : Type 0 where
  pub w0 : ℕ
  pub w1 : ℕ
  pub w2 : ℕ
  pub w3 : ℕ

pub record U512 : Type 0 where
  pub w0 : ℕ
  pub w1 : ℕ
  pub w2 : ℕ
  pub w3 : ℕ
  pub w4 : ℕ
  pub w5 : ℕ
  pub w6 : ℕ
  pub w7 : ℕ

-- every limb is a `u64`
abbrev pub IsU256 : U256 → Type 0
IsU256 u = (u.w0 < 2 ^ 64) × (u.w1 < 2 ^ 64) × (u.w2 < 2 ^ 64) × (u.w3 < 2 ^ 64)

-- the number that a word is
unfoldable pub value : U256 → ℕ
value u = u.w0 + u.w1 * 2 ^ 64 + u.w2 * 2 ^ 128 + u.w3 * 2 ^ 192

-- the low 256 bits of a number
unfoldable pub from_value : ℕ → U256
from_value n = record {
  w0 = n % 2 ^ 64;
  w1 = n / 2 ^ 64 % 2 ^ 64;
  w2 = n / 2 ^ 128 % 2 ^ 64;
  w3 = n / 2 ^ 192 % 2 ^ 64;
}

-- the result of an operation that panics where the number does not fit
abbrev pub fitting : ℕ → Option U256
fitting n = if ltb n (2 ^ 256) then some (from_value n) else none

-- What the source uses of `construct_uint!`. An operation that panics returns `none`.
pub record UintCrate : Type 0 where
  pub is_zero : U256 → Bool
  pub bit_not : U256 → U256
  pub add : U256 → U256 → Option U256
  pub div : U256 → U256 → Option U256
  pub rem : U256 → U256 → Option U256
  pub cmp : U256 → U256 → Ordering
  pub bits : U256 → ℕ
  pub to_big_endian : U256 → List ℕ
  pub from_big_endian : List ℕ → Option U256
  pub is_zero_lem : (u : U256) → IsU256 u → is_zero u ≡ nat_eq (value u) 0
  pub bit_not_lem : (u : U256) → IsU256 u → bit_not u ≡ from_value (2 ^ 256 - 1 - value u)
  pub add_lem : (u v : U256) → IsU256 u → IsU256 v → add u v ≡ fitting (value u + value v)
  pub div_lem :
      (u v : U256)
      → IsU256 u
      → IsU256 v
      → 0 < value v
      → div u v ≡ some (from_value (value u / value v))
  pub rem_lem :
      (u v : U256)
      → IsU256 u
      → IsU256 v
      → 0 < value v
      → rem u v ≡ some (from_value (value u % value v))
  pub cmp_lem : (u v : U256) → IsU256 u → IsU256 v → cmp u v ≡ compare (value u) (value v)
  pub bits_lem : (u : U256) (n : ℕ) → IsU256 u → (bits u ≤ n) ↔ (value u < 2 ^ n)
  pub to_big_endian_lem : (u : U256) → IsU256 u → to_big_endian u ≡ to_be_bytes 32 (value u)
  pub from_big_endian_lem :
      (bs : List ℕ) → length bs ≤ 32 → from_big_endian bs ≡ some (from_value (from_be_bytes bs))

-- `U256::from_u64`
abbrev pub from_u64 : ℕ → U256
from_u64 n = record { w0 = n; w1 = 0; w2 = 0; w3 = 0 }

-- `U256::ZERO`
abbrev pub u256_zero : U256
u256_zero = from_u64 0

-- `U256::ONE`
abbrev pub u256_one : U256
u256_one = from_u64 1

-- `U256::I128_MIN`: `i64::MIN as u64` is 2 ^ 63
abbrev pub i128_min : U256
i128_min = record { w0 = 0; w1 = 0; w2 = 0; w3 = 2 ^ 63 }

-- `as u64` drops what is above 64 bits
unfoldable pub from_u128_words : ℕ → ℕ → U256
from_u128_words high low = record {
  w0 = low % 2 ^ 64;
  w1 = low / 2 ^ 64 % 2 ^ 64;
  w2 = high % 2 ^ 64;
  w3 = high / 2 ^ 64 % 2 ^ 64;
}

-- `PartialOrd<u64> for U256`
unfoldable pub partial_cmp_u64 : U256 → ℕ → Option Ordering
partial_cmp_u64 u other =
    if ltb 0 u.w3 || (ltb 0 u.w2 || ltb 0 u.w1) then some Ordering.gt else some (compare u.w0 other)

-- `PartialEq<u64> for U256`
unfoldable pub eq_u64 : U256 → ℕ → Bool
eq_u64 u other = nat_eq u.w0 other && (nat_eq u.w1 0 && (nat_eq u.w2 0 && nat_eq u.w3 0))

-- `x as i64` for a `u64`
abbrev pub as_i64 : ℕ → ℤ
as_i64 n = if ltb n (2 ^ 63) then pos n else negsuc (2 ^ 64 - 1 - n)

abbrev pub below_zero : ℤ → Bool
below_zero (pos n) = false
below_zero (negsuc n) = true

unfoldable pub i256_is_negative : U256 → Bool
i256_is_negative u = below_zero (as_i64 u.w3)

-- `==` on `bool`
abbrev pub same_bool : Bool → Bool → Bool
same_bool true b = b
same_bool false b = not b

-- `false` is less than `true`
abbrev pub bool_cmp : Bool → Bool → Ordering
bool_cmp false false = Ordering.eq
bool_cmp false true = Ordering.lt
bool_cmp true false = Ordering.gt
bool_cmp true true = Ordering.eq

-- the `?` of a panic
abbrev pub then_with : Option U256 → (U256 → Option U256) → Option U256
then_with none f = none
then_with (some u) f = f u

module _ ⦃uint : UintCrate⦄ where
  open uint use {is_zero, bit_not, add, div, rem, cmp, bits, to_big_endian, from_big_endian}

  unfoldable pub i256_neg : U256 → Option U256
  i256_neg u = if is_zero u then some u256_zero else add (bit_not u) u256_one

  unfoldable pub i256_cmp : U256 → U256 → Ordering
  i256_cmp u other = elim (bool_cmp (i256_is_negative other) (i256_is_negative u)) [
    | Ordering.eq ↦ cmp u other
    | Ordering.lt ↦ Ordering.lt
    | Ordering.gt ↦ Ordering.gt
  ]

  -- a word with its sign stripped
  abbrev pub stripped : U256 → Option U256
  stripped u = if i256_is_negative u then i256_neg u else some u

  unfoldable pub i256_div : U256 → U256 → Option U256
  i256_div u other =
      if is_zero u || is_zero other
      then some u256_zero
      else then_with (stripped u) λ first. then_with (stripped other) λ second.
        then_with (div first second) λ d.
          if is_zero d || same_bool (i256_is_negative u) (i256_is_negative other)
          then some d
          else i256_neg d

  unfoldable pub i256_mod : U256 → U256 → Option U256
  i256_mod u other =
      if is_zero u || is_zero other
      then some u256_zero
      else then_with (stripped u) λ first. then_with (stripped other) λ second.
        then_with (rem first second)
          λ r. if i256_is_negative u && not (is_zero r) then i256_neg r else some r

  abbrev pub to_bytes : U256 → List ℕ
  to_bytes u = to_big_endian u

  unfoldable pub to_u64_saturating : U256 → ℕ
  to_u64_saturating u = if ltb 64 (bits u) then 2 ^ 64 - 1 else u.w0

-- `U512::low_u256`
unfoldable pub low_u256 : U512 → U256
low_u256 u = record { w0 = u.w0; w1 = u.w1; w2 = u.w2; w3 = u.w3 }

-- `From<U256> for U512`
unfoldable pub u512_from : U256 → U512
u512_from v = record { w0 = v.w0; w1 = v.w1; w2 = v.w2; w3 = v.w3; w4 = 0; w5 = 0; w6 = 0; w7 = 0 }
