-- ===== src/Uints/Encoding.antt =====
-- primitives/src/uints.rs: words in serde's formats and as token amounts. The format and
-- `num_bigint`, whose integers are the amounts in atto, are parameters.
use fvm_utils.Base.{
  ℕ, suc, ◌^◌, ◌<◌, ◌≤◌, ◌≡◌, Option, some, none, List, [], ◌∷◌, String, Result, ok, err, ltb,
  nat_eq, if◌then◌else◌, length, drop, ℤ, pos, negsuc,
}
use fvm_utils.Bytes.{from_be_bytes}
use fvm_utils.Uints.{U256, UintCrate}

pub data Sign : Type 0 where
  minus : Sign
  no_sign : Sign
  plus : Sign

abbrev pub int_abs : ℤ → ℕ
int_abs (pos n) = n
int_abs (negsuc n) = suc n

-- What the source uses of `BigInt`.
pub record BigIntCrate : Type 0 where
  pub to_bytes_be : ℤ → Sign × List ℕ
  pub from_bytes_be : Sign → List ℕ → ℤ
  pub to_bytes_be_lem :
      (z : ℤ)
      → int_abs z < 2 ^ 256
      → (length ((to_bytes_be z).1) ≤ 32) × (from_be_bytes ((to_bytes_be z).1) ≡ int_abs z)
  pub from_bytes_be_lem : (bs : List ℕ) → from_bytes_be Sign.plus bs ≡ pos (from_be_bytes bs)

-- serde: what was written as bytes is shown to the visitor as these bytes. A visitor that panics
-- returns `none`.
pub record Format (Wire Error : Type 0) : Type 0 where
  pub serialize_bytes : List ℕ → Result Wire Error
  pub deserialize_bytes : (List ℕ → Option (Result U256 Error)) → Wire → Option (Result U256 Error)
  pub invalid_length : ℕ → String → Error
  pub deserialize-serialize_bytes :
      (visit : List ℕ → Option (Result U256 Error)) (bs : List ℕ) (w : Wire)
      → serialize_bytes bs ≡ ok w
      → deserialize_bytes visit w ≡ visit bs

-- `take_while(|&&b| b == 0).count()`
unfoldable pub leading_zeros : List ℕ → ℕ
leading_zeros [] = 0
leading_zeros (b ∷ bs) = let rest = leading_zeros bs in if nat_eq b 0 then suc rest else 0

unfoldable pub zeroless_view : List ℕ → List ℕ
zeroless_view v = drop (leading_zeros v) v

module _ ⦃uint : UintCrate⦄ where
  -- `From<&TokenAmount> for U256`
  unfoldable pub from_amount : BigIntCrate → ℤ → Option U256
  from_amount bigint amount = uint.from_big_endian ((bigint.to_bytes_be amount).1)

  -- `From<&U256> for TokenAmount`
  unfoldable pub to_amount : BigIntCrate → U256 → ℤ
  to_amount bigint u = bigint.from_bytes_be Sign.plus (uint.to_big_endian u)

  unfoldable pub serialize : {Wire Error : Type 0} → Format Wire Error → U256 → Result Wire Error
  serialize format u = format.serialize_bytes (zeroless_view (uint.to_big_endian u))

  unfoldable pub visit_bytes :
      {Wire Error : Type 0} → Format Wire Error → List ℕ → Option (Result U256 Error)
  visit_bytes format v =
      if ltb 32 (length v)
      then some (err (format.invalid_length (length v) "at most 32 bytes"))
      else elim (uint.from_big_endian v) [ none ↦ none | some u ↦ some (ok u) ]

  unfoldable pub deserialize :
      {Wire Error : Type 0} → Format Wire Error → Wire → Option (Result U256 Error)
  deserialize format w = format.deserialize_bytes (visit_bytes format) w
