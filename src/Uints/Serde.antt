-- ===== src/Uints/Serde.antt =====
-- Words in serde's formats and as token amounts: what they are read back as.
use fvm_utils.Base.{
  ℕ, zero, suc, ◌^◌, ◌<◌, ◌≤◌, ◌≡◌, refl, ap, ◌∙◌, some, List, [], ◌∷◌, ok, err, ltb, if◌then◌else◌,
  length, ℤ, pos, arith, length-drop,
}
use fvm_utils.Bytes.{
  from_be_bytes, from_be_acc, to_be_bytes, from_be_bytes-to_be_bytes, length-to_be_bytes,
}
use fvm_utils.Uints.{U256, UintCrate, IsU256, value, from_value}
use fvm_utils.Uints.Limbs.{value_lt, from_value-value}
use fvm_utils.Uints.Encoding.{
  int_abs, BigIntCrate, Format, leading_zeros, zeroless_view, from_amount, to_amount, serialize,
  visit_bytes, deserialize,
}

-- no byte, or a first byte that is not zero
abbrev pub IsStripped : List ℕ → Type 0
IsStripped [] = Unit
IsStripped (b ∷ bs) = 0 < b

leading_zeros-suc : (b : ℕ) (bs : List ℕ) → leading_zeros (suc b ∷ bs) ≡ 0
unfolding leading_zeros
leading_zeros-suc b bs = ground arith

-- Leading zeros are not counted in the number, and none is left.
zeroless_view_lem :
    (bs : List ℕ)
    → IsStripped (zeroless_view bs) × (from_be_bytes (zeroless_view bs) ≡ from_be_bytes bs)
unfolding zeroless_view leading_zeros from_be_acc
zeroless_view_lem [] = (tt, refl)
zeroless_view_lem (zero ∷ bs) = zeroless_view_lem bs
zeroless_view_lem (suc b ∷ bs) = rw (leading_zeros-suc b bs) (omega arith, refl)

length-zeroless_view : (bs : List ℕ) → length (zeroless_view bs) ≤ length bs
unfolding zeroless_view
length-zeroless_view bs = omega (arith, length-drop (leading_zeros bs) bs)

module _ ⦃uint : UintCrate⦄ where
  -- Bytes are accepted exactly up to 32 of them, as the number that they are, and the visitor never
  -- panics.
  pub visit_bytes_lem :
      {Wire Error : Type 0} (format : Format Wire Error) (bs : List ℕ)
      → visit_bytes format bs ≡ (
          if ltb 32 (length bs)
          then some (err (format.invalid_length (length bs) "at most 32 bytes"))
          else some (ok (from_value (from_be_bytes bs))))
  unfolding visit_bytes
  visit_bytes_lem format bs = ground (arith, uint.from_big_endian_lem bs)

  zeroless_view-IsStripped :
      (u : U256)
      → IsU256 u
      → IsStripped (zeroless_view (uint.to_big_endian u))
        × (length (zeroless_view (uint.to_big_endian u)) ≤ 32)
        × (from_be_bytes (zeroless_view (uint.to_big_endian u)) ≡ value u)
  zeroless_view-IsStripped u h =
      let bs = to_be_bytes 32 (value u) in
      rw (uint.to_big_endian_lem u h) (
        (zeroless_view_lem bs).0,
        omega (arith, length-zeroless_view bs, length-to_be_bytes 32 (value u)),
        (zeroless_view_lem bs).1
            ∙ from_be_bytes-to_be_bytes 32 (value u) (omega (arith, value_lt u h)),
      )

  -- A word of four `u64` limbs that was serialized, without its leading zeros, is read back.
  pub deserialize-serialize :
      {Wire Error : Type 0} (format : Format Wire Error) (u : U256) (w : Wire)
      → IsU256 u
      → serialize format u ≡ ok w
      → deserialize format w ≡ some (ok u)
  unfolding serialize deserialize
  deserialize-serialize format u w h e =
      let bs = zeroless_view (uint.to_big_endian u) in
      let s = zeroless_view-IsStripped u h in
      format.deserialize-serialize_bytes (visit_bytes format) bs w e
      ∙ visit_bytes_lem format bs
      ∙ ground (arith, s, from_value-value u h)

  -- An amount below 2^256 becomes the word of its absolute value: the sign is lost.
  pub from_amount_lem :
      (bigint : BigIntCrate) (amount : ℤ)
      → int_abs amount < 2 ^ 256
      → from_amount bigint amount ≡ some (from_value (int_abs amount))
  unfolding from_amount
  from_amount_lem bigint amount h =
      let l = bigint.to_bytes_be_lem amount h in
      uint.from_big_endian_lem ((bigint.to_bytes_be amount).1) l.0
      ∙ ap (λ n. some (from_value n)) l.1

  to_amount_lem : (bigint : BigIntCrate) (u : U256) → IsU256 u → to_amount bigint u ≡ pos (value u)
  unfolding to_amount
  to_amount_lem bigint u h =
      bigint.from_bytes_be_lem (uint.to_big_endian u)
      ∙ rw (uint.to_big_endian_lem u h)
          (ap pos (from_be_bytes-to_be_bytes 32 (value u) (omega (arith, value_lt u h))))

  -- The amount of a word of four `u64` limbs is the number that it is, and becomes the same word again.
  pub from_amount-to_amount :
      (bigint : BigIntCrate) (u : U256)
      → IsU256 u
      → (to_amount bigint u ≡ pos (value u)) × (from_amount bigint (to_amount bigint u) ≡ some u)
  from_amount-to_amount bigint u h = (
    to_amount_lem bigint u h,
    rw (to_amount_lem bigint u h)
        (from_amount_lem bigint (pos (value u)) (value_lt u h) ∙ ap some (from_value-value u h)),
  )
