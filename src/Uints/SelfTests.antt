-- ===== src/Uints/SelfTests.antt =====
-- primitives/src/uints.rs: the tests of the file; `false` is an assertion that does not hold, or a panic.
-- `U256::from(2).pow(255.into()) - 1` is written as the number that it is.
use fvm_utils.Base.{
  ℕ, ◌-◌, ◌+◌, ◌^◌, ◌/◌, Bool, true, false, ◌&&◌, all, Option, none, some, List, [], ◌∷◌, Result,
  ok, err, nat_eq, same_list, replicate,
}
use fvm_utils.Uints.{
  U256, UintCrate, from_value, from_u64, u256_zero, u256_one, i128_min, i256_neg, i256_div,
  i256_mod, i256_is_negative, eq_u64,
}
use fvm_utils.Uints.Encoding.{Format, serialize, deserialize}

-- `assert_eq!` on words
abbrev same_word : U256 → U256 → Bool
same_word u v = nat_eq u.w0 v.w0 && (nat_eq u.w1 v.w1 && (nat_eq u.w2 v.w2 && nat_eq u.w3 v.w3))

-- what is asserted of the result of an operation
abbrev then_check : Option U256 → (U256 → Bool) → Bool
then_check none f = false
then_check (some u) f = f u

abbrev gives : Option U256 → U256 → Bool
gives r w = then_check r (same_word w)

abbrev every : List Bool → Bool
every bs = all (λ b. b) bs

-- `U256::from(2).pow(255.into()) - 1`
abbrev max_value : U256
max_value = from_value (2 ^ 255 - 1)

module _ ⦃uint : UintCrate⦄ where
  -- the negative numbers of the test are these words, without `i256_neg`
  unfoldable pub div_i256 : Bool
  unfolding i256_div i256_neg i256_is_negative
  div_i256 =
      let zero = u256_zero in
      let one = u256_one in
      let one_hundred = from_u64 100 in
      let fifty = from_u64 50 in
      let two = from_u64 2 in
      let neg_one_hundred = from_u64 100 in
      let minus_one = from_u64 1 in
      let neg_max_value = max_value in
      every (
        gives (i256_div i128_min minus_one) i128_min
        ∷ gives (i256_div i128_min one) i128_min
        ∷ gives (i256_div i128_min two)
            (record { w0 = 0; w1 = 0; w2 = 0; w3 = 2 ^ 63 + 2 ^ 63 / 2 })
        ∷ gives (i256_div one i128_min) zero
        ∷ gives (i256_div max_value one) max_value
        ∷ gives (i256_div max_value minus_one) neg_max_value
        ∷ gives (i256_div one_hundred minus_one) neg_one_hundred
        ∷ gives (i256_div one_hundred two) fifty
        ∷ gives (i256_div zero zero) zero
        ∷ gives (i256_div one zero) zero
        ∷ gives (i256_div zero one) zero
        ∷ [])

  -- `i128::MAX` is 2 ^ 127 - 1
  unfoldable pub mod_i256 : Bool
  unfolding i256_mod i256_neg i256_is_negative eq_u64
  mod_i256 =
      let zero = u256_zero in
      let one = u256_one in
      let one_hundred = from_u64 100 in
      let two = from_u64 2 in
      let three = from_u64 3 in
      then_check (i256_neg (from_u64 100)) λ neg_one_hundred.
        then_check (i256_neg (from_u64 1)) λ minus_one.
          then_check (i256_neg (from_u64 3)) λ neg_three. then_check (i256_neg (from_u64 95)) λ a.
            every (
              gives (i256_mod minus_one zero) zero
              ∷ gives (i256_mod max_value zero) zero
              ∷ gives (i256_mod zero zero) zero
              ∷ gives (i256_mod minus_one two) minus_one
              ∷ then_check (i256_mod i128_min one) (λ r. eq_u64 r 0)
              ∷ gives (i256_mod one i128_min) one
              ∷ gives (i256_mod one (from_value (2 ^ 127 - 1))) one
              ∷ gives (i256_mod max_value minus_one) zero
              ∷ gives (i256_mod neg_one_hundred minus_one) zero
              ∷ gives (i256_mod one_hundred two) zero
              ∷ gives (i256_mod one_hundred neg_three) one
              ∷ gives (i256_mod neg_one_hundred three) minus_one
              ∷ gives (uint.rem a (from_u64 256)) (from_u64 161)
              ∷ [])

  unfoldable pub negative_i256 : Bool
  unfolding i256_neg i256_is_negative
  negative_i256 = every (
      gives (i256_neg u256_zero) u256_zero
      ∷ then_check (i256_neg u256_one) i256_is_negative
      ∷ then_check (uint.from_big_endian (replicate 32 255))
          (λ neg_one. gives (i256_neg neg_one) u256_one)
      ∷ [])

  -- `BytesDe` reads the bytes that were written, which `read_bytes` is
  module _ {Wire Error : Type 0} (format : Format Wire Error)
      (read_bytes : Wire → Result (List ℕ) Error) where
    -- the bytes of what was written
    abbrev reads : Result Wire Error → List ℕ → Bool
    reads (err e) expected = false
    reads (ok w) expected = elim (read_bytes w) [
      | err e ↦ false
      | ok bytes ↦ same_list nat_eq bytes expected
    ]

    -- the word that is read of what was written
    abbrev decodes : Result Wire Error → ℕ → Bool
    decodes (err e) n = false
    decodes (ok w) n = elim (deserialize format w) [
      | none ↦ false
      | some (err e) ↦ false
      | some (ok u) ↦ eq_u64 u n
    ]

    -- `expect_err`
    abbrev fails : Result Wire Error → Bool
    fails (err e) = false
    fails (ok w) = elim (deserialize format w) [
      | none ↦ false
      | some (err e) ↦ true
      | some (ok u) ↦ false
    ]

    unfoldable pub u256_serde : Bool
    unfolding serialize deserialize eq_u64
    u256_serde =
        let encoded = serialize format (from_u64 1234) in
        reads encoded (4 ∷ 210 ∷ []) && decodes encoded 1234

    unfoldable pub u256_empty : Bool
    unfolding serialize
    u256_empty = reads (serialize format (from_u64 0)) []

    unfoldable pub u256_overflow : Bool
    unfolding deserialize
    u256_overflow = fails (format.serialize_bytes (replicate 33 1))
