-- ===== src/Uints/Division.antt =====
-- Words as signed integers in two's complement: `i256_div` and `i256_mod`.
use native.Mathlib.Nat.{div-le_self, mod-le}
use fvm_utils.Base.{
  ℕ, zero, suc, ◌-◌, ◌/◌, ◌%◌, ◌^◌, ◌<◌, ◌≤◌, ◌≡◌, refl, sym, ap, ◌∙◌, Bool, true, false, some,
  arith, ℤ, pos, negsuc, if◌then◌else◌, ◌&&◌, ◌||◌, not, Bool-cases, inl, inr, ◌⊎◌, ◌↔◌,
}
use fvm_utils.Uints.{
  U256, IsU256, value, from_value, UintCrate, i256_neg, i256_div, i256_mod, u256_zero, below_zero,
  same_bool,
}
use fvm_utils.Uints.Encoding.{int_abs}
use fvm_utils.Uints.Limbs.{value_lt, from_value-IsU256, value-from_value}
use fvm_utils.Uints.Signed.{
  signed, low_bits, from_int, minus, negative_lem, abs_bound, neg_value, stripped_lem,
}

-- division rounded towards zero, 0 where the divisor is
unfoldable pub int_div : ℤ → ℤ → ℤ
int_div (pos a) (pos zero) = pos 0
int_div (negsuc a) (pos zero) = pos 0
int_div (pos a) (pos (suc b)) = pos (a / suc b)
int_div (negsuc a) (pos (suc b)) = minus (suc a / suc b)
int_div (pos a) (negsuc b) = minus (a / suc b)
int_div (negsuc a) (negsuc b) = pos (suc a / suc b)

-- the remainder of that division, 0 where the divisor is, with the dividend's sign
unfoldable pub int_mod : ℤ → ℤ → ℤ
int_mod (pos a) (pos zero) = pos 0
int_mod (negsuc a) (pos zero) = pos 0
int_mod (pos a) (pos (suc b)) = pos (a % suc b)
int_mod (negsuc a) (pos (suc b)) = minus (suc a % suc b)
int_mod (pos a) (negsuc b) = pos (a % suc b)
int_mod (negsuc a) (negsuc b) = minus (suc a % suc b)

-- the number `q` with a sign
abbrev with_sign : Bool → ℕ → ℕ
with_sign negative q = if negative then (2 ^ 256 - q) % 2 ^ 256 else q

low_bits-int_div :
    (z y : ℤ)
    → 0 < int_abs y
    → int_abs z ≤ 2 ^ 255
    → low_bits (int_div z y)
      ≡ with_sign (not (same_bool (below_zero z) (below_zero y))) (int_abs z / int_abs y)
unfolding low_bits int_div
low_bits-int_div (pos a) (pos zero) h k = absurd (omega arith)
low_bits-int_div (negsuc a) (pos zero) h k = absurd (omega arith)
low_bits-int_div (pos a) (pos (suc b)) h k = omega (arith, div-le_self a (suc b))
low_bits-int_div (negsuc a) (pos (suc b)) h k = ground (arith, div-le_self (suc a) (suc b))
low_bits-int_div (pos a) (negsuc b) h k = ground (arith, div-le_self a (suc b))
low_bits-int_div (negsuc a) (negsuc b) h k = omega (arith, div-le_self (suc a) (suc b))

low_bits-int_mod :
    (z y : ℤ)
    → 0 < int_abs y
    → int_abs z ≤ 2 ^ 255
    → low_bits (int_mod z y) ≡ with_sign (below_zero z) (int_abs z % int_abs y)
unfolding low_bits int_mod
low_bits-int_mod (pos a) (pos zero) h k = absurd (omega arith)
low_bits-int_mod (negsuc a) (pos zero) h k = absurd (omega arith)
low_bits-int_mod (pos a) (pos (suc b)) h k = omega (arith, mod-le a (suc b))
low_bits-int_mod (negsuc a) (pos (suc b)) h k = ground (arith, mod-le (suc a) (suc b))
low_bits-int_mod (pos a) (negsuc b) h k = omega (arith, mod-le a (suc b))
low_bits-int_mod (negsuc a) (negsuc b) h k = ground (arith, mod-le (suc a) (suc b))

int_div_zero : (z y : ℤ) → (int_abs z ≡ 0) ⊎ (int_abs y ≡ 0) → int_div z y ≡ pos 0
unfolding int_div
int_div_zero (pos a) (pos zero) h = refl
int_div_zero (negsuc a) (pos zero) h = refl
int_div_zero (pos a) (pos (suc b)) h = ground (arith, div-le_self a (suc b))
int_div_zero (negsuc a) (pos (suc b)) h = ground arith
int_div_zero (pos a) (negsuc b) h = ground (arith, div-le_self a (suc b))
int_div_zero (negsuc a) (negsuc b) h = ground arith

int_mod_zero : (z y : ℤ) → (int_abs z ≡ 0) ⊎ (int_abs y ≡ 0) → int_mod z y ≡ pos 0
unfolding int_mod
int_mod_zero (pos a) (pos zero) h = refl
int_mod_zero (negsuc a) (pos zero) h = refl
int_mod_zero (pos a) (pos (suc b)) h = ground (arith, mod-le a (suc b))
int_mod_zero (negsuc a) (pos (suc b)) h = ground arith
int_mod_zero (pos a) (negsuc b) h = ground (arith, mod-le a (suc b))
int_mod_zero (negsuc a) (negsuc b) h = ground arith

abs_zero : (u : U256) → IsU256 u → (int_abs (signed u) ≡ 0) ↔ (value u ≡ 0)
unfolding signed
abs_zero u h = ground (arith, value_lt u h)

quotient_bound : (u v : U256) → IsU256 u → int_abs (signed u) / int_abs (signed v) < 2 ^ 256
quotient_bound u v h =
    omega (arith, abs_bound u h, div-le_self (int_abs (signed u)) (int_abs (signed v)))

remainder_bound : (u v : U256) → IsU256 u → int_abs (signed u) % int_abs (signed v) < 2 ^ 256
remainder_bound u v h =
    omega (arith, abs_bound u h, mod-le (int_abs (signed u)) (int_abs (signed v)))

zero_word : u256_zero ≡ from_int (pos 0)
unfolding from_value low_bits
zero_word = refl

module _ ⦃uint : UintCrate⦄ where
  div_sign :
      (s : Bool) (q : ℕ)
      → q < 2 ^ 256
      → (if uint.is_zero (from_value q) || s then some (from_value q) else i256_neg (from_value q))
        ≡ some (from_value (with_sign (not s) q))
  div_sign s q h =
      let w = from_value-IsU256 q in
      ground
        (arith, neg_value (from_value q) w, uint.is_zero_lem (from_value q) w, value-from_value q h)

  mod_sign :
      (s : Bool) (q : ℕ)
      → q < 2 ^ 256
      → (if s && not (uint.is_zero (from_value q))
          then i256_neg (from_value q)
          else some (from_value q))
        ≡ some (from_value (with_sign s q))
  mod_sign s q h =
      let w = from_value-IsU256 q in
      ground
        (arith, neg_value (from_value q) w, uint.is_zero_lem (from_value q) w, value-from_value q h)

  some_zero :
      (u v : U256)
      → IsU256 u
      → IsU256 v
      → (uint.is_zero u || uint.is_zero v) ≡ true
      → (int_abs (signed u) ≡ 0) ⊎ (int_abs (signed v) ≡ 0)
  some_zero u v h k e =
      ground (arith, uint.is_zero_lem u h, uint.is_zero_lem v k, abs_zero u h, abs_zero v k)

  no_zero :
      (u v : U256)
      → IsU256 u
      → IsU256 v
      → (uint.is_zero u || uint.is_zero v) ≡ false
      → 0 < int_abs (signed v)
  no_zero u v h k e =
      ground (arith, uint.is_zero_lem u h, uint.is_zero_lem v k, abs_zero u h, abs_zero v k)

  div_abs :
      (u v : U256)
      → IsU256 u
      → IsU256 v
      → 0 < int_abs (signed v)
      → uint.div (from_value (int_abs (signed u))) (from_value (int_abs (signed v)))
        ≡ some (from_value (int_abs (signed u) / int_abs (signed v)))
  div_abs u v h k p =
      let a = int_abs (signed u) in
      let b = int_abs (signed v) in
      let ea : value (from_value a) ≡ a = value-from_value a (omega (arith, abs_bound u h)) in
      let eb : value (from_value b) ≡ b = value-from_value b (omega (arith, abs_bound v k)) in
      uint.div_lem (from_value a) (from_value b) (from_value-IsU256 a) (from_value-IsU256 b)
        (omega arith)
      ∙ rw (ea, eb) refl

  -- On words of four `u64` limbs signed division never panics and gives the low 256 bits of the quotient
  -- of the signed integers, which is rounded towards zero, and 0 where the divisor is 0.
  pub i256_div_lem :
      (u v : U256)
      → IsU256 u
      → IsU256 v
      → i256_div u v ≡ some (from_int (int_div (signed u) (signed v)))
  unfolding i256_div
  i256_div_lem u v h k = elim (Bool-cases (uint.is_zero u || uint.is_zero v)) [
    | inl e ↦ rw (e, int_div_zero (signed u) (signed v) (some_zero u v h k e)) (ap some zero_word)
    | inr e ↦
        let p = no_zero u v h k e in
        let q = int_abs (signed u) / int_abs (signed v) in
        rw
          (
            e,
            stripped_lem u h,
            stripped_lem v k,
            div_abs u v h k p,
            negative_lem u h,
            negative_lem v k,
          )
          (div_sign (same_bool (below_zero (signed u)) (below_zero (signed v))) q
              (quotient_bound u v h)
            ∙ ap (λ n. some (from_value n))
                (sym (low_bits-int_div (signed u) (signed v) p (abs_bound u h))))
  ]

  rem_abs :
      (u v : U256)
      → IsU256 u
      → IsU256 v
      → 0 < int_abs (signed v)
      → uint.rem (from_value (int_abs (signed u))) (from_value (int_abs (signed v)))
        ≡ some (from_value (int_abs (signed u) % int_abs (signed v)))
  rem_abs u v h k p =
      let a = int_abs (signed u) in
      let b = int_abs (signed v) in
      let ea : value (from_value a) ≡ a = value-from_value a (omega (arith, abs_bound u h)) in
      let eb : value (from_value b) ≡ b = value-from_value b (omega (arith, abs_bound v k)) in
      uint.rem_lem (from_value a) (from_value b) (from_value-IsU256 a) (from_value-IsU256 b)
        (omega arith)
      ∙ rw (ea, eb) refl

  -- On words of four `u64` limbs the signed remainder never panics and gives the low 256 bits of the
  -- remainder of the division rounded towards zero, with the sign of the dividend, and 0 where the
  -- divisor is 0.
  pub i256_mod_lem :
      (u v : U256)
      → IsU256 u
      → IsU256 v
      → i256_mod u v ≡ some (from_int (int_mod (signed u) (signed v)))
  unfolding i256_mod
  i256_mod_lem u v h k = elim (Bool-cases (uint.is_zero u || uint.is_zero v)) [
    | inl e ↦ rw (e, int_mod_zero (signed u) (signed v) (some_zero u v h k e)) (ap some zero_word)
    | inr e ↦
        let p = no_zero u v h k e in
        let q = int_abs (signed u) % int_abs (signed v) in
        rw (e, stripped_lem u h, stripped_lem v k, rem_abs u v h k p, negative_lem u h)
          (mod_sign (below_zero (signed u)) q (remainder_bound u v h)
            ∙ ap (λ n. some (from_value n))
                (sym (low_bits-int_mod (signed u) (signed v) p (abs_bound u h))))
  ]
