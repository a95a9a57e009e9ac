-- ===== src/Mock/Checking.antt =====
-- runtime/src/test_utils.rs: what a test checks of the result of a call. `false` is a panic.
use fvm_utils.Base.{
  ℕ, ◌≡◌, ◌↔◌, refl, Bool, true, false, ◌&&◌, Option, none, some, String, Result, ok, err, nat_eq,
  nat_eq_iff, arith,
}
use fvm_utils.Platform.{IpldBlock}
use fvm_utils.ActorError.{ActorError}

unfoldable pub expect_empty : Option IpldBlock → Bool
expect_empty none = true
expect_empty (some b) = false

-- `contains` is that of `str`
module _ {T : Type 0} (contains : String → String → Bool) where
  unfoldable pub expect_abort_contains_message : ℕ → String → Result T ActorError → Bool
  expect_abort_contains_message code m (ok v) = false
  expect_abort_contains_message code m (err e) = nat_eq e.exit_code code && contains e.msg m

  unfoldable pub expect_abort : ℕ → Result T ActorError → Bool
  unfolding expect_abort_contains_message
  expect_abort code res = expect_abort_contains_message code "" res

  -- Every text contains the empty one; so `expect_abort` passes exactly the errors with the code.
  pub expect_abort_iff :
      ((s : String) → contains s "" ≡ true)
      → (code : ℕ) (res : Result T ActorError)
      → (expect_abort code res ≡ true) ↔ ((e : ActorError) × (res ≡ err e) × (e.exit_code ≡ code))
  unfolding expect_abort
  expect_abort_iff empty code (ok v) =
      (λ h. absurd (ground arith), λ h. absurd (ground (arith, h.1)))
  expect_abort_iff empty code (err e) = (
    λ h. (e, refl, (nat_eq_iff e.exit_code code).0 (ground arith)),
    λ h. ground (arith, empty e.msg, h.1, h.2),
  )
