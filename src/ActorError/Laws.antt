-- ===== src/ActorError/Laws.antt =====
-- Properties of the actor errors and of the traits that add context to them.
use fvm_utils.Base.{
  ℕ, ◌≡◌, refl, ap, ◌≤◌, false, Option, none, some, String, Result, ok, err, map_err, prefixed,
  prefixed-prefixed, arith,
}
use fvm_utils.Platform.{IpldBlock, ExitCodes}
use fvm_utils.ActorError.{ActorError, checked_code, checked, unchecked_with_data}
use fvm_utils.ActorError.Context
use fvm_utils.ActorError.OfResult
use fvm_utils.ActorError.Block.{deserialize_block}

module _ ⦃c : ExitCodes⦄ where
  checked_code-ge : (code : ℕ) → c.first_user_exit_code ≤ checked_code code
  unfolding checked_code
  checked_code-ge code =
      ground (arith, c.system_range code, c.unspecified_user, c.assertion_failed_user)

  checked_code-eq_of_le : (code : ℕ) → c.first_user_exit_code ≤ code → checked_code code ≡ code
  unfolding checked_code
  checked_code-eq_of_le code h = ground (
    arith,
    c.system_range code,
    c.missing_return_system,
    c.illegal_instruction_system,
    c.illegal_exit_code_system,
  )

  -- The exit code of an error made by `checked` is never in the range that is reserved for the
  -- system, whatever the code was, and checking it again changes nothing.
  pub checked_user :
      (code : ℕ) (m : String) (d : Option IpldBlock)
      → (c.is_system_error (checked code m d).exit_code ≡ false)
        × (checked (checked code m d).exit_code m d ≡ checked code m d)
  unfolding checked
  checked_user code m d = (
    (let h = checked_code-ge code in ground (arith, c.system_range (checked_code code))),
    rw (checked_code-eq_of_le (checked_code code) (checked_code-ge code)),
  )

  -- A code at or above the first user exit code passes through `checked` unchanged: the error is
  -- the one that `unchecked_with_data` makes.
  pub checked-unchecked :
      (code : ℕ) (m : String) (d : Option IpldBlock)
      → c.first_user_exit_code ≤ code
      → checked code m d ≡ unchecked_with_data code m d
  unfolding checked unchecked_with_data
  checked-unchecked code m d h = rw (checked_code-eq_of_le code h)

-- Adding two contexts one after the other is adding the context "outer: inner" once; a value, the
-- exit code and the data are as they were.
pub context-context {ℓ} :
    {A : Type ℓ} (outer inner : String) (r : Result A ActorError)
    → Context.context outer (Context.context inner r) ≡ Context.context (prefixed outer inner) r
unfolding Context.context
context-context outer inner (ok a) = refl
context-context outer inner (err e) =
    ap {B = Result _ ActorError} (λ m. err (record e { msg = m }))
      (prefixed-prefixed outer inner e.msg)

-- Adding a context to a foreign error with a code is converting it with that code and then adding
-- the context, and the lazy form agrees with the strict one.
pub context_code-exit_code {ℓ κ} :
    {A : Type ℓ} {E : Type κ} (show : E → String) (code : ℕ) (ctx : String) (r : Result A E)
    → (OfResult.context_code show code ctx r ≡ Context.context ctx (OfResult.exit_code show code r))
      × (OfResult.with_context_code show code (λ _. ctx) r
          ≡ Context.with_context (λ _. ctx) (OfResult.exit_code show code r))
unfolding Context.context Context.with_context OfResult.context_code OfResult.exit_code
    OfResult.with_context_code
context_code-exit_code show code ctx (ok a) = (refl, refl)
context_code-exit_code show code ctx (err e) = (refl, refl)

-- `deserialize_block` returns a value exactly where there is a block that decodes to it; without a
-- block it fails with the code of a failed assertion, and where the block does not decode, with
-- the code of a serialization error and the decoder's message.
pub deserialize_block_outcomes {ℓ} :
    {A : Type ℓ} ⦃c : ExitCodes⦄ (decode : IpldBlock → Result A String) (b : IpldBlock)
    → (deserialize_block decode none
        ≡ err (record {
          exit_code = c.usr_assertion_failed;
          msg = "return expected";
          exit_data = none;
        }))
      × (deserialize_block decode (some b)
          ≡ map_err {F = ActorError}
              (λ m. record { exit_code = c.usr_serialization; msg = m; exit_data = none })
              (decode b))
unfolding deserialize_block
deserialize_block_outcomes decode b = (refl, refl)
