-- ===== src/ActorError/OfResult.antt =====
-- runtime/src/actor_error.rs: `AsActorError for Result<T, E>`; `show` is the `Display` of `E`.
use fvm_utils.Base.{ℕ, none, String, Result, map_err, prefixed}
use fvm_utils.ActorError.{ActorError}

module _ {ℓ κ} {A : Type ℓ} {E : Type κ} (show : E → String) where
  unfoldable pub exit_code : ℕ → Result A E → Result A ActorError
  exit_code code r =
      map_err {F = ActorError} (λ e. record { exit_code = code; msg = show e; exit_data = none }) r

  unfoldable pub context_code : ℕ → String → Result A E → Result A ActorError
  context_code code ctx r =
      map_err {F = ActorError}
        (λ e. record { exit_code = code; msg = prefixed ctx (show e); exit_data = none }) r

  unfoldable pub with_context_code : ℕ → (Unit {0} → String) → Result A E → Result A ActorError
  with_context_code code f r =
      map_err {F = ActorError}
        (λ e. record { exit_code = code; msg = prefixed (f tt) (show e); exit_data = none }) r
