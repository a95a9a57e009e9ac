-- ===== src/ActorError/OfOption.antt =====
-- runtime/src/actor_error.rs: `AsActorError for Option<T>`.
use fvm_utils.Base.{ℕ, Option, none, String, Result, ok_or}
use fvm_utils.ActorError.{ActorError}

module _ {ℓ} {A : Type ℓ} where
  unfoldable pub exit_code : ℕ → Option A → Result A ActorError
  exit_code code o = ok_or o (record { exit_code = code; msg = "None"; exit_data = none })

  unfoldable pub context_code : ℕ → String → Option A → Result A ActorError
  context_code code ctx o = ok_or o (record { exit_code = code; msg = ctx; exit_data = none })

  unfoldable pub with_context_code : ℕ → (Unit {0} → String) → Option A → Result A ActorError
  with_context_code code f o = ok_or o (record { exit_code = code; msg = f tt; exit_data = none })
