-- ===== src/ActorError/Context.antt =====
-- runtime/src/actor_error.rs: `ActorContext for Result<T, ActorError>`.
use fvm_utils.Base.{String, Result, map_err, prefixed}
use fvm_utils.ActorError.{ActorError}

unfoldable pub context {ℓ} : {A : Type ℓ} → String → Result A ActorError → Result A ActorError
context ctx r =
    map_err {E = ActorError} {F = ActorError} (λ e. record e { msg = prefixed ctx e.msg }) r

unfoldable pub with_context {ℓ} :
    {A : Type ℓ} → (Unit {0} → String) → Result A ActorError → Result A ActorError
with_context f r =
    map_err {E = ActorError} {F = ActorError} (λ e. record e { msg = prefixed (f tt) e.msg }) r
