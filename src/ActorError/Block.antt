-- ===== src/ActorError/Block.antt =====
-- runtime/src/actor_error.rs: `deserialize_block`; `decode` is `IpldBlock::deserialize`, its error
-- by its text.
use fvm_utils.Base.{Option, String, Result, and_then}
use fvm_utils.Platform.{IpldBlock, ExitCodes}
use fvm_utils.ActorError.{ActorError}
use fvm_utils.ActorError.OfOption
use fvm_utils.ActorError.OfResult

unfoldable pub deserialize_block {ℓ} :
    {A : Type ℓ} ⦃c : ExitCodes⦄
    → (IpldBlock → Result A String)
    → Option IpldBlock
    → Result A ActorError
unfolding OfOption.context_code OfResult.exit_code
deserialize_block ⦃c⦄ decode ret =
    and_then (OfOption.context_code c.usr_assertion_failed "return expected" ret)
      λ b. OfResult.exit_code (λ e. e) c.usr_serialization (decode b)
