-- ===== src/Fvm/Trampoline.antt =====
-- runtime/src/runtime/fvm.rs: `trampoline`. Logging is left out. `abort` does not return, so the
-- result says with which code and message the message ended, or which block it returned.
use fvm_utils.Base.{ℕ, Option, none, some, String, if◌then◌else◌}
use fvm_utils.Platform.{Platform, IpldBlock}
use fvm_utils.Action.{Outcome, done, fail, panic}
use fvm_utils.Runtime.{ActorCode}
use fvm_utils.Fvm.Kernel.{Syscalls}
use fvm_utils.Fvm.Instance.{FvmRuntime, default}

pub data Exit : Type 0 where
  returned : ℕ → Exit
  aborted : ℕ → String → Exit

module _ ⦃p : Platform⦄ {K : Type 0} (sys : Syscalls K) where
  -- the panic hook
  unfoldable pub panicked : String → K → Exit × K
  panicked m k = (aborted p.codes.usr_assertion_failed (sys.panic_info m), k)

  -- the block that stores the return value
  unfoldable pub store_result : Option IpldBlock → K → Exit × K
  unfolding panicked
  store_result none k = (returned sys.no_data_block_id, k)
  store_result (some b) k =
      let (stored, k') = sys.put_block b.codec b.bytes k in
      elim stored [ some n ↦ (returned n, k') | none ↦ panicked "failed to write result" k' ]

  -- what follows the call of the actor
  unfoldable pub finish : Outcome (Option IpldBlock) → FvmRuntime K → Exit × K
  unfolding store_result panicked
  finish (fail e) rt = (aborted e.exit_code e.msg, rt.kernel)
  finish (panic m) rt = panicked m rt.kernel
  finish (done ret) rt =
      if rt.caller_validated
      then store_result ret rt.kernel
      else (aborted p.codes.usr_assertion_failed "failed to validate caller", rt.kernel)

  -- `invoke` is the `invoke_method` of the actor's code
  unfoldable pub trampoline : ActorCode (FvmRuntime K) → ℕ → K → Exit × K
  unfolding finish default
  trampoline invoke id k = elim (sys.params_raw id k) [
    | none ↦ panicked "params block invalid" k
    | some params ↦ let (r, rt) = invoke (sys.method_number k) params (default k) in finish r rt
  ]
