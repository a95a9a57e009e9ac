-- ===== src/Tests/Fvm.antt =====
-- The theorems on runtime/src/runtime/fvm.rs at concrete inputs.
use fvm_utils.Base.{
  ℕ, suc, ◌+◌, ◌≡◌, ◌≤◌, ◌↔◌, ◌⊎◌, refl, true, false, Option, none, some, [], ◌∷◌, ltb, ℤ, arith,
}
use fvm_utils.Platform.{IpldBlock}
use fvm_utils.ActorError
use fvm_utils.ActorError.{ActorError}
use fvm_utils.Action.{done, fail, Action}
use fvm_utils.Builtin.{first_exported_method_number}
use fvm_utils.Fvm.Instance.{FvmRuntime, default, send, send_refusal, fvm_runtime}
use fvm_utils.Fvm.State.{state, transaction, load_state, commit, write_state}
use fvm_utils.Fvm.Trampoline.{trampoline}
use fvm_utils.Fvm.Transactions.{transaction_commits, send_after_nested}
use fvm_utils.Fvm.Sending.{send_user_code}
use fvm_utils.Fvm.Validation.{
  accept_any, caller_is, send_to, perform_all, perform_all_once, flag, trampoline_validated,
}
use fvm_utils.Shared.{restrict_internal_api}
use fvm_utils.Shared.Restricting.{restrict_internal_api_iff}
use fvm_utils.Tests.Concrete.{
  id_address, toy, ToyKernel, toy_kernel, toy_syscalls, toy_store, toy_runtime,
}

-- a closure that adds seven to the state and returns five, and one that fails after it
abbrev add_seven : Action (ℕ × FvmRuntime ToyKernel) ℕ
add_seven s = (done 5, (s.0 + 7, s.1))

abbrev add_and_fail : Action (ℕ × FvmRuntime ToyKernel) ℕ
add_and_fail s = (fail (ActorError.unchecked 18 "no"), (s.0 + 7, s.1))

abbrev kernel_seven : ToyKernel
kernel_seven = record toy_kernel { root = 7 }

abbrev inside : FvmRuntime ToyKernel
inside = record toy_runtime { in_transaction = true }

transaction_commits_example :
    let after = record toy_runtime { kernel = kernel_seven } in
    (transaction toy_syscalls toy_store add_seven toy_runtime ≡ (done 5, after))
    × (state toy_syscalls toy_store after ≡ (done 7, after))
transaction_commits_example =
    transaction_commits toy_syscalls toy_store add_seven toy_runtime inside 0 7 0 7 5 kernel_seven
      (refl, refl) refl (toy_kernel, refl, refl)

seven_inside : (transaction toy_syscalls toy_store add_seven inside).0 ≡ done 5
unfolding transaction load_state commit write_state
seven_inside = refl

send_after_nested_example :
    let rt' = (transaction toy_syscalls toy_store add_seven inside).1 in
    (send toy_syscalls (id_address 1) 0 none 3 inside ≡ (fail (send_refusal toy_syscalls), inside))
    × ((send toy_syscalls (id_address 1) 0 none 3 rt').1.kernel
        ≡ record rt'.kernel { sent = suc rt'.kernel.sent })
send_after_nested_example =
    send_after_nested toy_syscalls toy_store add_seven inside 0 0 (id_address 1) 0 none 3 refl
      (refl, refl) (λ m broke. absurd (ground (arith, seven_inside)))

-- the receiver exits with the code 4 of the system
abbrev seen_by_sender : ActorError
seen_by_sender = record {
  exit_code = 23;
  msg = "send to t0 method n aborted with code n";
  exit_data = none;
}

send_user_code_example : ltb 23 16 ≡ false
unfolding send ActorError.checked
send_user_code_example =
    send_user_code toy_syscalls toy_runtime (id_address 1) 4 none 3 seen_by_sender refl

perform_all_once_example :
    let (n, rt') =
      perform_all toy_syscalls
        (accept_any ∷ send_to (id_address 1) 0 none 3 ∷ caller_is (id_address 4 ∷ []) ∷ [])
        toy_runtime in
    n + 0 ≡ flag toy_syscalls rt'.caller_validated
perform_all_once_example =
    perform_all_once toy_syscalls
      (accept_any ∷ send_to (id_address 1) 0 none 3 ∷ caller_is (id_address 4 ∷ []) ∷ [])
      toy_runtime

-- a method that accepts any caller and returns nothing, and one that fails
abbrev accepting : ℕ → Option IpldBlock → Action (FvmRuntime ToyKernel) (Option IpldBlock)
accepting n ps rt = (done none, record rt { caller_validated = true })

trampoline_validated_example :
    (params ret : Option IpldBlock) × (rt : FvmRuntime ToyKernel) × (some none ≡ some params)
    × (accepting 7 params (default toy_kernel) ≡ (done ret, rt))
    × (rt.caller_validated ≡ true)
unfolding trampoline
trampoline_validated_example = trampoline_validated toy_syscalls accepting 1 toy_kernel 0 refl

restrict_internal_api_iff_example :
    let (r, rt') = restrict_internal_api (fvm_runtime toy_syscalls) 5 toy_runtime in
    ((r ≡ done tt) ↔ (
      (first_exported_method_number ≤ 5)
      ⊎ ((cid : ℕ) × (some 4 ≡ some cid)
          × (typ : ℤ) × (toy_syscalls.sys_get_builtin_actor_type cid toy_kernel ≡ some typ))))
    × (rt' ≡ toy_runtime)
restrict_internal_api_iff_example = restrict_internal_api_iff toy_syscalls 5 toy_runtime
