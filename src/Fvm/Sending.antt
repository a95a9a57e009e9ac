-- ===== src/Fvm/Sending.antt =====
-- The calls that leave the actor: refused in a transaction, and how their errors are reported.
use fvm_utils.Base.{ℕ, ◌≡◌, ◌↔◌, true, false, Option, arith, ok, err}
use fvm_utils.Platform.{
  Platform, IpldBlock, ErrorNumber, not_found, insufficient_funds, platform_codes,
}
use fvm_utils.ActorError
use fvm_utils.ActorError.{ActorError}
use fvm_utils.ActorError.Laws.{checked_user}
use fvm_utils.Action.{Outcome, done, fail}
use fvm_utils.Fvm.Kernel.{Syscalls, Response}
use fvm_utils.Fvm.Instance.{
  FvmRuntime, send, create_actor, delete_actor, send_error, send_response, abort_message,
}

module _ ⦃p : Platform⦄ {K : Type 0} (sys : Syscalls K) where
  -- A failure with this exit code, and the runtime, the kernel's state included, as it was.
  abbrev pub Refused : {A : Type 0} → ℕ → FvmRuntime K → Outcome A × FvmRuntime K → Type 0
  Refused code rt (fail e, rt') = (e.exit_code ≡ code) × (rt' ≡ rt)
  Refused code rt (other, rt') = ⊥

  -- While a transaction is open a message is not sent, an actor is neither created nor deleted: each
  -- call fails with a failed assertion, no syscall is made and nothing changes.
  pub in_transaction-Refused :
      (rt : FvmRuntime K) (to beneficiary : p.Address) (method id : ℕ) (params : Option IpldBlock)
      → (value : p.TokenAmount) (code_id : p.Cid) → rt.in_transaction ≡ true
      → Refused p.codes.usr_assertion_failed rt (send sys to method params value rt)
        × Refused p.codes.usr_assertion_failed rt (create_actor sys code_id id rt)
        × Refused p.codes.usr_assertion_failed rt (delete_actor sys beneficiary rt)
  unfolding send create_actor delete_actor ActorError.assertion_failed
  in_transaction-Refused rt to beneficiary method id params value code_id open_now =
      (ground arith, ground arith, ground arith)

  -- Outside of a transaction a message goes to the kernel once; a value comes back exactly where the
  -- receiver exited with success, and it is the receiver's return data.
  pub send_value :
      (rt : FvmRuntime K) (to : p.Address) (method : ℕ) (params : Option IpldBlock)
      → (value : p.TokenAmount) (ret : Response) (k : K) → rt.in_transaction ≡ false
      → sys.sys_send to method params value rt.kernel ≡ (ok ret, k)
      → ((send sys to method params value rt).1 ≡ record rt { kernel = k })
        × (((send sys to method params value rt).0 ≡ done ret.return_data)
            ↔ (sys.is_success ret.exit_code ≡ true))
  unfolding send
  send_value rt to method params value ret k closed sent =
      (ground arith, (λ h. ground arith, λ h. ground arith))

  send_error_user : (n : ErrorNumber) → p.codes.is_system_error (send_error sys n).exit_code ≡ false
  unfolding send_error ActorError.unspecified ActorError.insufficient_funds
      ActorError.assertion_failed
  send_error_user not_found =
      ground (arith, p.codes.system_range p.codes.usr_unspecified, p.codes.unspecified_user)
  send_error_user insufficient_funds =
      ground (
        arith,
        p.codes.system_range p.codes.usr_insufficient_funds,
        p.codes.insufficient_funds_user,
      )
  send_error_user _ =
      ground
        (arith, p.codes.system_range p.codes.usr_assertion_failed, p.codes.assertion_failed_user)

  send_response_user :
      (to : p.Address) (method : ℕ) (ret : Response) (e : ActorError)
      → send_response sys to method ret ≡ err e
      → p.codes.is_system_error e.exit_code ≡ false
  unfolding send_response
  send_response_user to method ret e h = ground (
    arith,
    checked_user ret.exit_code (abort_message sys to method ret.exit_code) ret.return_data,
  )

  -- Whatever goes wrong with a message, in the syscall or in the receiver, the error that the sender
  -- gets has an exit code that an actor may exit with.
  pub send_user_code :
      (rt : FvmRuntime K) (to : p.Address) (method : ℕ) (params : Option IpldBlock)
      → (value : p.TokenAmount) (e : ActorError) → (send sys to method params value rt).0 ≡ fail e
      → p.codes.is_system_error e.exit_code ≡ false
  unfolding send ActorError.assertion_failed
  send_user_code rt to method params value e h = grind (
    arith,
    send_error_user,
    send_response_user,
    p.codes.system_range p.codes.usr_assertion_failed,
    p.codes.assertion_failed_user,
  )
