-- ===== src/Fvm/Instance.antt =====
-- runtime/src/runtime/fvm.rs: `FvmRuntime` and its operations.
use fvm_utils.Base.{
  ℕ, Bool, true, false, Option, none, some, List, String, Result, ok, err, concat, any,
  if◌then◌else◌, map_err,
}
use mathlib.Core.Option
use fvm_utils.Platform.{
  Platform, IpldBlock, ErrorNumber, not_found, insufficient_funds, limit_exceeded, platform_codes,
  same_address, illegal_argument,
}
use fvm_utils.ActorError
use fvm_utils.ActorError.{ActorError}
use fvm_utils.Action.{done, Action, pure, raise, lift, expect, choose, ◌>>=◌, ◌>>◌}
use fvm_utils.Builtin.{ActorType, from_i32}
use fvm_utils.Builtin.Laws.{type_eq}
use fvm_utils.Runtime.{Runtime}
use fvm_utils.Fvm.Kernel.{Syscalls, Response}

-- `FvmRuntime`; its blockstore is stateless and lives in the kernel
pub record FvmRuntime (K : Type 0) : Type 0 where
  pub kernel : K
  pub in_transaction : Bool
  pub caller_validated : Bool

-- `FvmRuntime::default()`
unfoldable pub default : {K : Type 0} → K → FvmRuntime K
default k = record { kernel = k; in_transaction = false; caller_validated = false }

module _ ⦃p : Platform⦄ {K : Type 0} (sys : Syscalls K) where
  open p use {Address, Cid, TokenAmount}

  -- a syscall that changes the kernel, with its error turned into an actor error
  abbrev pub syscall {ℓ κ} :
      {A : Type ℓ} {E : Type κ} → (E → ActorError) → (K → Result A E × K) → Action (FvmRuntime K) A
  syscall f call rt = let (r, k) = call rt.kernel in lift (map_err f r) (record rt { kernel = k })

  unfoldable pub assert_not_validated : Action (FvmRuntime K) (Unit {0})
  assert_not_validated rt =
      choose rt.caller_validated
        (raise (ActorError.assertion_failed "Method must validate caller identity exactly once"))
        (pure tt) rt

  -- `self.caller_validated = true`
  abbrev pub set_validated : Action (FvmRuntime K) (Unit {0})
  set_validated rt = (done tt, record rt { caller_validated = true })

  -- `FvmMessage::caller`
  unfoldable pub caller : Action (FvmRuntime K) Address
  caller rt = (done (p.new_id (sys.msg_caller rt.kernel)), rt)

  unfoldable pub get_actor_code_cid : ℕ → Action (FvmRuntime K) (Option Cid)
  get_actor_code_cid n rt = (done (sys.sys_get_actor_code_cid (p.new_id n) rt.kernel), rt)

  unfoldable pub resolve_builtin_actor_type : Cid → Action (FvmRuntime K) (Option ActorType)
  resolve_builtin_actor_type c rt =
      (done (Option.map from_i32 (sys.sys_get_builtin_actor_type c rt.kernel)), rt)

  unfoldable pub resolve_address : Address → Action (FvmRuntime K) (Option Address)
  resolve_address a rt = (done (Option.map p.new_id (sys.sys_resolve_address a rt.kernel)), rt)

  unfoldable pub validate_immediate_caller_accept_any : Action (FvmRuntime K) (Unit {0})
  unfolding assert_not_validated
  validate_immediate_caller_accept_any = do assert_not_validated; set_validated

  unfoldable pub validate_immediate_caller_is : List Address → Action (FvmRuntime K) (Unit {0})
  unfolding assert_not_validated caller
  validate_immediate_caller_is addresses = do
    assert_not_validated
    caller_addr ← caller
    choose (any (λ a. same_address a caller_addr) addresses) set_validated (
        raise (
          ActorError.forbidden
            (concat "caller " (concat (p.show_address caller_addr) " is not one of supported"))))

  -- the block that looks up the code of the caller
  unfoldable pub caller_cid : Action (FvmRuntime K) Cid
  unfolding caller get_actor_code_cid
  caller_cid = do
    caller_addr ← caller
    n ← expect (p.actor_id caller_addr) "called `Result::unwrap()` on an `Err` value"
    found ← get_actor_code_cid n
    expect found "failed to lookup caller code"

  -- whether the type that was found is one of `types`
  abbrev pub among : List ActorType → Option ActorType → Bool
  among types (some typ) = any (λ t. type_eq t typ) types
  among types none = false

  unfoldable pub validate_immediate_caller_type : List ActorType → Action (FvmRuntime K) (Unit {0})
  unfolding assert_not_validated caller_cid resolve_builtin_actor_type
  validate_immediate_caller_type types = do
    assert_not_validated
    cid ← caller_cid
    typ ← resolve_builtin_actor_type cid
    choose (among types typ) set_validated (
        raise (
          ActorError.forbidden
            (concat "caller cid type " (concat (p.show_cid cid) " not one of supported"))))

  unfoldable pub validate_immediate_caller_not_type :
      List ActorType → Action (FvmRuntime K) (Unit {0})
  unfolding assert_not_validated caller_cid resolve_builtin_actor_type
  validate_immediate_caller_not_type types = do
    assert_not_validated
    cid ← caller_cid
    typ ← resolve_builtin_actor_type cid
    choose (among types typ)
        (raise (
          ActorError.forbidden
            (concat "caller cid type " (concat (p.show_cid cid) " is one of the not supported"))))
        set_validated

  -- the errors of the send syscall
  unfoldable pub send_error : ErrorNumber → ActorError
  send_error not_found = ActorError.unspecified "receiver not found"
  send_error insufficient_funds = ActorError.insufficient_funds "not enough funds"
  send_error limit_exceeded = ActorError.assertion_failed "recursion limit exceeded"
  send_error e = ActorError.assertion_failed (concat "unexpected error: " (p.show_error_number e))

  abbrev pub abort_message : Address → ℕ → ℕ → String
  abort_message to method code = concat "send to " (
      concat (p.show_address to) (
        concat " method "
          (concat (p.show_number method) (concat " aborted with code " (p.show_number code)))))

  -- what a response of the receiver comes to
  unfoldable pub send_response : Address → ℕ → Response → Result (Option IpldBlock) ActorError
  send_response to method ret =
      if sys.is_success ret.exit_code
      then ok ret.return_data
      else err
          (ActorError.checked ret.exit_code (abort_message to method ret.exit_code) ret.return_data)

  abbrev pub send_refusal : ActorError
  send_refusal = ActorError.assertion_failed "send is not allowed during transaction"

  unfoldable pub send :
      Address → ℕ → Option IpldBlock → TokenAmount → Action (FvmRuntime K) (Option IpldBlock)
  unfolding send_error send_response
  send to method params value rt =
      choose rt.in_transaction (raise send_refusal)
        (syscall send_error (sys.sys_send to method params value) >>= λ ret.
          lift (send_response to method ret))
        rt

  unfoldable pub new_actor_address : Action (FvmRuntime K) Address
  new_actor_address rt =
      let (a, k) = sys.next_actor_address rt.kernel in (done a, record rt { kernel = k })

  -- the errors of the create syscall
  unfoldable pub create_error : ErrorNumber → ActorError
  create_error illegal_argument = ActorError.illegal_argument "failed to create actor"
  create_error e =
      ActorError.assertion_failed
        (concat "create failed with unknown error: " (p.show_error_number e))

  unfoldable pub create_actor : Cid → ℕ → Action (FvmRuntime K) (Unit {0})
  unfolding create_error
  create_actor code_id n rt =
      choose rt.in_transaction
        (raise (ActorError.assertion_failed "create_actor is not allowed during transaction"))
        (syscall create_error (sys.sys_create_actor n code_id)) rt

  unfoldable pub delete_actor : Address → Action (FvmRuntime K) (Unit {0})
  delete_actor beneficiary rt =
      choose rt.in_transaction
        (raise (ActorError.assertion_failed "delete_actor is not allowed during transaction"))
        (syscall ActorError.from_delete_error (sys.self_destruct beneficiary)) rt

  -- `impl Runtime for FvmRuntime`
  abbrev pub fvm_runtime : Runtime (FvmRuntime K)
  fvm_runtime = record {
    caller = caller;
    validate_immediate_caller_accept_any = validate_immediate_caller_accept_any;
    validate_immediate_caller_is = validate_immediate_caller_is;
    validate_immediate_caller_type = validate_immediate_caller_type;
    validate_immediate_caller_not_type = validate_immediate_caller_not_type;
    resolve_address = resolve_address;
    get_actor_code_cid = get_actor_code_cid;
    resolve_builtin_actor_type = resolve_builtin_actor_type;
    send = send;
    create_actor = create_actor;
    delete_actor = delete_actor;
    new_actor_address = new_actor_address;
  }
