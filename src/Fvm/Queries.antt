-- ===== src/Fvm/Queries.antt =====
-- runtime/src/runtime/fvm.rs: the operations of `FvmRuntime` that pass one syscall on, which are
-- parameters, and the check of signatures.
use fvm_utils.Base.{
  ℕ, ◌≡◌, ◌↔◌, ◌⊎◌, refl, Bool, true, false, some, List, String, Result, ok, err, ℤ, as_u64, arith,
}
use fvm_utils.Platform.{Platform}
use fvm_utils.Action.{Action, done}
use fvm_utils.Builtin.{ActorType, as_i32}
use fvm_utils.Builtin.Laws.{from_i32-as_i32}
use fvm_utils.Downcast.{AnyError, message}
use fvm_utils.Fvm.Kernel.{Syscalls}
use fvm_utils.Runtime.{MessageInfo, RuntimeQueries, Primitives}
use fvm_utils.Fvm.Instance.{FvmRuntime, caller, resolve_builtin_actor_type}

-- the syscalls over the state `K` of the kernel that answer a question, and the one that charges gas
pub record QuerySyscalls ⦃p : Platform⦄ (K : Type 0) : Type 0 where
  pub msg_receiver : K → ℕ
  pub msg_value_received : K → p.TokenAmount
  pub sys_network_version : K → ℕ
  pub sys_curr_epoch : K → ℤ
  pub sys_current_balance : K → p.TokenAmount
  pub sys_circ_supply : K → p.TokenAmount
  pub sys_base_fee : K → p.TokenAmount
  pub sys_charge : String → ℕ → K → K
  pub sys_code_for_type : ℤ → K → p.Cid
  pub sys_hash_blake2b : List ℕ → K → List ℕ
  pub sys_verify_signature : p.Signature → p.Address → List ℕ → K → Result Bool String

module _ ⦃p : Platform⦄ {K : Type 0} (ask : QuerySyscalls K) where
  open p use {Address, Cid, TokenAmount, Signature}

  -- `FvmMessage::receiver` and `FvmMessage::value_received`
  unfoldable pub receiver : Action (FvmRuntime K) Address
  receiver rt = (done (p.new_id (ask.msg_receiver rt.kernel)), rt)

  unfoldable pub value_received : Action (FvmRuntime K) TokenAmount
  value_received rt = (done (ask.msg_value_received rt.kernel), rt)

  unfoldable pub network_version : Action (FvmRuntime K) ℕ
  network_version rt = (done (ask.sys_network_version rt.kernel), rt)

  unfoldable pub curr_epoch : Action (FvmRuntime K) ℤ
  curr_epoch rt = (done (ask.sys_curr_epoch rt.kernel), rt)

  unfoldable pub current_balance : Action (FvmRuntime K) TokenAmount
  current_balance rt = (done (ask.sys_current_balance rt.kernel), rt)

  unfoldable pub get_code_cid_for_type : ActorType → Action (FvmRuntime K) Cid
  get_code_cid_for_type typ rt = (done (ask.sys_code_for_type (as_i32 typ) rt.kernel), rt)

  unfoldable pub total_fil_circ_supply : Action (FvmRuntime K) TokenAmount
  total_fil_circ_supply rt = (done (ask.sys_circ_supply rt.kernel), rt)

  -- the amount is an `i64`, cast to `u64`
  unfoldable pub charge_gas : String → ℤ → Action (FvmRuntime K) (Unit {0})
  charge_gas name compute rt =
      (done tt, record rt { kernel = ask.sys_charge name (as_u64 compute) rt.kernel })

  unfoldable pub base_fee : Action (FvmRuntime K) TokenAmount
  base_fee rt = (done (ask.sys_base_fee rt.kernel), rt)

  unfoldable pub hash_blake2b : List ℕ → Action (FvmRuntime K) (List ℕ)
  hash_blake2b bytes rt = (done (ask.sys_hash_blake2b bytes rt.kernel), rt)

  -- the match of `verify_signature` on the answer
  unfoldable pub signature_result : Result Bool String → Result (Unit {0}) AnyError
  signature_result (ok true) = ok tt
  signature_result (ok false) = err (message "invalid signature")
  signature_result (err e) = err (message "invalid signature")

  unfoldable pub verify_signature :
      Signature → Address → List ℕ → Action (FvmRuntime K) (Result (Unit {0}) AnyError)
  unfolding signature_result
  verify_signature signature signer plaintext rt =
      (done (signature_result (ask.sys_verify_signature signature signer plaintext rt.kernel)), rt)

  -- `impl MessageInfo for FvmMessage`
  abbrev pub fvm_message : Syscalls K → MessageInfo (FvmRuntime K)
  fvm_message sys = record {
    caller = caller sys;
    receiver = receiver;
    value_received = value_received;
  }

  -- the queries of `impl Runtime for FvmRuntime`
  abbrev pub fvm_queries : Syscalls K → RuntimeQueries (FvmRuntime K)
  fvm_queries sys = record {
    network_version = network_version;
    message = fvm_message sys;
    curr_epoch = curr_epoch;
    current_balance = current_balance;
    get_code_cid_for_type = get_code_cid_for_type;
    total_fil_circ_supply = total_fil_circ_supply;
    charge_gas = charge_gas;
    base_fee = base_fee;
  }

  -- `impl Primitives for FvmRuntime`
  abbrev pub fvm_primitives : Primitives (FvmRuntime K) AnyError
  fvm_primitives = record { hash_blake2b = hash_blake2b; verify_signature = verify_signature }

  signature_result_iff :
      (r : Result Bool String)
      → ((signature_result r ≡ ok tt) ↔ (r ≡ ok true))
        × ((signature_result r ≡ ok tt) ⊎ (signature_result r ≡ err (message "invalid signature")))
  unfolding signature_result
  signature_result_iff (ok true) = ground arith
  signature_result_iff (ok false) = ground arith
  signature_result_iff (err e) = ground arith

  -- A signature is accepted exactly where the kernel finds it valid; an invalid one and a failed check
  -- are the same error.
  pub verify_signature_iff :
      (signature : Signature) (signer : Address) (plaintext : List ℕ) (rt : FvmRuntime K)
      (r : Result (Unit {0}) AnyError)
      → verify_signature signature signer plaintext rt ≡ (done r, rt)
      → ((r ≡ ok tt) ↔ (ask.sys_verify_signature signature signer plaintext rt.kernel ≡ ok true))
        × ((r ≡ ok tt) ⊎ (r ≡ err (message "invalid signature")))
  unfolding verify_signature
  verify_signature_iff signature signer plaintext rt r h =
      let answer = ask.sys_verify_signature signature signer plaintext rt.kernel in
      let same : signature_result answer ≡ r = cc h in rw (← same) (signature_result_iff answer)

  -- Where the kernel knows the code that it has for the number of a type by that number, the type of the
  -- code for the type is that type.
  pub resolve-get_code_cid_for_type :
      (sys : Syscalls K) (typ : ActorType) (rt : FvmRuntime K) (code : Cid)
      → sys.sys_get_builtin_actor_type (ask.sys_code_for_type (as_i32 typ) rt.kernel) rt.kernel
        ≡ some (as_i32 typ)
      → get_code_cid_for_type typ rt ≡ (done code, rt)
      → resolve_builtin_actor_type sys code rt ≡ (done (some typ), rt)
  unfolding get_code_cid_for_type resolve_builtin_actor_type
  resolve-get_code_cid_for_type sys typ rt code known h =
      let same : ask.sys_code_for_type (as_i32 typ) rt.kernel ≡ code = cc h in
      rw (← same, known, from_i32-as_i32 typ) refl
