-- ===== src/Tests/Concrete.antt =====
-- A small platform, kernel and store on which the theorems are applied: an address is a number with
-- its protocol, an identifier and an amount a number, and a state its own identifier.
use fvm_utils.Base.{
  ℕ, suc, ◌-◌, ◌+◌, ◌≡◌, ◌↔◌, refl, Bool, true, false, Option, none, some, [], ok, String, Result,
  ltb, leb, nat_eq, if◌then◌else◌, nat_partial_eq, pos, arith,
}
use fvm_utils.Platform.{Platform, ExitCodes, Protocol, id, secp256k1, bls}
use fvm_utils.ActorError.{StateUpdateError}
use fvm_utils.Fvm.Kernel.{Syscalls, CborStore}
use fvm_utils.Fvm.Instance.{FvmRuntime}
use fvm_utils.Mock.Expectations.{no_expectations}
use fvm_utils.Mock.Core.{MockRuntime}

pub data ToyAddress : Type 0 where
  id_address secp_address bls_address : ℕ → ToyAddress

abbrev pub toy_same : ToyAddress → ToyAddress → Bool
toy_same (id_address a) (id_address b) = nat_eq a b
toy_same (secp_address a) (secp_address b) = nat_eq a b
toy_same (bls_address a) (bls_address b) = nat_eq a b
toy_same _ _ = false

pub toy_same_iff : (a b : ToyAddress) → (toy_same a b ≡ true) ↔ (a ≡ b)
toy_same_iff (id_address a) (id_address b) = ground arith
toy_same_iff (secp_address a) (secp_address b) = ground arith
toy_same_iff (bls_address a) (bls_address b) = ground arith
toy_same_iff (id_address a) (secp_address b) = ground arith
toy_same_iff (id_address a) (bls_address b) = ground arith
toy_same_iff (secp_address a) (id_address b) = ground arith
toy_same_iff (secp_address a) (bls_address b) = ground arith
toy_same_iff (bls_address a) (id_address b) = ground arith
toy_same_iff (bls_address a) (secp_address b) = ground arith

-- the numbers that fvm_shared documents
abbrev pub toy_codes : ExitCodes
toy_codes = record {
  success = 0;
  sys_sender_state_invalid = 2;
  sys_illegal_instruction = 4;
  sys_missing_return = 6;
  sys_illegal_exit_code = 9;
  usr_illegal_argument = 16;
  usr_not_found = 17;
  usr_forbidden = 18;
  usr_insufficient_funds = 19;
  usr_illegal_state = 20;
  usr_serialization = 21;
  usr_unhandled_message = 22;
  usr_unspecified = 23;
  usr_assertion_failed = 24;
  usr_read_only = 25;
  first_user_exit_code = 16;
  is_system_error = λ c. ltb c 16;
  system_range = λ c. refl;
  missing_return_system = omega arith;
  illegal_instruction_system = omega arith;
  illegal_exit_code_system = omega arith;
  unspecified_user = omega arith;
  insufficient_funds_user = omega arith;
  assertion_failed_user = omega arith;
}

abbrev pub toy_protocol : ToyAddress → Protocol
toy_protocol (id_address n) = id
toy_protocol (secp_address n) = secp256k1
toy_protocol (bls_address n) = bls

abbrev pub toy_id : ToyAddress → Option ℕ
toy_id (id_address n) = some n
toy_id a = none

instance abbrev pub toy : Platform
toy = record {
  Address = ToyAddress;
  Cid = ℕ;
  TokenAmount = ℕ;
  Signature = ℕ;
  address_eq = record { eq = toy_same; eq_sound = toy_same_iff };
  cid_eq = nat_partial_eq;
  amount_eq = nat_partial_eq;
  signature_eq = nat_partial_eq;
  codes = toy_codes;
  new_id = id_address;
  protocol = toy_protocol;
  actor_id = toy_id;
  address_bytes = λ a. [];
  show_address = λ a. "t0";
  show_cid = λ c. "cid";
  show_number = λ n. "n";
  debug_address = λ a. "t0";
  debug_addresses = λ xs. "t0";
  debug_cid = λ c. "cid";
  debug_cids = λ cs. "cids";
  debug_amount = λ a. "amount";
  show_error_number = λ e. "number";
  method_send = 0;
  method_constructor = 1;
  amount_zero = 0;
  amount_add = λ a b. a + b;
  amount_sub = λ a b. a - b;
  amount_lt = ltb;
  protocol-new_id = λ n. refl;
  actor_id-new_id = λ n. refl;
}

-- the caller's number, the number of the method, the root and how many messages were sent
pub record ToyKernel : Type 0 where
  pub sender : ℕ
  pub method : ℕ
  pub root : ℕ
  pub sent : ℕ

abbrev pub toy_kernel : ToyKernel
toy_kernel = record { sender = 4; method = 7; root = 0; sent = 0 }

abbrev pub toy_set_root : ℕ → ToyKernel → Result (Unit {0}) StateUpdateError × ToyKernel
toy_set_root c k = (ok tt, record k { root = c })

abbrev pub toy_read_root : ToyKernel → Result ℕ String
toy_read_root k = ok k.root

pub toy_root : (c : ℕ) (k k' : ToyKernel) → toy_set_root c k ≡ (ok tt, k') → toy_read_root k' ≡ ok c
toy_root c k k' e = ground arith

abbrev pub toy_put : {B : Type 0} → (B → B) → ℕ → B → Result ℕ String × B
toy_put f x b = (ok x, f b)

abbrev pub toy_get : {B : Type 0} → ℕ → B → Result (Option ℕ) String
toy_get c b = ok (some c)

pub toy_kept :
    {B : Type 0} (f : B → B) (x c : ℕ) (b b' : B)
    → toy_put f x b ≡ (ok c, b')
    → toy_get c b' ≡ ok (some x)
toy_kept f x c b b' e = ground arith

-- a message to method 0 succeeds, and the number of any other is its exit code
abbrev pub toy_syscalls : Syscalls ToyKernel
toy_syscalls = record {
  msg_caller = λ k. k.sender;
  method_number = λ k. k.method;
  params_raw = λ n k. some none;
  self_root = toy_read_root;
  set_root = toy_set_root;
  sys_send = λ to m ps v k.
      (ok (record { exit_code = m; return_data = ps }), record k { sent = suc k.sent });
  sys_resolve_address = λ a k. some 5;
  sys_get_actor_code_cid = λ a k. toy_id a;
  sys_get_builtin_actor_type = λ c k. if leb c 12 then some (pos c) else none;
  sys_create_actor = λ n c k. (ok tt, k);
  self_destruct = λ a k. (ok tt, k);
  next_actor_address = λ k. (secp_address k.sent, k);
  put_block = λ c bs k. (some 3, k);
  empty_arr_cid = 0;
  no_data_block_id = 0;
  is_success = λ c. nat_eq c 0;
  panic_info = λ m. m;
  self_root-set_root = toy_root;
}

abbrev pub toy_store : CborStore toy_syscalls ℕ
toy_store = record {
  put_cbor = toy_put (λ j. j);
  get_cbor = toy_get;
  get-put = λ x c k k' e. toy_kept (λ j. j) x c k k' e;
  get-set_root = λ c d k k' e. refl;
}

abbrev pub toy_runtime : FvmRuntime ToyKernel
toy_runtime = record { kernel = toy_kernel; in_transaction = false; caller_validated = false }

-- a mock in a call, with the state 8, the balance 50 and the caller 4
abbrev pub toy_mock : MockRuntime ℕ
toy_mock = record {
  epoch = pos 0;
  miner = id_address 0;
  base_fee = 0;
  id_addresses = λ a. none;
  actor_code_cids = λ a. none;
  new_actor_addr = none;
  receiver = id_address 9;
  caller = id_address 4;
  caller_type = 4;
  value_received = 0;
  hash_func = λ bs. bs;
  network_version = 18;
  state = some 8;
  balance = 50;
  in_call = true;
  store = 0;
  in_transaction = false;
  expectations = no_expectations;
  circulating_supply = 0;
}
