-- ===== src/Runtime.antt =====
-- runtime/src/runtime/mod.rs: the trait `Runtime`, as an interface that its two implementations and
-- the functions generic in it share. The operations that are generic in the type of the actor's
-- state stand in a record of their own, one for each such type.
use fvm_utils.Base.{ℕ, Option, List, String, Result, ℤ}
use fvm_utils.Platform.{Platform, IpldBlock}
use fvm_utils.Action.{Action}
use fvm_utils.Builtin.{ActorType}

pub record Runtime ⦃p : Platform⦄ (S : Type 0) : Type 0 where
  pub caller : Action S p.Address
  pub validate_immediate_caller_accept_any : Action S (Unit {0})
  pub validate_immediate_caller_is : List p.Address → Action S (Unit {0})
  pub validate_immediate_caller_type : List ActorType → Action S (Unit {0})
  pub validate_immediate_caller_not_type : List ActorType → Action S (Unit {0})
  pub resolve_address : p.Address → Action S (Option p.Address)
  pub get_actor_code_cid : ℕ → Action S (Option p.Cid)
  pub resolve_builtin_actor_type : p.Cid → Action S (Option ActorType)
  pub send : p.Address → ℕ → Option IpldBlock → p.TokenAmount → Action S (Option IpldBlock)
  pub create_actor : p.Cid → ℕ → Action S (Unit {0})
  pub delete_actor : p.Address → Action S (Unit {0})
  pub new_actor_address : Action S p.Address

-- the trait `MessageInfo`
pub record MessageInfo ⦃p : Platform⦄ (S : Type 0) : Type 0 where
  pub caller : Action S p.Address
  pub receiver : Action S p.Address
  pub value_received : Action S p.TokenAmount

-- the operations of `Runtime` that answer a question on the network or the message, and the one that
-- charges gas
pub record RuntimeQueries ⦃p : Platform⦄ (S : Type 0) : Type 0 where
  pub network_version : Action S ℕ
  pub message : MessageInfo S
  pub curr_epoch : Action S ℤ
  pub current_balance : Action S p.TokenAmount
  pub get_code_cid_for_type : ActorType → Action S p.Cid
  pub total_fil_circ_supply : Action S p.TokenAmount
  pub charge_gas : String → ℤ → Action S (Unit {0})
  pub base_fee : Action S p.TokenAmount

-- the trait `Primitives`; `Error` is what a signature check fails with
pub record Primitives ⦃p : Platform⦄ (S Error : Type 0) : Type 0 where
  pub hash_blake2b : List ℕ → Action S (List ℕ)
  pub verify_signature : p.Signature → p.Address → List ℕ → Action S (Result (Unit {0}) Error)

-- `create`, `state` and `transaction` at one type of state
pub record StateRuntime (S T : Type 0) : Type 1 where
  pub create : T → Action S (Unit {0})
  pub state : Action S T
  pub transaction : {R : Type 0} → Action (T × S) R → Action S R

-- `ActorCode`: its `invoke_method` on a runtime
abbrev pub ActorCode : Type 0 → Type 0
ActorCode S = ℕ → Option IpldBlock → Action S (Option IpldBlock)
