-- ===== src/Fvm/Kernel.antt =====
-- What runtime/src/runtime/fvm.rs takes from the FVM SDK (module `fvm`) and from `CborStore`.
use fvm_utils.Base.{ℕ, ◌≡◌, Bool, Option, some, List, String, Result, ok, ℤ}
use fvm_utils.Platform.{Platform, IpldBlock, ErrorNumber}
use fvm_utils.ActorError.{StateUpdateError}

-- `Response` of the send syscall
pub record Response : Type 0 where
  pub exit_code : ℕ
  pub return_data : Option IpldBlock

-- The syscalls over the state `K` of the kernel; errors that are only shown are their texts.
pub record Syscalls ⦃p : Platform⦄ (K : Type 0) : Type 0 where
  pub msg_caller : K → ℕ
  pub method_number : K → ℕ
  pub params_raw : ℕ → K → Option (Option IpldBlock)
  pub self_root : K → Result p.Cid String
  pub set_root : p.Cid → K → Result (Unit {0}) StateUpdateError × K
  pub sys_send :
      p.Address → ℕ → Option IpldBlock → p.TokenAmount → K → Result Response ErrorNumber × K
  pub sys_resolve_address : p.Address → K → Option ℕ
  pub sys_get_actor_code_cid : p.Address → K → Option p.Cid
  pub sys_get_builtin_actor_type : p.Cid → K → Option ℤ
  pub sys_create_actor : ℕ → p.Cid → K → Result (Unit {0}) ErrorNumber × K
  pub self_destruct : p.Address → K → Result (Unit {0}) String × K
  pub next_actor_address : K → p.Address × K
  pub put_block : ℕ → List ℕ → K → Option ℕ × K
  -- `EMPTY_ARR_CID`, the identifier of the empty array
  pub empty_arr_cid : p.Cid
  pub no_data_block_id : ℕ
  pub is_success : ℕ → Bool
  pub panic_info : String → String
  -- A root that was set is the root that is read.
  pub self_root-set_root : (c : p.Cid) (k k' : K) → set_root c k ≡ (ok tt, k') → self_root k' ≡ ok c

-- `put_cbor` and `get_cbor` of the actor's blockstore for values of the type `T`; what the root is
-- has no influence on the blocks.
pub record CborStore ⦃p : Platform⦄ {K : Type 0} (sys : Syscalls K) (T : Type 0) : Type 0 where
  pub put_cbor : T → K → Result p.Cid String × K
  pub get_cbor : p.Cid → K → Result (Option T) String
  pub get-put :
      (x : T) (c : p.Cid) (k k' : K) → put_cbor x k ≡ (ok c, k') → get_cbor c k' ≡ ok (some x)
  pub get-set_root :
      (c d : p.Cid) (k k' : K) → sys.set_root d k ≡ (ok tt, k') → get_cbor c k' ≡ get_cbor c k
