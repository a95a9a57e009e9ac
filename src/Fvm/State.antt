-- ===== src/Fvm/State.antt =====
-- runtime/src/runtime/fvm.rs: `create`, `state` and `transaction` of `FvmRuntime`, for a type `T` of
-- states that the store can encode.
use fvm_utils.Base.{true, false, String, concat, map_err}
use fvm_utils.Platform.{Platform, platform_codes, same_cid}
use fvm_utils.ActorError
use fvm_utils.ActorError.{ActorError}
use fvm_utils.Action.{
  Outcome, done, fail, panic, Action, pure, raise, abort, lift, expect, choose, ◌>>=◌, ◌>>◌,
}
use fvm_utils.Runtime.{StateRuntime}
use fvm_utils.Fvm.Kernel.{Syscalls, CborStore}
use fvm_utils.Fvm.Instance.{FvmRuntime, syscall}

module _ ⦃p : Platform⦄ {K : Type 0} (sys : Syscalls K) {T : Type 0} (store : CborStore sys T) where
  -- `fvm::sself::root()`, with the conversion of its error
  abbrev read_root : (String → ActorError) → Action (FvmRuntime K) p.Cid
  read_root f rt = lift (map_err f (sys.self_root rt.kernel)) rt

  -- the state at a root: `get_cbor`, with `m` for its error, and `expect`
  abbrev read_state : String → p.Cid → Action (FvmRuntime K) T
  read_state m root =
      (λ rt. lift (map_err (λ _. ActorError.illegal_argument m) (store.get_cbor root rt.kernel)) rt)
      >>= λ found. expect found "State does not exist for actor state root"

  -- `put_cbor` and `set_root`, with `m` for the error of the first
  unfoldable pub write_state : String → T → Action (FvmRuntime K) (Unit {0})
  write_state m obj = do
    new_root ← syscall sys (λ e. ActorError.illegal_argument (concat m e)) (store.put_cbor obj)
    syscall sys ActorError.from_state_update_error (sys.set_root new_root)

  unfoldable pub create : T → Action (FvmRuntime K) (Unit {0})
  create obj = do
    root ← read_root ActorError.from_state_read_error
    choose (same_cid root sys.empty_arr_cid)
        (write_state "failed to write actor state during creation: " obj)
        (raise (
          ActorError.illegal_state
            (concat "failed to create state; expected empty array CID, got: " (p.show_cid root))))

  unfoldable pub state : Action (FvmRuntime K) T
  state = do
    root ← read_root ActorError.from_state_read_error
    read_state "failed to get actor for Readonly state" root

  -- what `transaction` reads before it calls the closure
  unfoldable pub load_state : Action (FvmRuntime K) T
  load_state = do
    root ← read_root (λ _. ActorError.illegal_argument "failed to get actor root state CID")
    read_state "failed to get actor state" root

  -- what it does with the result of the closure, the flag being cleared
  unfoldable pub commit : {R : Type 0} → Outcome R → T → Action (FvmRuntime K) R
  commit (done r) st = do write_state "failed to write actor state in transaction: " st; pure r
  commit (fail e) st = raise e
  commit (panic m) st = abort m

  -- A panic of the closure ends the message, so the flag is not cleared.
  abbrev pub clear : {R : Type 0} → Outcome R → FvmRuntime K → FvmRuntime K
  clear (panic m) rt = rt
  clear other rt = record rt { in_transaction = false }

  -- the closure, on the state that was read, and what follows it
  abbrev pub run_closure : {R : Type 0} → Action (T × FvmRuntime K) R → T → Action (FvmRuntime K) R
  run_closure f st rt =
      let (r, after) = f (st, record rt { in_transaction = true }) in
      commit r after.0 (clear r after.1)

  unfoldable pub transaction : {R : Type 0} → Action (T × FvmRuntime K) R → Action (FvmRuntime K) R
  transaction f = load_state >>= run_closure f

  abbrev pub fvm_state_runtime : StateRuntime (FvmRuntime K) T
  fvm_state_runtime = record { create = create; state = state; transaction = transaction }
