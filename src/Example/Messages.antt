-- ===== src/Example/Messages.antt =====
-- A whole message to the example actor: from the entry point on the FVM to the state that it leaves.
use fvm_utils.Base.{ℕ, ◌+◌, ◌≡◌, ◌≢◌, ◌≤◌, refl, true, false, some, ok}
use fvm_utils.Platform.{Platform, IpldBlock}
use fvm_utils.Action.{done}
use fvm_utils.Builtin.{first_exported_method_number}
use fvm_utils.Downcast.{HamtError}
use fvm_utils.Hamt.{Blocks, Hamt, Contents, put_entry}
use fvm_utils.Fvm.Kernel.{Syscalls, CborStore}
use fvm_utils.Fvm.Instance.{FvmRuntime, fvm_runtime, default}
use fvm_utils.Fvm.State.{state, fvm_state_runtime}
use fvm_utils.Fvm.Transactions.{Holds, Writes}
use fvm_utils.Fvm.Trampoline.{trampoline, returned}
use fvm_utils.Fvm.Validation.{ends_without_data}
use fvm_utils.Example.{State, User, Setting, UserPersistParam, upsert_user, invoke}
use fvm_utils.Example.Laws.{Users, user_of}
use fvm_utils.Example.OnFvm.{inside, persist_commits}
use fvm_utils.Example.Calls.{invoke-persist}

module _ ⦃p : Platform⦄ (setting : Setting) {K : Type 0} (sys : Syscalls K)
    (store : CborStore sys State) {blocks : Blocks (FvmRuntime K)}
    (users : Hamt blocks p.Cid HamtError User) where
  -- the kernel `k` brings a message with the number of `Persist` and with `param` in the block `id`
  pub record Brings (id : ℕ) (param : UserPersistParam) (k : K) : Type 0 where
    pub block : IpldBlock
    pub params : sys.params_raw id k ≡ some (some block)
    pub number : sys.method_number k ≡ setting.persist_number
    pub exported : first_exported_method_number ≤ setting.persist_number
    pub no_constructor : p.method_constructor ≢ setting.persist_number
    pub decoded : setting.decode_param block ≡ ok param

  -- A message with the number of `Persist`, in the exported range and not the constructor's, and with a
  -- parameter that decodes, whoever sends it, ends with the identifier of no data, where the state can be
  -- read, its map of users is in the store, the user can be put and the call be counted without the
  -- runtime's flag of the validated caller being cleared, and the kernel writes without taking blocks
  -- away. The state that is read afterwards has one more call counted, and the user under the
  -- sender's address with every other user as it was.
  pub message_persists :
      (id : ℕ) (param : UserPersistParam) (k k' : K) (rt' : FvmRuntime K) (c c' : p.Cid)
      (st st' : State) (f : Contents User)
      → Brings id param k
      → Holds sys store (default k) c st
      → Users setting users st f (inside setting sys store users (default k))
      → upsert_user setting users
          (p.new_id (sys.msg_caller k))
          param.name
          st
          (inside setting sys store users (default k))
        ≡ (some (ok tt), st', rt')
      → rt'.caller_validated ≡ true
      → Writes sys store st' rt'.kernel c' k'
      → let after = record rt' { kernel = k'; in_transaction = false } in
        blocks.Extends rt' after
        → (trampoline sys
              (invoke setting users (fvm_runtime sys) (fvm_state_runtime sys store))
              id
              k
            ≡ (returned sys.no_data_block_id, k'))
          × (state sys store after ≡ (done st', after))
          × (st'.call_count ≡ st.call_count + 1)
          × Users setting users st'
              (put_entry f
                (p.address_bytes (p.new_id (sys.msg_caller k)))
                (some (user_of setting users (p.new_id (sys.msg_caller k)) param.name)))
              after
  unfolding default
  message_persists id param k k' rt' c c' st st' f m held stored ran flag wrote grows =
      let start : FvmRuntime K = default k in
      let (fine, read, counted, recorded) =
        persist_commits setting sys store users param start rt' c c' st st' k' f refl held stored
          ran wrote grows in
      let invoked =
        invoke-persist setting sys store users param m.block start
          (record rt' { kernel = k'; in_transaction = false }) m.exported m.no_constructor m.decoded
          fine in
      (
        ends_without_data sys (invoke setting users (fvm_runtime sys) (fvm_state_runtime sys store))
            id k (some m.block) setting.persist_number
            (record rt' { kernel = k'; in_transaction = false }) m.params m.number invoked flag,
        read,
        counted,
        recorded,
      )
