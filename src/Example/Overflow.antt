-- ===== src/Example/Overflow.antt =====
-- example/src/state.rs: `call_count += 1` where the count is the greatest `usize`, with the overflow checks
-- of example/build.rs.
use fvm_utils.Base.{ℕ, ◌≡◌, refl, ◌∙◌, true, false, Option, none, some, ok, arith, String, ◌≢◌, ◌≤◌}
use fvm_utils.Platform.{Platform, platform_codes, IpldBlock}
use fvm_utils.Action.{panic}
use fvm_utils.Downcast.{HamtError}
use fvm_utils.Hamt.{Blocks, Hamt}
use fvm_utils.Builtin.{first_exported_method_number}
use fvm_utils.Fvm.Kernel.{Syscalls, CborStore}
use fvm_utils.Fvm.Instance.{FvmRuntime, fvm_runtime, default}
use fvm_utils.Fvm.State.{commit, fvm_state_runtime}
use fvm_utils.Fvm.Transactions.{Holds, transaction-closure}
use fvm_utils.Fvm.Trampoline.{trampoline, finish, panicked, aborted}
use fvm_utils.TCid.{load}
use fvm_utils.TCid.Map.{hamt_content}
use fvm_utils.Shared.{restrict_internal_api}
use fvm_utils.Dispatch.{call_with, invoke_method, find_method, run_method}
use fvm_utils.Example.{
  State, User, Setting, UserPersistParam, upsert_user, count_and_save, count_call, persist_closure,
  invoke, methods,
}
use fvm_utils.Example.Laws.{user_of}
use fvm_utils.Example.OnFvm.{sender, inside, persist_on_fvm, persist-transaction}
use fvm_utils.Example.Messages.{Brings}

module _ ⦃p : Platform⦄ (setting : Setting) {K : Type 0} (sys : Syscalls K)
    (store : CborStore sys State) {blocks : Blocks (FvmRuntime K)}
    (users : Hamt blocks p.Cid HamtError User) where
  -- the user of the sender can be put in the map of users of the state
  abbrev pub Puts : UserPersistParam → State → FvmRuntime K → Type 0
  Puts param st rt =
      (m m' : users.Map) × (old : Option User) × (load setting.names
          (hamt_content setting.names users setting.width) st.typed_hamt rt
        ≡ ok m)
      × (users.set (p.address_bytes (sender setting sys store users rt))
            (user_of setting users (sender setting sys store users rt) param.name) m rt
          ≡ (ok old, m'))

  -- the panic of the addition
  abbrev overflow : String
  overflow = "attempt to add with overflow"

  upsert_overflows :
      (param : UserPersistParam) (st : State) (rt : FvmRuntime K)
      → st.call_count ≡ setting.usize_max
      → Puts param st rt
      → upsert_user setting users (sender setting sys store users rt) param.name st rt
        ≡ (none, st, rt)
  unfolding upsert_user count_and_save count_call
  upsert_overflows param st rt full (m, m', old, read, put) = ground (arith, full, read, put)

  persist_overflows :
      (param : UserPersistParam) (rt : FvmRuntime K) (c : p.Cid) (st : State)
      → rt.caller_validated ≡ false
      → Holds sys store rt c st
      → st.call_count ≡ setting.usize_max
      → Puts param st (inside setting sys store users rt)
      → persist_on_fvm setting sys store users param rt
        ≡ (panic overflow, inside setting sys store users rt)
  unfolding persist_closure commit
  persist_overflows param rt c st fresh held full puts =
      let within = inside setting sys store users rt in
      let ran = upsert_overflows param st within full puts in
      persist-transaction setting sys store users param rt fresh
      ∙ transaction-closure sys store
          (persist_closure setting users (fvm_runtime sys) (fvm_state_runtime sys store)
            (sender setting sys store users rt) param)
          (record rt { caller_validated = true }) c st held
      ∙ rw (ran, commit) refl

  invoke_overflows :
      (param : UserPersistParam) (b : IpldBlock) (rt rt' : FvmRuntime K)
      → first_exported_method_number ≤ setting.persist_number
      → p.method_constructor ≢ setting.persist_number
      → setting.decode_param b ≡ ok param
      → persist_on_fvm setting sys store users param rt ≡ (panic overflow, rt')
      → invoke setting users
          (fvm_runtime sys)
          (fvm_state_runtime sys store)
          setting.persist_number
          (some b)
          rt
        ≡ (panic overflow, rt')
  unfolding invoke methods invoke_method restrict_internal_api find_method run_method call_with
  invoke_overflows param b rt rt' exported other decoded ran =
      ground (arith, exported, other, decoded, ran)

  -- A message with the number of `Persist`, in the exported range and not the constructor's, and with a
  -- parameter that decodes, whoever sends it, is aborted as a failed assertion where the state counts
  -- as many calls as the greatest `usize` and the user can be put; the kernel stays as it was.
  pub message_overflows :
      (id : ℕ) (param : UserPersistParam) (k : K) (c : p.Cid) (st : State)
      → Brings setting sys store users id param k
      → Holds sys store (default k) c st
      → st.call_count ≡ setting.usize_max
      → Puts param st (inside setting sys store users (default k))
      → trampoline sys (invoke setting users (fvm_runtime sys) (fvm_state_runtime sys store)) id k
        ≡ (aborted p.codes.usr_assertion_failed (sys.panic_info "attempt to add with overflow"), k)
  unfolding default trampoline finish panicked
  message_overflows id param k c st m held full puts =
      let start : FvmRuntime K = default k in
      let ran =
        invoke_overflows param m.block start (inside setting sys store users start) m.exported
          m.no_constructor m.decoded (persist_overflows param start c st refl held full puts) in
      ground (arith, ran, m.params, m.number)
