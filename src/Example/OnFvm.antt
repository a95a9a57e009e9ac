-- ===== src/Example/OnFvm.antt =====
-- The methods of the example actor on the runtime of the FVM.
use fvm_utils.Base.{
  ◌+◌, ◌≡◌, ap, ◌∙◌, true, false, Option, none, some, String, Result, ok, err, arith,
}
use fvm_utils.Platform.{Platform, platform_codes}
use fvm_utils.ActorError.{ActorError}
use fvm_utils.Action.{Outcome, done, fail, >>=-done}
use fvm_utils.Downcast.{AnyError, HamtError, downcast_default, actor_error}
use fvm_utils.Hamt.{Blocks, Hamt, Contents, put_entry}
use fvm_utils.Fvm.Kernel.{Syscalls, CborStore}
use fvm_utils.Fvm.Instance.{
  FvmRuntime, fvm_runtime, caller, validate_immediate_caller_accept_any, assert_not_validated,
}
use fvm_utils.Fvm.State.{state, transaction, fvm_state_runtime}
use fvm_utils.Fvm.Transactions.{Holds, Writes, transaction_commits, transaction_fails}
use fvm_utils.TCid.{load, absence}
use fvm_utils.TCid.Laws.{load_absent}
use fvm_utils.TCid.Map
use fvm_utils.TCid.Map.{hamt_content}
use fvm_utils.Example.{
  State, User, Setting, UserPersistParam, upsert_user, persist, persist_closure, or_overflow,
}
use fvm_utils.Example.Laws.{Users, user_of, upsert_user_inserts}

module _ ⦃p : Platform⦄ (setting : Setting) {K : Type 0} (sys : Syscalls K)
    (store : CborStore sys State) {blocks : Blocks (FvmRuntime K)}
    (users : Hamt blocks p.Cid HamtError User) where
  abbrev pub sender : FvmRuntime K → p.Address
  sender rt = p.new_id (sys.msg_caller rt.kernel)

  -- the runtime as the closure of `persist` gets it
  abbrev pub inside : FvmRuntime K → FvmRuntime K
  inside rt = record rt { caller_validated = true; in_transaction = true }

  abbrev pub persist_on_fvm : UserPersistParam → FvmRuntime K → Outcome (Unit {0}) × FvmRuntime K
  persist_on_fvm param = persist setting users (fvm_runtime sys) (fvm_state_runtime sys store) param

  -- how the closure of `persist` ends
  abbrev pub ended :
      {A : Type 0}
      → Option (Result A AnyError) × (State × FvmRuntime K)
      → Outcome A × (State × FvmRuntime K)
  ended = or_overflow setting users (fvm_runtime sys) (fvm_state_runtime sys store)

  accepted :
      (rt : FvmRuntime K)
      → rt.caller_validated ≡ false
      → validate_immediate_caller_accept_any sys rt
        ≡ (done tt, record rt { caller_validated = true })
  unfolding validate_immediate_caller_accept_any assert_not_validated
  accepted rt h = ground (arith, h)

  -- `persist` up to its transaction
  pub persist-transaction :
      (param : UserPersistParam) (rt : FvmRuntime K)
      → rt.caller_validated ≡ false
      → persist_on_fvm param rt
        ≡ transaction sys store
            (persist_closure setting users
              (fvm_runtime sys)
              (fvm_state_runtime sys store)
              (sender rt)
              param)
            (record rt { caller_validated = true })
  unfolding persist caller
  persist-transaction param rt h =
      >>=-done (validate_immediate_caller_accept_any sys) _ (accepted rt h)

  -- Where no caller was validated yet, the state can be read, its map of users is in the store, the user
  -- can be put and the call be counted, and the kernel writes without taking blocks away, `persist`
  -- succeeds; the state that is read afterwards has one more call counted, and the user under the
  -- caller's address with every other user as it was.
  pub persist_commits :
      (param : UserPersistParam) (rt rt' : FvmRuntime K) (c c' : p.Cid) (st st' : State) (k : K)
      (f : Contents User)
      → rt.caller_validated ≡ false
      → Holds sys store rt c st
      → Users setting users st f (inside rt)
      → upsert_user setting users (sender rt) param.name st (inside rt) ≡ (some (ok tt), st', rt')
      → Writes sys store st' rt'.kernel c' k
      → let after = record rt' { kernel = k; in_transaction = false } in
        blocks.Extends rt' after
        → (persist_on_fvm param rt ≡ (done tt, after))
          × (state sys store after ≡ (done st', after))
          × (st'.call_count ≡ st.call_count + 1)
          × Users setting users st'
              (put_entry f
                (p.address_bytes (sender rt))
                (some (user_of setting users (sender rt) param.name)))
              after
  unfolding persist_closure
  persist_commits param rt rt' c c' st st' k f fresh held stored ran wrote grows =
      let after = record rt' { kernel = k; in_transaction = false } in
      let closure =
        persist_closure setting users (fvm_runtime sys) (fvm_state_runtime sys store) (sender rt)
          param in
      let step =
        upsert_user_inserts setting users (sender rt) param.name st st' (inside rt) rt' f stored
          ran in
      let (result, read) =
        transaction_commits sys store closure (record rt { caller_validated = true }) rt' c c' st
          st' tt k held (ap (λ q. ended (q.0, (q.1, q.2))) ran) wrote in
      (
        persist-transaction param rt fresh ∙ result,
        read,
        step.1,
        users.Stored-Extends st'.typed_hamt.cid
            (put_entry f (p.address_bytes (sender rt))
              (some (user_of setting users (sender rt) param.name)))
            rt' after grows step.0,
      )

  -- Where no caller was validated yet, the state can be read and its user cannot be put, `persist` fails with that error,
  -- downcast to the illegal state where it has no code of its own, and writes no state.
  pub persist_fails :
      (param : UserPersistParam) (rt rt' : FvmRuntime K) (c : p.Cid) (st st' : State) (e : AnyError)
      → rt.caller_validated ≡ false
      → Holds sys store rt c st
      → upsert_user setting users (sender rt) param.name st (inside rt) ≡ (some (err e), st', rt')
      → persist_on_fvm param rt ≡ (
        fail (
            downcast_default setting.texts e p.codes.usr_illegal_state
              "Failed to create SCA actor state"),
        record rt' { in_transaction = false },
      )
  unfolding persist_closure
  persist_fails param rt rt' c st st' e fresh held ran =
      persist-transaction param rt fresh
      ∙ transaction_fails sys store
          (persist_closure setting users (fvm_runtime sys) (fvm_state_runtime sys store) (sender rt)
            param)
          (record rt { caller_validated = true }) rt' c st st'
          (downcast_default setting.texts e p.codes.usr_illegal_state
            "Failed to create SCA actor state")
          held (ap (λ q. ended (q.0, (q.1, q.2))) ran)

  absent :
      (address : p.Address) (name : String) (st : State) (rt : FvmRuntime K)
      → Map.maybe_load setting.names users setting.width st.typed_hamt rt ≡ ok none
      → upsert_user setting users address name st rt
        ≡ (some (err (actor_error (absence setting.names st.typed_hamt))), st, rt)
  unfolding upsert_user load
  absent address name st rt h = ground (arith, h)

  -- Where no caller was validated yet and the state can be read, but its map of users is not in the
  -- store, `persist` fails with the code of an illegal state, and all that changes is that the
  -- caller is validated.
  pub persist_without_map :
      (param : UserPersistParam) (rt : FvmRuntime K) (c : p.Cid) (st : State)
      → rt.caller_validated ≡ false
      → Holds sys store rt c st
      → Map.maybe_load setting.names users setting.width st.typed_hamt (inside rt) ≡ ok none
      → (e : ActorError) × (persist_on_fvm param rt
          ≡ (fail e, record rt { caller_validated = true; in_transaction = false }))
        × (e.exit_code ≡ p.codes.usr_illegal_state)
  persist_without_map param rt c st fresh held missing =
      let content = hamt_content setting.names users setting.width in
      (
        downcast_default setting.texts (actor_error (absence setting.names st.typed_hamt))
            p.codes.usr_illegal_state "Failed to create SCA actor state",
        persist_fails param rt (inside rt) c st st
            (actor_error (absence setting.names st.typed_hamt)) fresh held
            (absent (sender rt) param.name st (inside rt) missing),
        (load_absent setting.names content setting.texts st.typed_hamt (inside rt)
            p.codes.usr_illegal_state "Failed to create SCA actor state" missing).1,
      )
