-- ===== src/Example/Calls.antt =====
-- The constructor of the example actor and the dispatch to its methods, on the runtime of the FVM.
use fvm_utils.Base.{◌≡◌, ◌≢◌, ◌≤◌, ap, ◌∙◌, true, false, none, some, [], ◌∷◌, ok, arith, concat}
use fvm_utils.Platform.{Platform, IpldBlock, platform_codes, same_address, same_cid}
use fvm_utils.ActorError
use fvm_utils.ActorError.{ActorError}
use fvm_utils.Action.{Outcome, done, fail, >>=-done}
use fvm_utils.Builtin.{first_exported_method_number}
use fvm_utils.Downcast.{HamtError}
use fvm_utils.Hamt.{Blocks, Hamt}
use fvm_utils.Dispatch.{call_with, invoke_method, find_method, run_method, maybe_into_block}
use fvm_utils.Shared.{restrict_internal_api}
use fvm_utils.Fvm.Kernel.{Syscalls, CborStore}
use fvm_utils.Fvm.Instance.{
  FvmRuntime, fvm_runtime, caller, validate_immediate_caller_is, assert_not_validated,
}
use fvm_utils.Fvm.State.{create, state, fvm_state_runtime}
use fvm_utils.Fvm.Transactions.{Writes, create_once}
use fvm_utils.Example.{
  State, User, Setting, UserPersistParam, new, constructor, or_illegal_state, methods, invoke,
}
use fvm_utils.Example.Laws.{Users, new_empty}
use fvm_utils.Example.OnFvm.{sender, persist_on_fvm}

module _ ⦃p : Platform⦄ (setting : Setting) {K : Type 0} (sys : Syscalls K)
    (store : CborStore sys State) {blocks : Blocks (FvmRuntime K)}
    (users : Hamt blocks p.Cid HamtError User) where
  abbrev pub construct_on_fvm : FvmRuntime K → Outcome (Unit {0}) × FvmRuntime K
  construct_on_fvm = constructor setting users (fvm_runtime sys) (fvm_state_runtime sys store)

  init_accepted :
      (rt : FvmRuntime K)
      → rt.caller_validated ≡ false
      → same_address setting.init_actor_addr (sender setting sys store users rt) ≡ true
      → validate_immediate_caller_is sys (setting.init_actor_addr ∷ []) rt
        ≡ (done tt, record rt { caller_validated = true })
  unfolding validate_immediate_caller_is assert_not_validated caller
  init_accepted rt h e = ground (arith, h, e)

  -- A caller that is not the init actor cannot construct the actor: the call fails as forbidden where
  -- no caller was validated yet, and changes nothing.
  pub constructor_forbidden :
      (rt : FvmRuntime K)
      → rt.caller_validated ≡ false
      → same_address setting.init_actor_addr (sender setting sys store users rt) ≡ false
      → construct_on_fvm rt ≡ (
        fail (
            ActorError.forbidden (
              concat "caller " (
                concat
                  (p.show_address (sender setting sys store users rt))
                  " is not one of supported"))),
        rt,
      )
  unfolding constructor validate_immediate_caller_is assert_not_validated caller
  constructor_forbidden rt h e = ground (arith, h, e)

  created :
      (st : State) (rt' : FvmRuntime K) (c c' : p.Cid) (k : K)
      → sys.self_root rt'.kernel ≡ ok c
      → same_cid c sys.empty_arr_cid ≡ true
      → Writes sys store st rt'.kernel c' k
      → create sys store st rt' ≡ (done tt, record rt' { kernel = k })
  created st rt' c c' k root fresh wrote =
      let once = create_once sys store st rt' c c' k root wrote in
      ground (arith, once.0, once.1, fresh)

  -- Where no caller was validated yet, the caller is the init actor, the map of users can be made, the
  -- actor has no state yet and the kernel writes without taking blocks away, the constructor succeeds;
  -- the state that is read afterwards has counted no call, and its map of users is empty and in the
  -- store.
  pub constructor_creates :
      (rt rt' : FvmRuntime K) (st : State) (c c' : p.Cid) (k : K)
      → rt.caller_validated ≡ false
      → same_address setting.init_actor_addr (sender setting sys store users rt) ≡ true
      → new setting users (record rt { caller_validated = true }) ≡ (ok st, rt')
      → sys.self_root rt'.kernel ≡ ok c
      → same_cid c sys.empty_arr_cid ≡ true
      → Writes sys store st rt'.kernel c' k
      → let after = record rt' { kernel = k } in
        blocks.Extends rt' after
        → (construct_on_fvm rt ≡ (done tt, after))
          × (state sys store after ≡ (done st, after))
          × (st.call_count ≡ 0)
          × Users setting users st (λ key. none) after
  unfolding constructor
  constructor_creates rt rt' st c c' k fresh is_init made root empty wrote grows =
      let after = record rt' { kernel = k } in
      let (none_yet, no_users) =
        new_empty setting users st (record rt { caller_validated = true }) rt' made in
      (
        >>=-done (validate_immediate_caller_is sys (setting.init_actor_addr ∷ [])) _
              (init_accepted rt fresh is_init)
            ∙ >>=-done
                (λ s.
                  or_illegal_state setting users (fvm_runtime sys) (fvm_state_runtime sys store)
                    "Failed to create actor state" (new setting users s))
                (create sys store)
                (ap
                  (or_illegal_state setting users (fvm_runtime sys) (fvm_state_runtime sys store)
                    "Failed to create actor state")
                  made)
            ∙ created st rt' c c' k root empty wrote,
        (create_once sys store st rt' c c' k root wrote).2,
        none_yet,
        users.Stored-Extends st.typed_hamt.cid (λ key. none) rt' after grows no_users,
      )

  -- A message with the number of `Persist`, which is of the exported range and not the constructor's,
  -- and with a block that decodes, runs `persist` on what was decoded, whoever sends it; a value is
  -- returned as no block.
  pub invoke-persist :
      (param : UserPersistParam) (b : IpldBlock) (rt rt' : FvmRuntime K)
      → first_exported_method_number ≤ setting.persist_number
      → p.method_constructor ≢ setting.persist_number
      → setting.decode_param b ≡ ok param
      → persist_on_fvm setting sys store users param rt ≡ (done tt, rt')
      → invoke setting users
          (fvm_runtime sys)
          (fvm_state_runtime sys store)
          setting.persist_number
          (some b)
          rt
        ≡ (done none, rt')
  unfolding invoke methods invoke_method restrict_internal_api find_method run_method call_with
      maybe_into_block
  invoke-persist param b rt rt' exported other decoded ran =
      ground (arith, exported, other, decoded, ran)
