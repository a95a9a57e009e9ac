-- ===== src/Example/Stages.antt =====
-- When the example actor has a state: the constructor succeeds only before, and `persist` only after.
use fvm_utils.Base.{
  ◌≡◌, ◌≢◌, refl, sym, ap, ◌∙◌, none, some, [], ◌∷◌, String, Result, ok, err, arith, false, true,
}
use fvm_utils.Platform.{Platform}
use fvm_utils.Action.{done, Action, >>=-parts, ◌>>=◌}
use fvm_utils.Downcast.{AnyError, HamtError}
use fvm_utils.Hamt.{Blocks, Hamt, make_empty_map}
use fvm_utils.TCid.Map
use fvm_utils.Fvm.Kernel.{Syscalls, CborStore}
use fvm_utils.Fvm.Instance.{FvmRuntime, fvm_runtime, default, validate_immediate_caller_is}
use fvm_utils.Fvm.State.{create, fvm_state_runtime}
use fvm_utils.Fvm.Transactions.{Holds, Writes-Holds}
use fvm_utils.Fvm.Committed.{create_done, transaction_held}
use fvm_utils.Example.{
  State, User, Setting, UserPersistParam, new, constructor, persist_closure, or_illegal_state,
}
use fvm_utils.Example.Laws.{new_empty}
use fvm_utils.Example.OnFvm.{sender, persist_on_fvm, persist-transaction}
use fvm_utils.Example.Calls.{construct_on_fvm}
use fvm_utils.Example.History.{Chain, Records, next_message}

-- What the actor relies on besides: no state is encoded as the empty array, whose identifier is the
-- root of an actor without a state, and writing a map to the store does not set the root.
pub record Separate ⦃p : Platform⦄ {K : Type 0} (sys : Syscalls K) (store : CborStore sys State)
    {blocks : Blocks (FvmRuntime K)} (users : Hamt blocks p.Cid HamtError User) : Type 0 where
  pub no_state : (k : K) (st : State) → store.get_cbor sys.empty_arr_cid k ≢ ok (some st)
  pub flush_root :
      (m : users.Map) (s : FvmRuntime K)
      → sys.self_root (users.flush m s).2.kernel ≡ sys.self_root s.kernel

module _ ⦃p : Platform⦄ (setting : Setting) {K : Type 0} (sys : Syscalls K)
    (store : CborStore sys State) {blocks : Blocks (FvmRuntime K)}
    (users : Hamt blocks p.Cid HamtError User) (chain : Chain sys store blocks) where
  -- the actor has no state yet
  abbrev pub Unborn : K → Type 0
  Unborn k = sys.self_root k ≡ ok sys.empty_arr_cid

  new_root :
      (separate : Separate sys store users) (st : State) (s s' : FvmRuntime K)
      → new setting users s ≡ (ok st, s')
      → sys.self_root s'.kernel ≡ sys.self_root s.kernel
  unfolding new Map.new_hamt make_empty_map
  new_root separate st s s' h =
      ground (arith, separate.flush_root (users.new_with_bit_width setting.width) s)

  made_well :
      (m : String) (o : Result State AnyError × FvmRuntime K) (st : State) (s : FvmRuntime K)
      → or_illegal_state setting users (fvm_runtime sys) (fvm_state_runtime sys store) m o
        ≡ (done st, s)
      → o ≡ (ok st, s)
  made_well m (ok x, s1) st s h = ground arith
  made_well m (err e, s1) st s h = absurd (ground arith)

  checked_kernel :
      (rt s1 : FvmRuntime K)
      → validate_immediate_caller_is sys (setting.init_actor_addr ∷ []) rt ≡ (done tt, s1)
      → s1.kernel ≡ rt.kernel
  unfolding validate_immediate_caller_is
  checked_kernel rt s1 h = ground arith

  -- the constructor up to the creation of the state
  constructed_parts :
      (rt rt' : FvmRuntime K)
      → construct_on_fvm setting sys store users rt ≡ (done tt, rt')
      → (s1 s2 : FvmRuntime K) × (st : State) × (s1.kernel ≡ rt.kernel)
        × (new setting users s1 ≡ (ok st, s2))
        × (create sys store st s2 ≡ (done tt, rt'))
  unfolding constructor
  constructed_parts rt rt' h =
      let check = validate_immediate_caller_is sys (setting.init_actor_addr ∷ []) in
      let make : Action (FvmRuntime K) State = λ s.
        or_illegal_state setting users (fvm_runtime sys) (fvm_state_runtime sys store)
          "Failed to create actor state" (new setting users s) in
      let (u, s1, checked, rest) = >>=-parts check (λ _. make >>= create sys store) rt rt' tt h in
      let (st, s2, made, wrote) = >>=-parts make (create sys store) s1 rt' tt rest in
      (
        s1,
        s2,
        st,
        checked_kernel rt s1 checked,
        made_well "Failed to create actor state" (new setting users s1) st s2 made,
        wrote,
      )

  pub Holds-root :
      (separate : Separate sys store users) (rt : FvmRuntime K) (c : p.Cid) (st : State)
      → Holds sys store rt c st
      → ¬ Unborn rt.kernel
  Holds-root separate rt c st (root, read) unborn =
      separate.no_state rt.kernel st
        (ap (λ d. store.get_cbor d rt.kernel) (cc (root, unborn)) ∙ read)

  -- The constructor succeeds only where the actor has no state, and leaves one that has counted no call and
  -- an empty map of users.
  pub constructed-Records :
      (separate : Separate sys store users) (k k' : K) (rt : FvmRuntime K)
      → construct_on_fvm setting sys store users (default k) ≡ (done tt, rt)
      → chain.Between rt.kernel k'
      → Unborn k × Records setting sys store users chain 0 (λ key. none) k'
  unfolding default
  constructed-Records separate k k' rt h between =
      let (s1, s2, st, same, made, wrote) = constructed_parts (default k) rt h in
      let (c, c', k2, root, fresh, writes, left) = create_done sys store st s2 rt wrote in
      let empty : c ≡ sys.empty_arr_cid = (p.cid_eq.eq_sound c sys.empty_arr_cid).0 fresh in
      let after = record s2 { kernel = k2; in_transaction = false } in
      let (none_yet, no_users) = new_empty setting users st s1 s2 made in
      (
        sym (ap sys.self_root same) ∙ sym (new_root separate st s1 s2 made) ∙ root ∙ ap ok empty,
        next_message setting sys store users chain 0 (λ key. none) rt k' c' st between
            (Writes-Holds sys store st s2.kernel c' k2 rt writes (ap (λ r. r.kernel) left))
            (users.Stored-Extends st.typed_hamt.cid (λ key. none) after rt
              (chain.same_blocks after rt (sym (ap (λ r. r.kernel) left)))
              (users.Stored-Extends st.typed_hamt.cid (λ key. none) s2 after
                (chain.writes_grow st s2 c' k2 writes) no_users))
            (omega (arith, none_yet)),
      )

  -- `persist` succeeds only where the actor has a state.
  pub persisted_held :
      (param : UserPersistParam) (k : K) (rt : FvmRuntime K)
      → persist_on_fvm setting sys store users param (default k) ≡ (done tt, rt)
      → (c : p.Cid) × (st : State) × Holds sys store (default k) c st
  unfolding default
  persisted_held param k rt h =
      let start : FvmRuntime K = default k in
      transaction_held sys store
        (persist_closure setting users (fvm_runtime sys) (fvm_state_runtime sys store)
          (sender setting sys store users start) param)
        (record start { caller_validated = true }) rt tt
        (sym (persist-transaction setting sys store users param start refl) ∙ h)
