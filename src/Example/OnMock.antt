-- ===== src/Example/OnMock.antt =====
-- example/src/lib.rs: the actor on the runtime of the tests, and its own tests. The store of the tests is
-- a parameter that keeps what is put and can always be written.
pub mod Persisting
use fvm_utils.Base.{
  ℕ, ◌+◌, ◌%◌, ◌^◌, ◌≡◌, ◌≢◌, ◌≤◌, ◌<◌, refl, ap, true, false, Option, none, some, List, [], ◌∷◌,
  String, ok, arith,
}
use fvm_utils.Platform.{Platform, IpldBlock, platform_codes}
use fvm_utils.Action.{done}
use fvm_utils.Downcast.{HamtError}
use fvm_utils.Hamt.{
  Blocks, Hamt, Contents, put_entry, make_empty_map, make_map_with_root_and_bitwidth,
}
use fvm_utils.TCid.{load}
use fvm_utils.TCid.Map
use fvm_utils.Runtime.{ActorCode}
use fvm_utils.Mock.Core.{MockRuntime, require_in_call, caller}
use fvm_utils.Mock.Instance.{
  mock_runtime, get_actor_code_cid, resolve_builtin_actor_type, validate_immediate_caller_is,
  validate_immediate_caller_accept_any,
}
use fvm_utils.Mock.State.{
  MockStore, mock_state_runtime, create, replace_state, store_put, transaction,
}
use fvm_utils.Mock.Setup.{call}
use fvm_utils.Mock.Calls.{mock_transaction_commits}
use fvm_utils.Mock.Codes.{actor_types, type_of_code}
use fvm_utils.Builtin.{ActorType, first_exported_method_number}
use fvm_utils.Shared.{restrict_internal_api}
use fvm_utils.Dispatch.{
  invoke_method, find_method, run_method, call_with, call_without, maybe_into_block,
}
use fvm_utils.Example.{
  State, User, Setting, UserPersistParam, new, upsert_user, count_and_save, count_call, save,
  invoke, methods, constructor, persist, persist_closure, or_illegal_state,
}
use fvm_utils.Example.Laws.{Users, new_empty, user_of, upsert_user_inserts}

module _ ⦃p : Platform⦄ (setting : Setting) {BS : Type 0} (make_builtin : String → p.Cid)
    (states : MockStore BS State) {blocks : Blocks (MockRuntime BS)}
    (users : Hamt blocks p.Cid HamtError User) where
  -- the actor as the tests call it
  abbrev pub mock_actor : ActorCode (MockRuntime BS)
  mock_actor = invoke setting users (mock_runtime make_builtin) (mock_state_runtime states)

  -- What is relied on of the store of the tests: maps and states can be put in it, which changes nothing else of
  -- the mock and takes no block away, and a map that it has can be loaded and changed.
  pub record Serving : Type 0 where
    pub flushes :
        (m : users.Map) (s : MockRuntime BS)
        → (c : p.Cid) × (m' : users.Map) × (b : BS) × (users.flush m s
            ≡ (ok c, m', record s { store = b }))
    pub loads :
        (c : p.Cid) (f : Contents User) (s : MockRuntime BS)
        → users.Stored setting.width c f s
        → (m : users.Map) × (users.load_with_bit_width c setting.width s ≡ ok m)
    pub sets :
        (k : List ℕ) (v : User) (m : users.Map) (f : Contents User) (s : MockRuntime BS)
        → users.Has setting.width m f s
        → (old : Option User) × (m' : users.Map) × (users.set k v m s ≡ (ok old, m'))
    pub puts : (x : State) (b : BS) → (c : p.Cid) × (b' : BS) × (states.put_cbor x b ≡ (ok c, b'))
    pub store_only : (s s' : MockRuntime BS) → s.store ≡ s'.store → blocks.Extends s s'
    pub puts_grow :
        (x : State) (c : p.Cid) (s s' : MockRuntime BS)
        → states.put_cbor x s.store ≡ (ok c, s'.store)
        → blocks.Extends s s'

  module _ (serving : Serving) where
    new_made :
        (s : MockRuntime BS)
        → (st : State) × (b : BS) × (new setting users s ≡ (ok st, record s { store = b }))
    unfolding new Map.new_hamt make_empty_map
    new_made s =
        let (c, m', b, e) = serving.flushes (users.new_with_bit_width setting.width) s in
        (record { call_count = 0; typed_hamt = record { cid = c } }, b, ground (arith, e))

    pub user_put :
        (address : p.Address) (name : String) (st : State) (f : Contents User) (s : MockRuntime BS)
        → st.call_count < setting.usize_max
        → Users setting users st f s
        → (st' : State) × (b : BS) × (upsert_user setting users address name st s
            ≡ (some (ok tt), st', record s { store = b }))
    unfolding upsert_user count_and_save count_call save load Map.maybe_load Map.found_map Map.flush
        make_map_with_root_and_bitwidth
    user_put address name st f s room held =
        let (m, read) = serving.loads st.typed_hamt.cid f s held in
        let has = users.load-Has st.typed_hamt.cid setting.width m f s read held in
        let (old, m', put) =
          serving.sets (p.address_bytes address) (record { name = name; owner = address }) m f s
            has in
        let (c, m'', b, wrote) = serving.flushes m' s in
        (
          record { call_count = st.call_count + 1; typed_hamt = record { cid = c } },
          b,
          ground (arith, room, read, put, wrote),
        )

    -- The state is under the root, and the store has its map of users.
    abbrev pub Keeps : State → Contents User → MockRuntime BS → Type 0
    Keeps st f m =
        (c : p.Cid) × (m.state ≡ some c)
        × (states.get_cbor c m.store ≡ ok (some st))
        × Users setting users st f m

    -- the mock inside of a call, after a validation by address
    abbrev addr_validated : MockRuntime BS → MockRuntime BS
    addr_validated m = record m {
      in_call = true;
      expectations = record m.expectations { expect_validate_caller_addr = none };
    }

    constructed :
        (n : ℕ) (code : p.Cid) (t : ActorType) (m : MockRuntime BS) (st : State) (c : p.Cid)
        (b b' : BS)
        → setting.init_actor_addr ≡ p.new_id n
        → m.caller ≡ setting.init_actor_addr
        → m.actor_code_cids setting.init_actor_addr ≡ some code
        → type_of_code code (actor_types make_builtin) ≡ some t
        → m.expectations.expect_validate_caller_addr ≡ some (setting.init_actor_addr ∷ [])
        → m.state ≡ none
        → new setting users (addr_validated m) ≡ (ok st, record (addr_validated m) { store = b })
        → states.put_cbor st b ≡ (ok c, b')
        → call mock_actor p.method_constructor none m
          ≡ (done none, record (addr_validated m) { in_call = false; store = b'; state = some c })
    unfolding call invoke methods invoke_method restrict_internal_api find_method run_method
        call_without maybe_into_block require_in_call caller get_actor_code_cid
        resolve_builtin_actor_type constructor validate_immediate_caller_is create replace_state
        store_put
    constructed n code t m st c b b' is_id is_init known builtin expected fresh made put = ground (
      arith,
      is_id,
      is_init,
      known,
      builtin,
      expected,
      fresh,
      made,
      put,
      p.actor_id-new_id n,
      p.address_eq.eq_sound setting.init_actor_addr setting.init_actor_addr,
    )

    -- A call to the constructor from the init actor, with a known code and its validation expected, where
    -- there is no state yet, succeeds: a state with no call counted and no users is kept, the
    -- expectation is used up, and nothing else changes.
    pub constructor_call :
        (n : ℕ) (code : p.Cid) (t : ActorType) (m : MockRuntime BS)
        → setting.init_actor_addr ≡ p.new_id n
        → m.caller ≡ setting.init_actor_addr
        → m.actor_code_cids setting.init_actor_addr ≡ some code
        → type_of_code code (actor_types make_builtin) ≡ some t
        → m.expectations.expect_validate_caller_addr ≡ some (setting.init_actor_addr ∷ [])
        → m.state ≡ none
        → (st : State) × (c : p.Cid) × (b : BS) × (call mock_actor p.method_constructor none m
            ≡ (done none, record (addr_validated m) { in_call = false; store = b; state = some c }))
          × (st.call_count ≡ 0)
          × Keeps st
              (λ k. none)
              (record (addr_validated m) { in_call = false; store = b; state = some c })
    constructor_call n code t m is_id is_init known builtin expected fresh =
        let ready = addr_validated m in
        let (st, b, made) = new_made ready in
        let (c, b', put) = serving.puts st b in
        let after = record ready { in_call = false; store = b'; state = some c } in
        let (counted, empty) = new_empty setting users st ready (record ready { store = b }) made in
        (
          st,
          c,
          b',
          constructed n code t m st c b b' is_id is_init known builtin expected fresh made put,
          counted,
          (
            c,
            refl,
            states.get-put st c b b' put,
            users.Stored-Extends st.typed_hamt.cid (λ k. none) (record ready { store = b }) after
                (serving.puts_grow st c (record ready { store = b }) after put) empty,
          ),
        )
