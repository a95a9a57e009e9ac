-- ===== src/Example/SelfTests.antt =====
-- example/src/lib.rs: the actor's own tests. A panic is a test that does not pass.
use fvm_utils.Base.{
  ◌≡◌, ◌≢◌, ◌≤◌, refl, ℕ, Bool-cases, Option, none, some, List, [], ◌∷◌, String, Result, ok, err,
  nat_eq, arith, inl, inr,
}
use fvm_utils.Platform.{Platform, IpldBlock}
use fvm_utils.Action.{Outcome, done, fail, panic, Action, assert, ◌>>=◌, ◌>>◌}
use fvm_utils.Builtin.{ActorType, first_exported_method_number}
use fvm_utils.Downcast.{HamtError}
use fvm_utils.Hamt.{Blocks, Hamt}
use fvm_utils.Mock.Codes.{actor_types, type_of_code, init_actor_code_id, system_actor_code_id}
use fvm_utils.Mock.Core.{MockRuntime, new}
use fvm_utils.Mock.Setup.{
  set_caller, expect_validate_caller_addr, expect_validate_caller_any, call, verify,
}
use fvm_utils.Mock.Expectations.{verify_expectations, no_expectations}
use fvm_utils.Mock.State.{MockStore, state}
use fvm_utils.Mock.Calls.{state-Holds}
use fvm_utils.Example.{State, User, Setting, UserPersistParam}
use fvm_utils.Example.OnMock.{mock_actor, Serving, Keeps, constructor_call}
use fvm_utils.Example.OnMock.Persisting.{persist_call}

-- `unwrap` on the result of a call
abbrev pub unwrap {ℓ} : {S : Type 0} {A : Type ℓ} → Outcome A × S → Outcome A × S
unwrap (done a, s) = (done a, s)
unwrap (fail e, s) = (panic "called `Result::unwrap()` on an `Err` value", s)
unwrap (panic m, s) = (panic m, s)

-- `ok`, where an error is a panic of `unwrap`
abbrev pub unwrap_result : {A S : Type 0} → Result A String → Action S A
unwrap_result (ok a) s = (done a, s)
unwrap_result (err e) s = (panic e, s)

abbrev pub sample_param : UserPersistParam
sample_param = record { name = "sample" }

-- the type of the code of the init actor in the tests
init_known :
    ⦃p : Platform⦄ (make_builtin : String → p.Cid)
    → (t : ActorType) × (type_of_code (init_actor_code_id make_builtin) (actor_types make_builtin)
        ≡ some t)
unfolding type_of_code actor_types
init_known ⦃p⦄ make_builtin =
    let code = init_actor_code_id make_builtin in
    elim (Bool-cases (p.cid_eq.eq (system_actor_code_id make_builtin) code)) [
      | inl same ↦ (fvm_utils.Builtin.system, ground (arith, same))
      | inr other ↦ (fvm_utils.Builtin.init, ground (arith, other, p.cid_eq.eq_sound code code))
    ]

module _ ⦃p : Platform⦄ (setting : Setting) {BS : Type 0} (make_builtin : String → p.Cid)
    (default_cid : p.Cid) (blake2b_256 : List ℕ → List ℕ) (memory : BS)
    (encode_param : UserPersistParam → Result (Option IpldBlock) String)
    (states : MockStore BS State) {blocks : Blocks (MockRuntime BS)}
    (users : Hamt blocks p.Cid HamtError User) where
  unfoldable pub new_runtime : MockRuntime BS
  unfolding new
  new_runtime = record (new default_cid blake2b_256 memory) {
    receiver = p.new_id 1;
    caller = setting.init_actor_addr;
  }

  abbrev set_init_caller : Action (MockRuntime BS) (Unit {0})
  set_init_caller m =
      (done tt, set_caller (init_actor_code_id make_builtin) setting.init_actor_addr m)

  -- the steps that both tests begin with
  unfoldable pub construct : Action (MockRuntime BS) (Option IpldBlock)
  unfolding set_caller expect_validate_caller_addr
  construct = do
    set_init_caller
    expect_validate_caller_addr (setting.init_actor_addr ∷ [])
    λ m. unwrap (call (mock_actor setting make_builtin states users) p.method_constructor none m)

  unfoldable pub constructor_works : Outcome (Unit {0}) × MockRuntime BS
  unfolding construct new_runtime
  constructor_works = (construct >> verify) new_runtime

  unfoldable pub persists_works : Outcome (Unit {0}) × MockRuntime BS
  unfolding construct new_runtime expect_validate_caller_any
  persists_works =
      (do
        construct
        expect_validate_caller_any
        params ← unwrap_result (encode_param sample_param)
        λ m.
            unwrap
              (call (mock_actor setting make_builtin states users) setting.persist_number params m)
        verify
        st ← state states
        assert (nat_eq st.call_count 1) "assertion failed: state.call_count == 1")
        new_runtime

  -- the mock when the test calls the constructor
  abbrev asking : MockRuntime BS
  asking =
      (expect_validate_caller_addr (setting.init_actor_addr ∷ [])
        (set_caller (init_actor_code_id make_builtin) setting.init_actor_addr new_runtime)).1

  -- the mock once the constructor was called
  abbrev built_mock : p.Cid → BS → MockRuntime BS
  built_mock c b = record asking { expectations = no_expectations; store = b; state = some c }

  -- the mock when the test calls `Persist`
  abbrev expecting_any : MockRuntime BS → MockRuntime BS
  expecting_any m = (expect_validate_caller_any m).1

  module _ (serving : Serving setting make_builtin states users) (n : ℕ)
      (is_id : setting.init_actor_addr ≡ p.new_id n) where
    constructed :
        (st : State) × (c : p.Cid) × (b : BS) × (construct new_runtime
          ≡ (done none, built_mock c b))
        × (st.call_count ≡ 0)
        × Keeps setting make_builtin states users serving st (λ k. none) (built_mock c b)
    unfolding construct new_runtime new set_caller expect_validate_caller_addr
    constructed =
        let (t, known) = init_known make_builtin in
        let (st, c, b, ran, counted, kept) =
          constructor_call setting make_builtin states users serving n
            (init_actor_code_id make_builtin) t asking is_id refl
            (ground (arith, p.address_eq.eq_sound setting.init_actor_addr setting.init_actor_addr))
            known refl refl in
        (st, c, b, ground (arith, ran), counted, kept)

    finish :
        (args : IpldBlock) (m m' : MockRuntime BS) (st : State)
        → construct new_runtime ≡ (done none, m)
        → encode_param sample_param ≡ ok (some args)
        → call
            (mock_actor setting make_builtin states users)
            setting.persist_number
            (some args)
            (expecting_any m)
          ≡ (done none, m')
        → m'.expectations ≡ no_expectations
        → state states m' ≡ (done st, m')
        → st.call_count ≡ 1
        → persists_works.0 ≡ done tt
    unfolding persists_works expect_validate_caller_any verify verify_expectations
    finish args m m' st built encoded called settled read once =
        ground (arith, built, encoded, called, settled, read, once)

    persisted :
        (args : IpldBlock)
        → encode_param sample_param ≡ ok (some args)
        → setting.decode_param args ≡ ok sample_param
        → first_exported_method_number ≤ setting.persist_number
        → p.method_constructor ≢ setting.persist_number
        → persists_works.0 ≡ done tt
    unfolding expect_validate_caller_any new_runtime new expect_validate_caller_addr set_caller
    persisted args encoded decoded exported other =
        let (st, c, b, built, counted, (c0, root, found, held)) = constructed in
        let m = built_mock c b in
        let moved =
          users.Stored-Extends st.typed_hamt.cid (λ k. none) m (expecting_any m)
            (serving.store_only m (expecting_any m) refl) held in
        let (st', c', b', called, more, (c2, root', found', held')) =
          persist_call setting make_builtin states users serving sample_param args (expecting_any m)
            st (λ k. none) exported other decoded refl refl
            (omega (arith, counted, setting.usize_max_lem)) (c0, root, found, moved) in
        let m' = record m { store = b'; state = some c' } in
        finish args m m' st' built encoded called refl
          (state-Holds states m' c2 st' (root', found')) (omega (arith, more, counted))

    -- Where the store of the tests keeps what is put and can always be written, the address of the init actor is that of an id,
    -- and `Persist` has an exported number that is not the constructor's and a parameter that is read
    -- back as it was encoded, both tests of the actor pass.
    pub self_tests_pass :
        (args : IpldBlock)
        → encode_param sample_param ≡ ok (some args)
        → setting.decode_param args ≡ ok sample_param
        → first_exported_method_number ≤ setting.persist_number
        → p.method_constructor ≢ setting.persist_number
        → (constructor_works.0 ≡ done tt) × (persists_works.0 ≡ done tt)
    unfolding constructor_works verify verify_expectations new_runtime new
    self_tests_pass args encoded decoded exported other =
        let (st, c, b, built, counted, kept) = constructed in
        (ground (arith, built), persisted args encoded decoded exported other)
