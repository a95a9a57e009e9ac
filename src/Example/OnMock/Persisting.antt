-- ===== src/Example/OnMock/Persisting.antt =====
-- example/src/lib.rs: a call to `Persist` on the runtime of the tests.
use fvm_utils.Base.{◌+◌, ◌≡◌, ◌≢◌, ◌≤◌, ◌<◌, refl, ap, true, false, none, some, String, ok, arith}
use fvm_utils.Platform.{Platform, IpldBlock, platform_codes}
use fvm_utils.Action.{done}
use fvm_utils.Downcast.{HamtError}
use fvm_utils.Hamt.{Blocks, Hamt, Contents, put_entry}
use fvm_utils.Mock.Core.{MockRuntime, require_in_call, caller}
use fvm_utils.Mock.Instance.{mock_runtime, validate_immediate_caller_accept_any}
use fvm_utils.Mock.State.{MockStore, mock_state_runtime, transaction}
use fvm_utils.Mock.Setup.{call}
use fvm_utils.Mock.Calls.{mock_transaction_commits}
use fvm_utils.Builtin.{first_exported_method_number}
use fvm_utils.Shared.{restrict_internal_api}
use fvm_utils.Dispatch.{invoke_method, find_method, run_method, call_with, maybe_into_block}
use fvm_utils.Example.{
  State, User, Setting, UserPersistParam, invoke, methods, persist, persist_closure, or_overflow,
}
use fvm_utils.Example.Laws.{user_of, upsert_user_inserts}
use fvm_utils.Example.OnMock.{mock_actor, Serving, user_put, Keeps}

module _ ⦃p : Platform⦄ (setting : Setting) {BS : Type 0} (make_builtin : String → p.Cid)
    (states : MockStore BS State) {blocks : Blocks (MockRuntime BS)}
    (users : Hamt blocks p.Cid HamtError User) where
  module _ (serving : Serving setting make_builtin states users) where
    -- the mock inside of a call, after a validation of any caller
    abbrev pub any_validated : MockRuntime BS → MockRuntime BS
    any_validated m = record m {
      in_call = true;
      expectations = record m.expectations { expect_validate_caller_any = false };
    }

    -- the mock after a call to `Persist` that succeeds
    abbrev pub after_persist : p.Cid → BS → MockRuntime BS → MockRuntime BS
    after_persist c b m = record (any_validated m) {
      in_call = false;
      in_transaction = false;
      store = b;
      state = some c;
    }

    persisted :
        (param : UserPersistParam) (args : IpldBlock) (m : MockRuntime BS) (c : p.Cid) (b : BS)
        → first_exported_method_number ≤ setting.persist_number
        → p.method_constructor ≢ setting.persist_number
        → setting.decode_param args ≡ ok param
        → m.expectations.expect_validate_caller_any ≡ true
        → transaction states
            (persist_closure setting users
              (mock_runtime make_builtin)
              (mock_state_runtime states)
              m.caller
              param)
            (any_validated m)
          ≡ (done tt, record (after_persist c b m) { in_call = true })
        → call (mock_actor setting make_builtin states users) setting.persist_number (some args) m
          ≡ (done none, after_persist c b m)
    unfolding call invoke methods invoke_method restrict_internal_api find_method run_method
        call_with maybe_into_block require_in_call caller persist
        validate_immediate_caller_accept_any
    persisted param args m c b exported other decoded expected ran =
        ground (arith, exported, other, decoded, expected, ran)

    -- A call to `Persist` with a parameter that decodes, from any caller, whose validation is expected,
    -- outside of a transaction and where a state is kept that can count one more call, succeeds: the
    -- state that is kept afterwards has one more call counted, and the user under the caller's address; the
    -- expectation is used up, and nothing else changes.
    pub persist_call :
        (param : UserPersistParam) (args : IpldBlock) (m : MockRuntime BS) (st : State)
        (f : Contents User)
        → first_exported_method_number ≤ setting.persist_number
        → p.method_constructor ≢ setting.persist_number
        → setting.decode_param args ≡ ok param
        → m.expectations.expect_validate_caller_any ≡ true
        → m.in_transaction ≡ false
        → st.call_count < setting.usize_max
        → Keeps setting make_builtin states users serving st f m
        → (st' : State) × (c : p.Cid) × (b : BS) × (call
              (mock_actor setting make_builtin states users)
              setting.persist_number
              (some args)
              m
            ≡ (done none, after_persist c b m))
          × (st'.call_count ≡ st.call_count + 1)
          × Keeps setting make_builtin states users serving st'
              (put_entry f
                (p.address_bytes m.caller)
                (some (user_of setting users m.caller param.name)))
              (after_persist c b m)
    unfolding persist_closure
    persist_call param args m st f exported other decoded expected closed room
          (c, root, found, held) =
        let inside = record (any_validated m) { in_transaction = true } in
        let f' =
          put_entry f (p.address_bytes m.caller)
            (some (user_of setting users m.caller param.name)) in
        let moved =
          users.Stored-Extends st.typed_hamt.cid f m inside (serving.store_only m inside refl)
            held in
        let (st', b, put) =
          user_put setting make_builtin states users serving m.caller param.name st f inside room
            moved in
        let changed = record inside { store = b } in
        let (now, counted) =
          upsert_user_inserts setting users m.caller param.name st st' inside changed f moved put in
        let (c', b', wrote) = serving.puts st' b in
        let after = after_persist c' b' m in
        let ran =
          mock_transaction_commits states
            (persist_closure setting users (mock_runtime make_builtin) (mock_state_runtime states)
              m.caller param)
            (any_validated m) changed c c' st st' tt b' (root, found) closed
            (ap
              (λ q.
                or_overflow setting users (mock_runtime make_builtin) (mock_state_runtime states)
                  (q.0, (q.1, q.2)))
              put)
            wrote in
        (
          st',
          c',
          b',
          persisted param args m c' b' exported other decoded expected ran.0,
          counted,
          (
            c',
            refl,
            states.get-put st' c' b b' wrote,
            users.Stored-Extends st'.typed_hamt.cid f' changed after
                (serving.puts_grow st' c' changed after wrote) now,
          ),
        )
