-- ===== src/Mock/Calls.antt =====
-- How a call of the actor and a transaction end on `MockRuntime`, and what is refused inside of them.
use fvm_utils.Base.{ℕ, ◌≡◌, ◌≢◌, refl, ap, ◌∙◌, true, false, Option, some, List, arith, ok, String}
use fvm_utils.Platform.{Platform, IpldBlock, platform_codes}
use fvm_utils.ActorError
use fvm_utils.ActorError.{ActorError}
use fvm_utils.Action.{Outcome, done, fail, panic, Action, raise, choose, ◌>>=◌, >>=-done}
use fvm_utils.Mock.Core.{MockRuntime, require_in_call, caller}
use fvm_utils.Mock.Instance.{
  resolve_address, send, create_actor, delete_actor, new_actor_address,
  validate_immediate_caller_accept_any, validate_immediate_caller_is,
}
use fvm_utils.Mock.State.{
  MockStore, store_get, store_put, replace_state, state, commit, run_closure, transaction,
}
use fvm_utils.Mock.Setup.{call, restore}

module _ ⦃p : Platform⦄ {BS : Type 0} where
  -- A call that was not made inside of a call of the actor: a panic, and nothing changes.
  abbrev pub Outside : {A : Type 0} → Action (MockRuntime BS) A → MockRuntime BS → Type 0
  Outside f m = f m ≡ (panic "invalid runtime invocation outside of method call", m)

  restore_end :
      (c : Option p.Cid) (r : Outcome (Option IpldBlock)) (m : MockRuntime BS)
      → ((t : String) → r ≢ panic t)
      → (restore c r m).in_call ≡ false
  restore_end c (done r) m calm = refl
  restore_end c (fail e) m calm = refl
  restore_end c (panic t) m calm = absurd (calm t refl)

  call_end :
      (invoke : ℕ → Option IpldBlock → Action (MockRuntime BS) (Option IpldBlock)) (n : ℕ)
      → (params : Option IpldBlock) (m : MockRuntime BS)
      → ((t : String) → (call invoke n params m).0 ≢ panic t)
      → (call invoke n params m).1.in_call ≡ false
  unfolding call
  call_end invoke n params m calm =
      let (r, after) = invoke n params (record m { in_call = true }) in
      restore_end m.state r after calm

  outside :
      (m : MockRuntime BS) (to : p.Address) (method : ℕ) (params : Option IpldBlock)
      → (value : p.TokenAmount) (code_id : p.Cid) (addrs : List p.Address) → m.in_call ≡ false
      → Outside caller m
        × Outside (resolve_address to) m
        × Outside new_actor_address m
        × Outside validate_immediate_caller_accept_any m
        × Outside (validate_immediate_caller_is addrs) m
        × Outside (send to method params value) m
        × Outside (create_actor code_id method) m
        × Outside (delete_actor to) m
  unfolding require_in_call caller resolve_address new_actor_address
      validate_immediate_caller_accept_any validate_immediate_caller_is send create_actor
      delete_actor
  outside m to method params value code_id addrs e = (
    ground arith,
    ground arith,
    ground arith,
    ground arith,
    ground arith,
    ground arith,
    ground arith,
    ground arith,
  )

  -- After a call of the actor that does not panic, whatever its result, the operations of the runtime
  -- are closed to the test: a query, a validation, a message, a new address and the creation or the
  -- deletion of an actor all panic and change nothing.
  pub call_closes :
      (invoke : ℕ → Option IpldBlock → Action (MockRuntime BS) (Option IpldBlock)) (n : ℕ)
      → (params : Option IpldBlock) (m : MockRuntime BS) (to : p.Address) (method : ℕ)
      → (ps : Option IpldBlock) (value : p.TokenAmount) (code_id : p.Cid) (addrs : List p.Address)
      → ((t : String) → (call invoke n params m).0 ≢ panic t)
      → let after = (call invoke n params m).1 in
        Outside caller after
        × Outside (resolve_address to) after
        × Outside new_actor_address after
        × Outside validate_immediate_caller_accept_any after
        × Outside (validate_immediate_caller_is addrs) after
        × Outside (send to method ps value) after
        × Outside (create_actor code_id method) after
        × Outside (delete_actor to) after
  call_closes invoke n params m to method ps value code_id addrs calm =
      outside (call invoke n params m).1 to method ps value code_id addrs
        (call_end invoke n params m calm)

module _ ⦃p : Platform⦄ {BS T : Type 0} (st : MockStore BS T) where
  -- the mock's root is `c`, and its store has `x` there
  abbrev pub Holds : MockRuntime BS → p.Cid → T → Type 0
  Holds m c x = (m.state ≡ some c) × (st.get_cbor c m.store ≡ ok (some x))

  -- What a test reads as the state is what the root holds.
  pub state-Holds :
      (m : MockRuntime BS) (c : p.Cid) (x : T) → Holds m c x → state st m ≡ (done x, m)
  unfolding state store_get
  state-Holds m c x h = ground (arith, h.0, h.1)

  transaction-closure :
      {R : Type 0} (f : Action (T × MockRuntime BS) R) (m : MockRuntime BS) (c : p.Cid) (x : T)
      → Holds m c x
      → m.in_transaction ≡ false
      → let (r, after) = f (x, record m { in_transaction = true }) in
        transaction st f m ≡ commit st r after.0 after.1
  unfolding transaction
  transaction-closure f m c x h closed =
      ap
        (λ b.
          choose b (raise (ActorError.assertion_failed "nested transaction"))
            (state st >>= run_closure st f) m)
        closed
      ∙ >>=-done (state st) (run_closure st f) (state-Holds m c x h)

  -- After a call of the actor that fails, the state that a test reads is the one under the root from
  -- before the call, where the store that the call leaves has one there, whatever the method did to
  -- the root.
  pub failed_call_restores :
      (invoke : ℕ → Option IpldBlock → Action (MockRuntime BS) (Option IpldBlock)) (n : ℕ)
      → (params : Option IpldBlock) (m : MockRuntime BS) (c : p.Cid) (x : T) (e : ActorError)
      → m.state ≡ some c
      → (call invoke n params m).0 ≡ fail e
      → st.get_cbor c (call invoke n params m).1.store ≡ ok (some x)
      → let after = (call invoke n params m).1 in state st after ≡ (done x, after)
  unfolding call
  failed_call_restores invoke n params m c x e root failed kept =
      state-Holds (call invoke n params m).1 c x (ground (arith, root, failed), kept)

  -- Outside of a transaction, where the state can be read, the closure succeeds and the store takes
  -- the new state, a transaction returns the closure's
  -- result and clears the flag, and the state that is then read is the new one.
  pub mock_transaction_commits :
      {R : Type 0} (f : Action (T × MockRuntime BS) R) (m m' : MockRuntime BS) (c c' : p.Cid)
      → (x x' : T) (r : R) (b : BS) → Holds m c x
      → m.in_transaction ≡ false
      → f (x, record m { in_transaction = true }) ≡ (done r, (x', m'))
      → st.put_cbor x' m'.store ≡ (ok c', b)
      → let after = record m' { store = b; state = some c'; in_transaction = false } in
        (transaction st f m ≡ (done r, after)) × (state st after ≡ (done x', after))
  unfolding commit replace_state store_put
  mock_transaction_commits f m m' c c' x x' r b h closed ran put = (
    transaction-closure f m c x h closed ∙ rw (ran, commit) (ground (arith, put)),
    state-Holds (record m' { store = b; state = some c'; in_transaction = false }) c' x'
        (refl, st.get-put x' c' m'.store b put),
  )

  -- Outside of a transaction, where the state can be read and the closure fails, the transaction fails with the same error and nothing is put in the
  -- store: the mock is as the closure left it, with the flag cleared.
  pub mock_transaction_fails :
      {R : Type 0} (f : Action (T × MockRuntime BS) R) (m m' : MockRuntime BS) (c : p.Cid)
      (x x' : T)
      → (e : ActorError) → Holds m c x
      → m.in_transaction ≡ false
      → f (x, record m { in_transaction = true }) ≡ (fail e, (x', m'))
      → transaction st f m ≡ (fail e, record m' { in_transaction = false })
  unfolding commit
  mock_transaction_fails f m m' c x x' e h closed ran =
      transaction-closure f m c x h closed ∙ rw (ran, commit)

  -- A failure with this exit code, and the mock as it was.
  abbrev pub Refused : {A : Type 0} → ℕ → MockRuntime BS → Outcome A × MockRuntime BS → Type 0
  Refused code m (fail e, m') = (e.exit_code ≡ code) × (m' ≡ m)
  Refused code m (other, m') = ⊥

  -- Inside of a call and of a transaction the mock refuses a second transaction, a message, the creation of an
  -- actor and its deletion, each with a failed assertion; nothing changes, so the flag stays set and
  -- no expectation is used up.
  pub mock_in_transaction-Refused :
      {R : Type 0} (f : Action (T × MockRuntime BS) R) (m : MockRuntime BS)
      → (to beneficiary : p.Address) (method id : ℕ) (params : Option IpldBlock)
      → (value : p.TokenAmount) (code_id : p.Cid) → m.in_call ≡ true
      → m.in_transaction ≡ true
      → Refused p.codes.usr_assertion_failed m (transaction st f m)
        × Refused p.codes.usr_assertion_failed m (send to method params value m)
        × Refused p.codes.usr_assertion_failed m (create_actor code_id id m)
        × Refused p.codes.usr_assertion_failed m (delete_actor beneficiary m)
  unfolding transaction send create_actor delete_actor require_in_call ActorError.assertion_failed
  mock_in_transaction-Refused f m to beneficiary method id params value code_id inside open_now =
      (ground arith, ground arith, ground arith, ground arith)
