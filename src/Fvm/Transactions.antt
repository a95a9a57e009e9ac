-- ===== src/Fvm/Transactions.antt =====
-- What `create`, `state` and `transaction` do to the state root and to the flag of the transaction.
use fvm_utils.Base.{
  ℕ, ◌≡◌, ◌≢◌, ◌↔◌, if◌then◌else◌, refl, ◌∙◌, ap, true, false, Option, some, arith, ok, String,
}
use fvm_utils.Platform.{Platform, IpldBlock, platform_codes, same_cid}
use fvm_utils.ActorError.{ActorError}
use fvm_utils.Action.{Outcome, done, fail, panic, Action, pure, >>=-done}
use fvm_utils.Fvm.Kernel.{Syscalls, CborStore}
use fvm_utils.Fvm.Instance.{FvmRuntime, send, send_refusal}
use fvm_utils.Fvm.State.{
  create, state, transaction, load_state, run_closure, commit, clear, write_state,
}

module _ ⦃p : Platform⦄ {K : Type 0} (sys : Syscalls K) {T : Type 0} (store : CborStore sys T) where
  -- the runtime's root is `c`, and the state that the store has there is `st`
  abbrev pub Holds : FvmRuntime K → p.Cid → T → Type 0
  Holds rt c st = (sys.self_root rt.kernel ≡ ok c) × (store.get_cbor c rt.kernel ≡ ok (some st))

  -- the kernel writes `st` from `k` on, and is left as `k''`
  abbrev pub Writes : T → K → p.Cid → K → Type 0
  Writes st k c k'' =
      (k' : K) × (store.put_cbor st k ≡ (ok c, k')) × (sys.set_root c k' ≡ (ok tt, k''))

  pub Writes-Holds :
      (st : T) (k : K) (c : p.Cid) (k'' : K) (rt : FvmRuntime K)
      → Writes st k c k''
      → rt.kernel ≡ k''
      → Holds rt c st
  Writes-Holds st k c k'' rt (k', put, set) e = (
    rw (e, sys.self_root-set_root c k' k'' set),
    rw (e, store.get-set_root c c k' k'' set) (store.get-put st c k k' put),
  )

  -- What the runtime reads as its state is what the root holds.
  pub state-Holds :
      (rt : FvmRuntime K) (c : p.Cid) (st : T) → Holds rt c st → state sys store rt ≡ (done st, rt)
  unfolding state
  state-Holds rt c st h = ground (arith, h.0, h.1)

  load_state-Holds :
      (rt : FvmRuntime K) (c : p.Cid) (st : T)
      → Holds rt c st
      → load_state sys store rt ≡ (done st, rt)
  unfolding load_state
  load_state-Holds rt c st h = ground (arith, h.0, h.1)

  write_state-Writes :
      (m : String) (st : T) (rt : FvmRuntime K) (c : p.Cid) (k : K)
      → Writes st rt.kernel c k
      → write_state sys store m st rt ≡ (done tt, record rt { kernel = k })
  unfolding write_state
  write_state-Writes m st rt c k (k', put, set) = ground (arith, put, set)

  -- the transaction with the state that it reads put in
  pub transaction-closure :
      {R : Type 0} (f : Action (T × FvmRuntime K) R) (rt : FvmRuntime K) (c : p.Cid) (st : T)
      → Holds rt c st
      → let (r, after) = f (st, record rt { in_transaction = true }) in
        transaction sys store f rt ≡ commit sys store r after.0 (clear sys store r after.1)
  unfolding transaction
  transaction-closure f rt c st h =
      >>=-done (load_state sys store) (run_closure sys store f) (load_state-Holds rt c st h)

  -- Where the state can be read, the closure succeeds and the kernel writes, a transaction returns the
  -- closure's result,
  -- the new state is read back from the runtime it leaves, and that runtime is the closure's but for
  -- the kernel's writes and the flag, which is clear.
  pub transaction_commits :
      {R : Type 0} (f : Action (T × FvmRuntime K) R) (rt rt' : FvmRuntime K) (c c' : p.Cid)
      → (st st' : T) (r : R) (k : K) → Holds rt c st
      → f (st, record rt { in_transaction = true }) ≡ (done r, (st', rt'))
      → Writes st' rt'.kernel c' k
      → let after = record rt' { kernel = k; in_transaction = false } in
        (transaction sys store f rt ≡ (done r, after)) × (state sys store after ≡ (done st', after))
  unfolding commit
  transaction_commits f rt rt' c c' st st' r k h ran w = (
    transaction-closure f rt c st h
        ∙ rw (ran, commit)
            (>>=-done (write_state sys store _ st') (λ _. pure r)
              (write_state-Writes _ st' (record rt' { in_transaction = false }) c' k w)),
    (let after = record rt' { kernel = k; in_transaction = false } in
        state-Holds after c' st' (Writes-Holds st' rt'.kernel c' k after w refl)),
  )

  -- Where the state can be read and the closure fails, so does the transaction with the same error,
  -- and it writes nothing: the
  -- runtime is as the closure left it, with the flag cleared.
  pub transaction_fails :
      {R : Type 0} (f : Action (T × FvmRuntime K) R) (rt rt' : FvmRuntime K) (c : p.Cid)
      → (st st' : T) (e : ActorError) → Holds rt c st
      → f (st, record rt { in_transaction = true }) ≡ (fail e, (st', rt'))
      → transaction sys store f rt ≡ (fail e, record rt' { in_transaction = false })
  unfolding commit
  transaction_fails f rt rt' c st st' e h ran = transaction-closure f rt c st h ∙ rw (ran, commit)

  commit_flag :
      {R : Type 0} (r : Outcome R) (st : T) (rt : FvmRuntime K)
      → ((m : String) → (commit sys store r st (clear sys store r rt)).0 ≢ panic m)
      → (commit sys store r st (clear sys store r rt)).1.in_transaction ≡ false
  unfolding commit write_state
  commit_flag (done r) st rt calm = ground arith
  commit_flag (fail e) st rt calm = refl
  commit_flag (panic m) st rt calm = absurd (calm m refl)

  -- A transaction whose state could be read and that ends without a panic leaves the flag clear,
  -- also where it was set before, which is where it runs inside of another transaction.
  pub in_transaction-transaction :
      {R : Type 0} (f : Action (T × FvmRuntime K) R) (rt : FvmRuntime K) (c : p.Cid) (st : T)
      → Holds rt c st
      → ((m : String) → (transaction sys store f rt).0 ≢ panic m)
      → (transaction sys store f rt).1.in_transaction ≡ false
  in_transaction-transaction f rt c st h calm =
      let (r, after) = f (st, record rt { in_transaction = true }) in
      let e = transaction-closure f rt c st h in
      ap (λ x. x.1.in_transaction) e
      ∙ commit_flag r after.0 after.1 (λ m broke. calm m (ap (λ x. x.0) e ∙ broke))

  -- Where the kernel writes, a state is created exactly over the root of the empty array; over any
  -- other root the call does not succeed and changes nothing. From the runtime that a creation leaves
  -- the state that was given is read back.
  pub create_once :
      (obj : T) (rt : FvmRuntime K) (c c' : p.Cid) (k : K)
      → sys.self_root rt.kernel ≡ ok c
      → Writes obj rt.kernel c' k
      → let (r, rt') = create sys store obj rt in
        ((r ≡ done tt) ↔ (same_cid c sys.empty_arr_cid ≡ true))
        × (rt' ≡ (if same_cid c sys.empty_arr_cid then record rt { kernel = k } else rt))
        × (state sys store (record rt { kernel = k }) ≡ (done obj, record rt { kernel = k }))
  unfolding create
  create_once obj rt c c' k root w = (
    ground (
      arith,
      root,
      write_state-Writes "failed to write actor state during creation: " obj rt c' k w,
    ),
    ground (
      arith,
      root,
      write_state-Writes "failed to write actor state during creation: " obj rt c' k w,
    ),
    state-Holds (record rt { kernel = k }) c' obj
        (Writes-Holds obj rt.kernel c' k (record rt { kernel = k }) w refl),
  )

  -- Inside of the closure of a transaction a message is refused; but after an inner transaction whose
  -- state could be read and that does not panic, the next `send` makes the syscall, although the outer
  -- closure still runs.
  pub send_after_nested :
      {R : Type 0} (f : Action (T × FvmRuntime K) R) (rt : FvmRuntime K) (c : p.Cid) (st : T)
      → (to : p.Address) (method : ℕ) (params : Option IpldBlock) (value : p.TokenAmount)
      → rt.in_transaction ≡ true
      → Holds rt c st
      → ((m : String) → (transaction sys store f rt).0 ≢ panic m)
      → let rt' = (transaction sys store f rt).1 in
        (send sys to method params value rt ≡ (fail (send_refusal sys), rt))
        × ((send sys to method params value rt').1.kernel
            ≡ (sys.sys_send to method params value rt'.kernel).1)
  unfolding send
  send_after_nested f rt c st to method params value inside h calm =
      (ground (arith, inside), ground (arith, in_transaction-transaction f rt c st h calm))
