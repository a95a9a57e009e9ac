-- ===== src/Fvm/Committed.antt =====
-- What a transaction that succeeds has done.
use fvm_utils.Base.{
  ◌≡◌, ok, Option-cases, sym, ap, ◌∙◌, false, true, arith, String, Result-cases, inl, inr,
  Bool-cases,
}
use fvm_utils.Platform.{Platform, platform_codes, same_cid}
use fvm_utils.Action.{Outcome, done, fail, panic, Action, pure, resume, >>=-parts}
use fvm_utils.Fvm.Kernel.{Syscalls, CborStore}
use fvm_utils.Fvm.Instance.{FvmRuntime}
use fvm_utils.Fvm.State.{transaction, create, load_state, run_closure, commit, clear, write_state}
use fvm_utils.Fvm.Transactions.{Holds, Writes, transaction-closure}

-- a step that returns nothing, followed by a value
resumed :
    {S R : Type 0} (x r : R) (o : Outcome (Unit {0}) × S) (after : S)
    → resume (λ _. pure x) o ≡ (done r, after)
    → (◌≡◌ {A = Outcome R} (done x) (done r)) × (o ≡ (done tt, after))
resumed x r (done u, s) after h = (ground arith, ground arith)
resumed x r (fail e, s) after h = absurd (ground arith)
resumed x r (panic m, s) after h = absurd (ground arith)

module _ ⦃p : Platform⦄ {K : Type 0} (sys : Syscalls K) {T : Type 0} (store : CborStore sys T) where
  written :
      (m : String) (st : T) (rt rt' : FvmRuntime K)
      → write_state sys store m st rt ≡ (done tt, rt')
      → (c : p.Cid) × (k : K) × Writes sys store st rt.kernel c k × (rt' ≡ record rt { kernel = k })
  unfolding write_state
  written m st rt rt' h = elim (Result-cases (store.put_cbor st rt.kernel).0) [
    | inr (e, bad) ↦ absurd (ground arith)
    | inl (c, put) ↦
        let k1 = (store.put_cbor st rt.kernel).1 in
        elim (Result-cases (sys.set_root c k1).0) [
          | inr (e, bad) ↦ absurd (ground arith)
          | inl (u, set) ↦ (
            c,
            (sys.set_root c k1).1,
            (k1, ap (λ r. (r, k1)) put, ap (λ r. (r, (sys.set_root c k1).1)) set),
            ground arith,
          )
        ]
  ]

  committed :
      {R : Type 0} (o : Outcome R) (st : T) (rt after : FvmRuntime K) (r : R)
      → commit sys store o st (clear sys store o rt) ≡ (done r, after)
      → (o ≡ done r)
        × (write_state sys store "failed to write actor state in transaction: " st
              (record rt { in_transaction = false })
            ≡ (done tt, after))
  unfolding commit
  committed (done x) st rt after r h = resumed x r _ after h
  committed (fail e) st rt after r h = absurd (ground arith)
  committed (panic m) st rt after r h = absurd (ground arith)

  -- A transaction that succeeds on a state that can be read ran its closure on that state with
  -- success, wrote the state that the closure left, and left the closure's runtime but for these
  -- writes and the flag, which is clear.
  pub transaction_done :
      {R : Type 0} (f : Action (T × FvmRuntime K) R) (rt after : FvmRuntime K) (c : p.Cid) (st : T)
      (r : R)
      → Holds sys store rt c st
      → transaction sys store f rt ≡ (done r, after)
      → (st' : T) × (rt' : FvmRuntime K) × (c' : p.Cid) × (k : K) × (f
            (st, record rt { in_transaction = true })
          ≡ (done r, (st', rt')))
        × Writes sys store st' rt'.kernel c' k
        × (after ≡ record rt' { kernel = k; in_transaction = false })
  transaction_done f rt after c st r h e =
      let (o, left) = f (st, record rt { in_transaction = true }) in
      let (ran, wrote) =
        committed o left.0 left.1 after r (sym (transaction-closure sys store f rt c st h) ∙ e) in
      let (c', k, writes, same) =
        written "failed to write actor state in transaction: " left.0
          (record left.1 { in_transaction = false }) after wrote in
      (left.0, left.1, c', k, ap (λ x. (x, left)) ran, writes, same)

  -- A state is created only over the root of the empty array, and only the kernel's writes change the
  -- runtime.
  pub create_done :
      (st : T) (rt rt' : FvmRuntime K)
      → create sys store st rt ≡ (done tt, rt')
      → (c c' : p.Cid) × (k : K) × (sys.self_root rt.kernel ≡ ok c)
        × (same_cid c sys.empty_arr_cid ≡ true)
        × Writes sys store st rt.kernel c' k
        × (rt' ≡ record rt { kernel = k })
  unfolding create
  create_done st rt rt' h = elim (Result-cases (sys.self_root rt.kernel)) [
    | inr (e, bad) ↦ absurd (ground arith)
    | inl (c, root) ↦ elim (Bool-cases (same_cid c sys.empty_arr_cid)) [
      | inr other ↦ absurd (ground arith)
      | inl fresh ↦
          let (c', k, writes, same) =
            written "failed to write actor state during creation: " st rt rt' (ground arith) in
          (c, c', k, root, fresh, writes, same)
    ]
  ]

  loaded_state :
      (rt rt' : FvmRuntime K) (st : T)
      → load_state sys store rt ≡ (done st, rt')
      → (c : p.Cid) × Holds sys store rt c st
  unfolding load_state
  loaded_state rt rt' st h = elim (Result-cases (sys.self_root rt.kernel)) [
    | inr (e, bad) ↦ absurd (ground arith)
    | inl (c, root) ↦ elim (Result-cases (store.get_cbor c rt.kernel)) [
      | inr (e, bad) ↦ absurd (ground arith)
      | inl (found, read) ↦ elim (Option-cases found) [
        | inl lost ↦ absurd (ground arith)
        | inr (x, e) ↦ (c, (root, ground arith))
      ]
    ]
  ]

  -- A transaction that succeeds could read a state.
  pub transaction_held :
      {R : Type 0} (f : Action (T × FvmRuntime K) R) (rt after : FvmRuntime K) (r : R)
      → transaction sys store f rt ≡ (done r, after)
      → (c : p.Cid) × (st : T) × Holds sys store rt c st
  unfolding transaction
  transaction_held f rt after r h =
      let (st, rt', e, rest) =
        >>=-parts (load_state sys store) (run_closure sys store f) rt after r h in
      let (c, held) = loaded_state rt rt' st e in (c, st, held)
