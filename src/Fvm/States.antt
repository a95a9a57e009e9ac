-- ===== src/Fvm/States.antt =====
-- The runtime of the FVM keeps what the trait promises of the actor's state.
use fvm_utils.Base.{
  ◌≡◌, ◌≢◌, refl, sym, ap, ◌∙◌, true, false, Bool-cases, Option, none, some, Result, ok, err, inl,
  inr, arith,
}
use fvm_utils.Platform.{Platform, same_cid, platform_codes}
use fvm_utils.ActorError
use fvm_utils.ActorError.{ActorError}
use fvm_utils.Action.{done, Action}
use fvm_utils.Cell.{
  make, read, update, made, refused, result, step, perform, answer_of, outcome_of, after,
  Implements,
}
use fvm_utils.Fvm.Kernel.{Syscalls, CborStore}
use fvm_utils.Fvm.Instance.{FvmRuntime}
use fvm_utils.Fvm.State.{create, transaction, fvm_state_runtime}
use fvm_utils.Fvm.Transactions.{
  Holds, Writes, Writes-Holds, state-Holds, transaction_commits, transaction_fails, create_once,
}

-- What is relied on of the kernel: no state is encoded as the empty array, whose identifier is the root
-- of an actor without a state, and a state can be written.
pub record Dependable ⦃p : Platform⦄ {K : Type 0} (sys : Syscalls K) {T : Type 0}
    (store : CborStore sys T) : Type 0 where
  pub no_state : (k : K) (x : T) → store.get_cbor sys.empty_arr_cid k ≢ ok (some x)
  pub writes : (x : T) (k : K) → (c : p.Cid) × (k' : K) × Writes sys store x k c k'

module _ ⦃p : Platform⦄ {K : Type 0} (sys : Syscalls K) {T : Type 0} (store : CborStore sys T)
    (kernel : Dependable sys store) where
  -- no state under the root of the empty array, or the state under the root
  abbrev pub View : Option T → FvmRuntime K → Type 0
  View none rt = sys.self_root rt.kernel ≡ ok sys.empty_arr_cid
  View (some x) rt = (c : p.Cid) × Holds sys store rt c x

  create_fresh :
      (x : T) (rt : FvmRuntime K) (c : p.Cid) (k : K)
      → View none rt
      → Writes sys store x rt.kernel c k
      → create sys store x rt ≡ (done tt, record rt { kernel = k })
  create_fresh x rt c k root w =
      let same = (p.cid_eq.eq_sound sys.empty_arr_cid sys.empty_arr_cid).1 refl in
      let (always, left, found) = create_once sys store x rt sys.empty_arr_cid c k root w in
      ground (arith, always.1, left, same)

  create_refused :
      {R : Type 0} (x y : T) (rt : FvmRuntime K) (c : p.Cid)
      → Holds sys store rt c y
      → answer_of {T = T} {R = R} (λ u. made) (create sys store x rt)
        ≡ (refused p.codes.usr_illegal_state, rt)
  unfolding create ActorError.illegal_state
  create_refused x y rt c (root, found) = elim (Bool-cases (same_cid c sys.empty_arr_cid)) [
    | inr other ↦ ground (arith, root, other)
    | inl same ↦
        let e = (p.cid_eq.eq_sound c sys.empty_arr_cid).0 same in
        absurd (kernel.no_state rt.kernel y (ap (λ d. store.get_cbor d rt.kernel) (sym e) ∙ found))
  ]

  -- the closure of an update, as the trait takes it
  abbrev closure_of : {R : Type 0} → (T → Result R ActorError × T) → Action (T × FvmRuntime K) R
  closure_of f q = let (r, y) = f q.0 in (outcome_of r, (y, q.1))

  updated :
      {R : Type 0} (f : T → Result R ActorError × T) (o : Result R ActorError × T) (x : T)
      (rt : FvmRuntime K)
      → f x ≡ o
      → View (some x) rt
      → let (a, rt') = answer_of {T = T} result (transaction sys store (closure_of f) rt) in
        (a ≡ (after o x).0) × View (some (after o x).1) rt'
  updated f (ok v, y) x rt e (c, held) =
      let inside = record rt { in_transaction = true } in
      let (c', k, w) = kernel.writes y rt.kernel in
      let (ended, found) =
        transaction_commits sys store (closure_of f) rt inside c c' x y v k held
          (ap (λ o. (outcome_of o.0, (o.1, inside))) e) w in
      rw ended (
        refl,
        (
          c',
          Writes-Holds sys store y rt.kernel c' k
              (record inside { kernel = k; in_transaction = false }) w refl,
        ),
      )
  updated f (err b, y) x rt e (c, held) =
      let inside = record rt { in_transaction = true } in
      let ended =
        transaction_fails sys store (closure_of f) rt inside c x y b held
          (ap (λ o. (outcome_of o.0, (o.1, inside))) e) in
      rw ended (refl, (c, held))

  -- Where no state is encoded as the empty array and states can be written, the runtime of the FVM
  -- keeps what the trait promises of a state.
  pub fvm_implements : {R : Type 0} → Implements (fvm_state_runtime sys store) R View
  unfolding perform step
  fvm_implements (make x) none rt h =
      let (c, k, w) = kernel.writes x rt.kernel in
      rw (create_fresh x rt c k h w)
        (refl, (c, Writes-Holds sys store x rt.kernel c k (record rt { kernel = k }) w refl))
  fvm_implements (make x) (some y) rt (c, held) =
      rw (create_refused x y rt c held) (refl, (c, held))
  fvm_implements read none rt h = tt
  fvm_implements read (some x) rt (c, held) =
      rw (state-Holds sys store rt c x held) (refl, (c, held))
  fvm_implements (update f) none rt h = tt
  fvm_implements (update f) (some x) rt h = updated f (f x) x rt refl h
