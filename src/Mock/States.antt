-- ===== src/Mock/States.antt =====
-- The runtime of the tests keeps what the trait promises of the actor's state, and so agrees with the
-- runtime of the FVM on it.
use fvm_utils.Base.{◌≡◌, refl, ap, true, false, Option, none, some, Result, ok, err, arith}
use fvm_utils.Platform.{Platform, platform_codes}
use fvm_utils.ActorError
use fvm_utils.ActorError.{ActorError}
use fvm_utils.Action.{done, Action}
use fvm_utils.Cell.{
  make, read, update, made, refused, result, step, perform, answer_of, outcome_of, after,
  Implements,
}
use fvm_utils.Mock.Core.{MockRuntime}
use fvm_utils.Mock.Calls.{mock_transaction_commits, mock_transaction_fails}
use fvm_utils.Mock.State.{
  MockStore, store_get, store_put, replace_state, create, state, transaction, mock_state_runtime,
}

-- what is relied on of the test's store: a state can be put
pub record Putting ⦃p : Platform⦄ {BS T : Type 0} (store : MockStore BS T) : Type 0 where
  pub puts : (x : T) (b : BS) → (c : p.Cid) × (b' : BS) × (store.put_cbor x b ≡ (ok c, b'))

module _ ⦃p : Platform⦄ {BS T : Type 0} (store : MockStore BS T) (putting : Putting store) where
  -- no root, or the state under the root; and no transaction is open
  abbrev pub View : Option T → MockRuntime BS → Type 0
  View none m = (m.state ≡ none) × (m.in_transaction ≡ false)
  View (some x) m =
      (c : p.Cid) × (m.state ≡ some c)
      × (store.get_cbor c m.store ≡ ok (some x))
      × (m.in_transaction ≡ false)

  -- the closure of an update, as the trait takes it
  abbrev closure_of : {R : Type 0} → (T → Result R ActorError × T) → Action (T × MockRuntime BS) R
  closure_of f q = let (r, y) = f q.0 in (outcome_of r, (y, q.1))

  updated :
      {R : Type 0} (f : T → Result R ActorError × T) (o : Result R ActorError × T) (x : T)
      (m : MockRuntime BS)
      → f x ≡ o
      → View (some x) m
      → let (a, m') = answer_of {T = T} result (transaction store (closure_of f) m) in
        (a ≡ (after o x).0) × View (some (after o x).1) m'
  updated f (ok v, y) x m e (c, root, found, closed) =
      let inside = record m { in_transaction = true } in
      let (d, b, put) = putting.puts y m.store in
      let (ended, same) =
        mock_transaction_commits store (closure_of f) m inside c d x y v b (root, found) closed
          (ap (λ o. (outcome_of o.0, (o.1, inside))) e) put in
      rw ended (refl, (d, refl, store.get-put y d m.store b put, refl))
  updated f (err bad, y) x m e (c, root, found, closed) =
      let inside = record m { in_transaction = true } in
      let ended =
        mock_transaction_fails store (closure_of f) m inside c x y bad (root, found) closed
          (ap (λ o. (outcome_of o.0, (o.1, inside))) e) in
      rw ended (refl, (c, root, found, refl))

  created :
      (x : T) (m : MockRuntime BS) (c : p.Cid) (b : BS)
      → m.state ≡ none
      → store.put_cbor x m.store ≡ (ok c, b)
      → create store x m ≡ (done tt, record m { store = b; state = some c })
  unfolding create replace_state store_put
  created x m c b root put = ground (arith, root, put)

  create_refused :
      {R : Type 0} (x : T) (m : MockRuntime BS) (c : p.Cid)
      → m.state ≡ some c
      → answer_of {T = T} {R = R} (λ u. made) (create store x m)
        ≡ (refused p.codes.usr_illegal_state, m)
  unfolding create ActorError.illegal_state
  create_refused x m c root = ground (arith, root)

  state_found :
      (x : T) (m : MockRuntime BS) (c : p.Cid)
      → m.state ≡ some c
      → store.get_cbor c m.store ≡ ok (some x)
      → state store m ≡ (done x, m)
  unfolding state store_get
  state_found x m c root found = ground (arith, root, found)

  -- Where the store takes states, the runtime of the tests keeps what the trait promises of a state.
  pub mock_implements : {R : Type 0} → Implements (mock_state_runtime store) R View
  unfolding perform step
  mock_implements (make x) none m (root, closed) =
      let (c, b, put) = putting.puts x m.store in
      rw (created x m c b root put) (refl, (c, refl, store.get-put x c m.store b put, closed))
  mock_implements (make x) (some y) m (c, root, found, closed) =
      rw (create_refused x m c root) (refl, (c, root, found, closed))
  mock_implements read none m h = tt
  mock_implements read (some x) m (c, root, found, closed) =
      rw (state_found x m c root found) (refl, (c, root, found, closed))
  mock_implements (update f) none m h = tt
  mock_implements (update f) (some x) m h = updated f (f x) x m refl h
