-- ===== src/Mock/State.antt =====
-- runtime/src/test_utils.rs: the state of the actor under `MockRuntime`, for a type `T` of states.
use fvm_utils.Base.{◌≡◌, true, false, Option, none, some, String, Result, ok, err}
use fvm_utils.Platform.{Platform, platform_codes}
use fvm_utils.ActorError
use fvm_utils.Action.{Outcome, done, fail, panic, Action, raise, expect, choose, resume, ◌>>=◌}
use fvm_utils.Runtime.{StateRuntime}
use fvm_utils.Mock.Core.{MockRuntime}

-- `CborStore` over the store of the mock; what was put is found, also among later puts.
pub record MockStore ⦃p : Platform⦄ (BS T : Type 0) : Type 0 where
  pub put_cbor : T → BS → Result p.Cid String × BS
  pub get_cbor : p.Cid → BS → Result (Option T) String
  pub get-put :
      (x : T) (c : p.Cid) (b b' : BS) → put_cbor x b ≡ (ok c, b') → get_cbor c b' ≡ ok (some x)

module _ ⦃p : Platform⦄ {BS T : Type 0} (st : MockStore BS T) where
  -- `store_put`, with its `unwrap`
  unfoldable pub store_put : T → Action (MockRuntime BS) p.Cid
  store_put obj m =
      let (r, b) = st.put_cbor obj m.store in
      elim r [ ok c ↦ (done c, record m { store = b }) | err e ↦ (panic e, record m { store = b }) ]

  -- `store_get`, with its two
  unfoldable pub store_get : p.Cid → Action (MockRuntime BS) T
  store_get c m = elim (st.get_cbor c m.store) [
    | ok found ↦ expect found "called `Option::unwrap()` on a `None` value" m
    | err e ↦ (panic e, m)
  ]

  -- `self.state = Some(self.store_put(obj))`, which `replace_state` is
  unfoldable pub replace_state : T → Action (MockRuntime BS) (Unit {0})
  replace_state obj = store_put obj >>= λ c m. (done tt, record m { state = some c })

  unfoldable pub create : T → Action (MockRuntime BS) (Unit {0})
  create obj m = elim m.state [
    | some _ ↦ (fail (ActorError.illegal_state "state already constructed"), m)
    | none ↦ replace_state obj m
  ]

  -- `state`, and `get_state` of the tests
  unfoldable pub state : Action (MockRuntime BS) T
  state m = resume store_get (expect m.state "called `Option::unwrap()` on a `None` value" m)

  -- what `transaction` does with the result of the closure
  unfoldable pub commit : {R : Type 0} → Outcome R → T → Action (MockRuntime BS) R
  commit (done r) obj m =
      resume (λ _ m'. (done r, record m' { in_transaction = false })) (replace_state obj m)
  commit (fail e) obj m = (fail e, record m { in_transaction = false })
  commit (panic t) obj m = (panic t, m)

  -- the closure, on the state that was read
  abbrev pub run_closure :
      {R : Type 0} → Action (T × MockRuntime BS) R → T → Action (MockRuntime BS) R
  run_closure f obj m =
      let (r, after) = f (obj, record m { in_transaction = true }) in commit r after.0 after.1

  unfoldable pub transaction :
      {R : Type 0} → Action (T × MockRuntime BS) R → Action (MockRuntime BS) R
  transaction f m =
      choose m.in_transaction (raise (ActorError.assertion_failed "nested transaction"))
        (state >>= run_closure f) m

  abbrev pub mock_state_runtime : StateRuntime (MockRuntime BS) T
  mock_state_runtime = record { create = create; state = state; transaction = transaction }
