-- ===== src/Tests/Agreeing.antt =====
-- The theorems on the agreement of the two runtimes at concrete inputs: a state is created, updated and
-- read, and a second creation is refused; and a caller is validated twice.
use fvm_utils.Base.{
  ℕ, suc, ◌+◌, ◌≡◌, ◌≢◌, true, refl, Option, none, some, List, [], ◌∷◌, ◌++◌, Result, ok, err,
  String, length, arith,
}
use fvm_utils.ActorError
use fvm_utils.Platform.{platform_codes}
use fvm_utils.Cell.{
  Op, make, read, update, Answer, made, refused, value, result, run, step, perform_all,
}
use fvm_utils.Fvm.State.{fvm_state_runtime}
use fvm_utils.Fvm.States as OnFvm
use fvm_utils.Fvm.States.{Dependable}
use fvm_utils.Mock.Core.{MockRuntime, new}
use fvm_utils.Mock.State.{MockStore, mock_state_runtime}
use fvm_utils.Mock.States as OnMock
use fvm_utils.Mock.States.{Putting}
use fvm_utils.Agreement.{tests_agree}
use fvm_utils.Agreement.Validating.{validate_twice, tests_validate_twice}
use fvm_utils.Fvm.Instance.{fvm_runtime}
use fvm_utils.Mock.Expectations.{no_expectations}
use fvm_utils.Mock.Instance.{mock_runtime}
use fvm_utils.Action.{done}
use fvm_utils.Example.{State}
use fvm_utils.Tests.Concrete.{toy, toy_mock, id_address}
use fvm_utils.Tests.Logs.{get_elem?-last}
use fvm_utils.Tests.World.{world_syscalls, world_store, state_at, fresh_runtime}
use fvm_utils.Tests.Lives.{no_state_at_zero}

dependable : Dependable world_syscalls world_store
dependable = record {
  no_state = no_state_at_zero;
  writes = λ x k. (
    suc (length k.states),
    record k { states = k.states ++ x ∷ []; root = suc (length k.states) },
    (record k { states = k.states ++ x ∷ [] }, refl, refl),
  );
}

abbrev put_in_log : State → List State → Result ℕ String × List State
put_in_log x log = (ok (suc (length log)), log ++ x ∷ [])

log_get-put :
    (x : State) (c : ℕ) (b b' : List State)
    → put_in_log x b ≡ (ok c, b')
    → ◌≡◌ {A = Result (Option State) String} (ok (state_at c b')) (ok (some x))
log_get-put x c b b' e = ground (arith, get_elem?-last b x)

abbrev log_store : MockStore (List State) State
log_store = record {
  put_cbor = put_in_log;
  get_cbor = λ c log. ok (state_at c log);
  get-put = log_get-put;
}

putting : Putting log_store
putting = record { puts = λ x b. (suc (length b), b ++ x ∷ [], refl) }

abbrev zeroth : State
zeroth = record { call_count = 0; typed_hamt = record { cid = 4 } }

abbrev counted : State → State
counted st = record st { call_count = st.call_count + 1 }

-- the second creation is refused, and so is the update that fails, whose count is lost
abbrev operations : List (Op State ℕ)
operations =
    make zeroth
    ∷ read
    ∷ update (λ st. (ok 5, counted st))
    ∷ make zeroth
    ∷ update (λ st. (err (ActorError.forbidden "no"), counted st))
    ∷ read
    ∷ []

abbrev answers : List (Answer State ℕ)
answers = made ∷ value zeroth ∷ result 5 ∷ refused 20 ∷ refused 18 ∷ value (counted zeroth) ∷ []

fresh_mock : MockRuntime (List State)
unfolding new
fresh_mock = new 0 (λ bytes. bytes) []

fresh_mock-View : OnMock.View log_store putting none fresh_mock
unfolding fresh_mock new
fresh_mock-View = (refl, refl)

abbrev ended_mock : List (Answer State ℕ) × MockRuntime (List State)
ended_mock = perform_all (mock_state_runtime log_store) operations fresh_mock

tests_agree_example :
    let fvm = perform_all (fvm_state_runtime world_syscalls world_store) operations fresh_runtime in
    (ended_mock.0 ≡ answers)
    × (fvm.0 ≡ answers)
    × OnMock.View log_store putting (some (counted zeroth)) ended_mock.1
    × OnFvm.View world_syscalls world_store dependable (some (counted zeroth)) fvm.1
unfolding run step ActorError.forbidden
tests_agree_example =
    tests_agree world_syscalls world_store dependable log_store putting operations none
      (some (counted zeroth)) answers fresh_mock fresh_runtime refl fresh_mock-View refl

-- the caller of the mock is the actor with the id 4
abbrev expecting_two : MockRuntime ℕ
expecting_two = record toy_mock {
  expectations = record no_expectations {
    expect_validate_caller_any = true;
    expect_validate_caller_addr = some (id_address 3 ∷ id_address 4 ∷ []);
  };
}

abbrev code_named : String → ℕ
code_named name = 0

tests_validate_twice_example :
    let allowed = id_address 3 ∷ id_address 4 ∷ [] in
    ((validate_twice (mock_runtime code_named) allowed expecting_two).0 ≡ done tt)
    × ((validate_twice (fvm_runtime world_syscalls) allowed fresh_runtime).0 ≢ done tt)
tests_validate_twice_example =
    tests_validate_twice world_syscalls code_named (id_address 3 ∷ id_address 4 ∷ []) expecting_two
      fresh_runtime refl refl refl refl
