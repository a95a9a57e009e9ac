-- ===== src/Agreement.antt =====
-- The two implementations of the trait `Runtime`, in runtime/src/runtime/fvm.rs and
-- runtime/src/test_utils.rs, side by side: what a test of an actor's state says of the actor on the FVM.
pub mod Validating
use fvm_utils.Base.{◌≡◌, Option, some, List}
use fvm_utils.Platform.{Platform, platform_codes}
use fvm_utils.Cell.{Op, Answer, run, perform_all, perform_all-run}
use fvm_utils.Fvm.Kernel.{Syscalls, CborStore}
use fvm_utils.Fvm.Instance.{FvmRuntime}
use fvm_utils.Fvm.State.{fvm_state_runtime}
use fvm_utils.Fvm.States as OnFvm
use fvm_utils.Fvm.States.{Dependable, fvm_implements}
use fvm_utils.Mock.Core.{MockRuntime}
use fvm_utils.Mock.State.{MockStore, mock_state_runtime}
use fvm_utils.Mock.States as OnMock
use fvm_utils.Mock.States.{Putting, mock_implements}

module _ ⦃p : Platform⦄ {K BS T : Type 0} (sys : Syscalls K) (store : CborStore sys T)
    (kernel : Dependable sys store) (test_store : MockStore BS T)
    (putting : Putting test_store) where
  -- Where no state is encoded as the empty array and both stores take states, over any sequence of
  -- creations, readings and updates of a state, none of which reads or updates it before there is one,
  -- the runtime of the tests and that of the FVM both give the answers of a cell: the value that is read,
  -- the result of an update, and the exit code of an update that fails and of a second creation; no
  -- operation panics, and both end with the value that the cell ends with.
  pub tests_agree :
      {R : Type 0} (ops : List (Op T R)) (v end : Option T) (answers : List (Answer T R))
      (m : MockRuntime BS) (rt : FvmRuntime K)
      → run ops v ≡ some (answers, end)
      → OnMock.View test_store putting v m
      → OnFvm.View sys store kernel v rt
      → let mock = perform_all (mock_state_runtime test_store) ops m in
        let fvm = perform_all (fvm_state_runtime sys store) ops rt in
        (mock.0 ≡ answers)
        × (fvm.0 ≡ answers)
        × OnMock.View test_store putting end mock.1
        × OnFvm.View sys store kernel end fvm.1
  tests_agree ops v end answers m rt promised on_mock on_fvm =
      let (mock_same, mock_end) =
        perform_all-run (mock_state_runtime test_store) (OnMock.View test_store putting)
          (mock_implements test_store putting) ops v end m answers promised on_mock in
      let (fvm_same, fvm_end) =
        perform_all-run (fvm_state_runtime sys store) (OnFvm.View sys store kernel)
          (fvm_implements sys store kernel) ops v end rt answers promised on_fvm in
      (mock_same, fvm_same, mock_end, fvm_end)
