-- ===== src/Agreement/Validating.antt =====
-- The validation of the caller on the two runtimes: the one of the tests accepts two validations of
-- different kinds, and the one of the FVM never does.
use fvm_utils.Base.{◌≡◌, ◌≢◌, refl, true, any, some, String, List, same_list_iff, arith}
use fvm_utils.Platform.{Platform, same_address}
use fvm_utils.Action.{done, Action, ◌>>◌}
use fvm_utils.Runtime.{Runtime}
use fvm_utils.Fvm.Kernel.{Syscalls}
use fvm_utils.Fvm.Instance.{FvmRuntime, fvm_runtime}
use fvm_utils.Fvm.Instance as OnFvm
use fvm_utils.Mock.Core.{MockRuntime, require_in_call}
use fvm_utils.Mock.Instance.{mock_runtime}
use fvm_utils.Mock.Instance as OnMock

module _ ⦃p : Platform⦄ where
  -- a method that accepts any caller, and then one of some addresses
  abbrev pub validate_twice : {S : Type 0} → Runtime S → List p.Address → Action S (Unit {0})
  validate_twice rt addresses =
      rt.validate_immediate_caller_accept_any >> rt.validate_immediate_caller_is addresses

  fvm_once :
      {K : Type 0} (sys : Syscalls K) (addresses : List p.Address) (rt : FvmRuntime K)
      → (validate_twice (fvm_runtime sys) addresses rt).0 ≢ done tt
  unfolding OnFvm.validate_immediate_caller_accept_any OnFvm.validate_immediate_caller_is
      OnFvm.assert_not_validated
  fvm_once sys addresses rt h = ground arith

  mock_twice :
      {BS : Type 0} (make_builtin : String → p.Cid) (addresses : List p.Address)
      (m : MockRuntime BS)
      → m.in_call ≡ true
      → m.expectations.expect_validate_caller_any ≡ true
      → m.expectations.expect_validate_caller_addr ≡ some addresses
      → any (λ a. same_address m.caller a) addresses ≡ true
      → (validate_twice (mock_runtime make_builtin) addresses m).0 ≡ done tt
  unfolding OnMock.validate_immediate_caller_accept_any OnMock.validate_immediate_caller_is
      require_in_call
  mock_twice make_builtin addresses m inside any_caller asked found =
      ground (arith, (same_list_iff same_address p.address_eq.eq_sound addresses addresses).1 refl)

  -- Inside of a call of the tests, where a validation of any caller and one by some addresses, of
  -- which the caller is one, are expected, a method that does both succeeds; on the runtime of the FVM it
  -- never succeeds, whoever calls it.
  pub tests_validate_twice :
      {K BS : Type 0} (sys : Syscalls K) (make_builtin : String → p.Cid)
      (addresses : List p.Address) (m : MockRuntime BS) (rt : FvmRuntime K)
      → m.in_call ≡ true
      → m.expectations.expect_validate_caller_any ≡ true
      → m.expectations.expect_validate_caller_addr ≡ some addresses
      → any (λ a. same_address m.caller a) addresses ≡ true
      → ((validate_twice (mock_runtime make_builtin) addresses m).0 ≡ done tt)
        × ((validate_twice (fvm_runtime sys) addresses rt).0 ≢ done tt)
  tests_validate_twice sys make_builtin addresses m rt inside any_caller asked found =
      (mock_twice make_builtin addresses m inside any_caller asked found, fvm_once sys addresses rt)
