-- ===== src/Tests/Mock.antt =====
-- The theorems on runtime/src/test_utils.rs at concrete inputs.
use fvm_utils.Base.{ℕ, ◌+◌, ◌≡◌, ◌↔◌, refl, Option, none, nat_eq, if◌then◌else◌}
use fvm_utils.Platform.{IpldBlock, platform_codes}
use fvm_utils.ActorError
use fvm_utils.ActorError.{ActorError}
use fvm_utils.Action.{done, fail, Action, ◌>>◌}
use fvm_utils.Mock.Expectations.{ExpectedMessage, no_expectations}
use fvm_utils.Mock.Core.{MockRuntime}
use fvm_utils.Mock.Instance.{send}
use fvm_utils.Mock.Setup.{verify, expect_send}
use fvm_utils.Mock.Expecting.{Settled, verify_iff, expect_send-send}
use fvm_utils.Tests.Concrete.{id_address, toy, toy_mock}

abbrev nothing : ℕ → Option IpldBlock → Action (MockRuntime ℕ) (Option IpldBlock)
nothing n ps m = (done none, m)

abbrev add_seven : Action (ℕ × MockRuntime ℕ) ℕ
add_seven s = (done 5, (s.0 + 7, s.1))

verify_iff_example :
    ((verify toy_mock).1 ≡ toy_mock) × (((verify toy_mock).0 ≡ done tt) ↔ Settled no_expectations)
verify_iff_example = verify_iff toy_mock

abbrev greeting : ExpectedMessage
greeting = record {
  to = id_address 1;
  method = 2;
  params = none;
  value = 3;
  send_return = none;
  exit_code = 0;
}

expect_send-send_example :
    let (r, after) = (expect_send greeting >> send (id_address 1) 2 none 3) toy_mock in
    (r ≡ (if nat_eq 0 0 then done none else fail (ActorError.unchecked 0 "Expected message Fail")))
    × (after ≡ record toy_mock { balance = 47 })
    × ((verify after).0 ≡ done tt)
expect_send-send_example =
    expect_send-send toy_mock greeting refl refl refl
      (refl, refl, refl, refl, refl, refl, refl, refl)
