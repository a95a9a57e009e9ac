-- ===== src/Mock/Expectations.antt =====
-- runtime/src/test_utils.rs: `Expectations` and the builtin actors that the tests know.
use fvm_utils.Base.{
  same_list, ℕ, Bool, true, false, ◌&&◌, not, Option, none, some, List, [], ◌∷◌, String, Result,
  nat_eq, ℤ,
}
use fvm_utils.Platform.{Platform, IpldBlock}
use fvm_utils.Action.{Action, done, assert, ◌>>◌}

module _ {ℓ} {A : Type ℓ} where
  abbrev pub is_none : Option A → Bool
  is_none none = true
  is_none (some a) = false

  abbrev pub is_nil : List A → Bool
  is_nil [] = true
  is_nil (x ∷ xs) = false

-- `==` of optional blocks
unfoldable pub same_block : Option IpldBlock → Option IpldBlock → Bool
unfolding same_list
same_block none none = true
same_block (some a) (some b) = nat_eq a.codec b.codec && same_list nat_eq a.bytes b.bytes
same_block none (some b) = false
same_block (some a) none = false

pub record ExpectCreateActor ⦃p : Platform⦄ : Type 0 where
  pub code_id : p.Cid
  pub actor_id : ℕ

pub record ExpectedMessage ⦃p : Platform⦄ : Type 0 where
  pub to : p.Address
  pub method : ℕ
  pub params : Option IpldBlock
  pub value : p.TokenAmount
  pub send_return : Option IpldBlock
  pub exit_code : ℕ

pub record ExpectedVerifySig ⦃p : Platform⦄ : Type 0 where
  pub sig : p.Signature
  pub signer : p.Address
  pub plaintext : List ℕ
  pub result : Result (Unit {0}) String

pub record Expectations ⦃p : Platform⦄ : Type 0 where
  pub expect_validate_caller_any : Bool
  pub expect_validate_caller_addr : Option (List p.Address)
  pub expect_validate_caller_type : Option (List p.Cid)
  pub expect_validate_caller_not_type : Option (List p.Cid)
  pub expect_sends : List ExpectedMessage
  pub expect_create_actor : Option ExpectCreateActor
  pub expect_delete_actor : Option p.Address
  pub expect_verify_sigs : List ExpectedVerifySig
  pub expect_gas_charge : List ℤ

-- `Expectations::default()`, which `reset` restores
abbrev pub no_expectations : ⦃p : Platform⦄ → Expectations
no_expectations = record {
  expect_validate_caller_any = false;
  expect_validate_caller_addr = none;
  expect_validate_caller_type = none;
  expect_validate_caller_not_type = none;
  expect_sends = [];
  expect_create_actor = none;
  expect_delete_actor = none;
  expect_verify_sigs = [];
  expect_gas_charge = [];
}

-- `Expectations::reset`
unfoldable pub reset_expectations : ⦃p : Platform⦄ → Action Expectations (Unit {0})
reset_expectations e = (done tt, no_expectations)

-- `Expectations::verify`: the texts without the values that they show
unfoldable pub verify_expectations : ⦃p : Platform⦄ → Action Expectations (Unit {0})
verify_expectations e =
    (do
      assert (not e.expect_validate_caller_any) "expected ValidateCallerAny, not received"
      assert (is_none e.expect_validate_caller_addr) "expected ValidateCallerAddr, not received"
      assert (is_none e.expect_validate_caller_type) "expected ValidateCallerType, not received"
      assert (is_nil e.expect_sends) "expected all message to be send, unsent messages"
      assert (is_none e.expect_create_actor) "expected actor to be created, uncreated actor"
      assert (is_none e.expect_delete_actor) "expected actor to be deleted"
      assert (is_nil e.expect_verify_sigs) "expect_verify_sigs, not received"
      assert (is_nil e.expect_gas_charge) "expect_gas_charge, not received")
      e
