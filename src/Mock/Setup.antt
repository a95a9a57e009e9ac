-- ===== src/Mock/Setup.antt =====
-- runtime/src/test_utils.rs: what a test does with a `MockRuntime`: it sets fields, adds
-- expectations, calls the actor and verifies that nothing expected is left.
use fvm_utils.Base.{ℕ, Bool, true, false, Option, some, List, [], ◌∷◌, ◌++◌, ℤ, if◌then◌else◌}
use fvm_utils.Platform.{Platform, IpldBlock, Protocol, id, same_address}
use fvm_utils.Action.{Outcome, done, fail, panic, Action, assert, ◌>>◌}
use fvm_utils.Mock.Expectations.{
  Expectations, ExpectedMessage, ExpectedVerifySig, verify_expectations, reset_expectations,
}
use fvm_utils.Runtime.{ActorCode}
use fvm_utils.Mock.Core.{MockRuntime, expecting}

-- a change of one entry of a map
abbrev pub insert_at {ℓ κ} :
    {A : Type ℓ} {B : Type κ} → (A → A → Bool) → A → B → (A → Option B) → A → Option B
insert_at eq k v f j = if eq j k then some v else f j

-- the assertion of `add_id_address`
abbrev pub is_id_protocol : Protocol → Bool
is_id_protocol id = true
is_id_protocol _ = false

module _ ⦃p : Platform⦄ {BS : Type 0} where
  open p use {Address, Cid, TokenAmount}

  unfoldable pub set_balance : TokenAmount → MockRuntime BS → MockRuntime BS
  set_balance amount m = record m { balance = amount }

  unfoldable pub add_balance : TokenAmount → MockRuntime BS → MockRuntime BS
  add_balance amount m = record m { balance = p.amount_add m.balance amount }

  unfoldable pub set_value : TokenAmount → MockRuntime BS → MockRuntime BS
  set_value value m = record m { value_received = value }

  unfoldable pub set_caller : Cid → Address → MockRuntime BS → MockRuntime BS
  set_caller code_id address m = record m {
    caller = address;
    caller_type = code_id;
    actor_code_cids = insert_at same_address address code_id m.actor_code_cids;
  }

  unfoldable pub set_address_actor_type : Address → Cid → MockRuntime BS → MockRuntime BS
  set_address_actor_type address actor_type m = record m {
    actor_code_cids = insert_at same_address address actor_type m.actor_code_cids;
  }

  unfoldable pub add_id_address : Address → Address → Action (MockRuntime BS) (Unit {0})
  add_id_address source target =
      assert (is_id_protocol (p.protocol target)) "target must use ID address protocol" >> λ m.
      (done tt, record m { id_addresses = insert_at same_address source target m.id_addresses })

  unfoldable pub expect_validate_caller_addr : List Address → Action (MockRuntime BS) (Unit {0})
  expect_validate_caller_addr [] m = (panic "addrs must be non-empty", m)
  expect_validate_caller_addr (a ∷ addrs) m =
      expecting (λ e. record e { expect_validate_caller_addr = some (a ∷ addrs) }) m

  unfoldable pub expect_validate_caller_type : List Cid → Action (MockRuntime BS) (Unit {0})
  expect_validate_caller_type [] m = (panic "addrs must be non-empty", m)
  expect_validate_caller_type (c ∷ types) m =
      expecting (λ e. record e { expect_validate_caller_type = some (c ∷ types) }) m

  unfoldable pub expect_validate_caller_not_type : List Cid → Action (MockRuntime BS) (Unit {0})
  expect_validate_caller_not_type types =
      expecting (λ e. record e { expect_validate_caller_not_type = some types })

  unfoldable pub expect_validate_caller_any : Action (MockRuntime BS) (Unit {0})
  expect_validate_caller_any = expecting (λ e. record e { expect_validate_caller_any = true })

  unfoldable pub expect_verify_signature : ExpectedVerifySig → Action (MockRuntime BS) (Unit {0})
  expect_verify_signature exp =
      expecting (λ e. record e { expect_verify_sigs = e.expect_verify_sigs ++ exp ∷ [] })

  unfoldable pub expect_delete_actor : Address → Action (MockRuntime BS) (Unit {0})
  expect_delete_actor beneficiary =
      expecting (λ e. record e { expect_delete_actor = some beneficiary })

  unfoldable pub expect_send : ExpectedMessage → Action (MockRuntime BS) (Unit {0})
  expect_send msg = expecting (λ e. record e { expect_sends = e.expect_sends ++ msg ∷ [] })

  unfoldable pub expect_create_actor : Cid → ℕ → Action (MockRuntime BS) (Unit {0})
  expect_create_actor code_id n =
      expecting
        (λ e. record e { expect_create_actor = some (record { code_id = code_id; actor_id = n }) })

  unfoldable pub expect_gas_charge : ℤ → Action (MockRuntime BS) (Unit {0})
  expect_gas_charge value =
      expecting (λ e. record e { expect_gas_charge = e.expect_gas_charge ++ value ∷ [] })

  unfoldable pub set_received : TokenAmount → MockRuntime BS → MockRuntime BS
  set_received amount m = record m { value_received = amount }

  unfoldable pub set_base_fee : TokenAmount → MockRuntime BS → MockRuntime BS
  set_base_fee base_fee m = record m { base_fee = base_fee }

  unfoldable pub set_circulating_supply : TokenAmount → MockRuntime BS → MockRuntime BS
  set_circulating_supply supply m = record m { circulating_supply = supply }

  unfoldable pub set_epoch : ℤ → MockRuntime BS → MockRuntime BS
  set_epoch epoch m = record m { epoch = epoch }

  -- a call on the expectations alone
  abbrev pub on_expectations : Action Expectations (Unit {0}) → Action (MockRuntime BS) (Unit {0})
  on_expectations f m = let (r, e) = f m.expectations in (r, record m { expectations = e })

  unfoldable pub verify : Action (MockRuntime BS) (Unit {0})
  verify = on_expectations verify_expectations

  unfoldable pub reset : Action (MockRuntime BS) (Unit {0})
  reset = on_expectations reset_expectations

  -- the end of `call`: the root goes back where the method failed
  abbrev pub restore : Option Cid → Outcome (Option IpldBlock) → MockRuntime BS → MockRuntime BS
  restore prev_state (fail e) m = record m { state = prev_state; in_call = false }
  restore prev_state (done r) m = record m { in_call = false }
  restore prev_state (panic t) m = m

  -- `invoke` is `A::invoke_method`
  unfoldable pub call :
      ActorCode (MockRuntime BS) → ℕ → Option IpldBlock → Action (MockRuntime BS) (Option IpldBlock)
  call invoke method_num params m =
      let (res, m') = invoke method_num params (record m { in_call = true }) in
      (res, restore m.state res m')

  -- `call_fn`; its result is an `anyhow::Result` in Rust
  unfoldable pub call_fn :
      {A : Type 0} → (MockRuntime BS → A × MockRuntime BS) → MockRuntime BS → A × MockRuntime BS
  call_fn f m =
      let (res, m') = f (record m { in_call = true }) in (res, record m' { in_call = false })
