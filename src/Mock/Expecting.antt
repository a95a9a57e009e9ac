-- ===== src/Mock/Expecting.antt =====
-- What `MockRuntime` accepts of an actor: the validation of the caller and the messages that were
-- expected, and when `verify` finds that nothing is left.
use fvm_utils.Base.{
  same_list_iff, ℕ, ◌≡◌, ◌↔◌, ◌⊎◌, inl, inr, refl, true, false, any, Option, none, some, String,
  List, [], ◌∷◌, arith, nat_eq, nat_eq_iff, if◌then◌else◌,
}
use fvm_utils.Platform.{Platform, IpldBlock, platform_codes, same_address}
use fvm_utils.ActorError
use fvm_utils.Action.{Outcome, panic, done, fail, ◌>>◌}
use fvm_utils.Builtin.{ActorType}
use fvm_utils.Mock.Expectations.{Expectations, ExpectedMessage, same_block, verify_expectations}
use fvm_utils.Mock.Core.{MockRuntime, require_in_call}
use fvm_utils.Mock.Instance.{
  validate_immediate_caller_is, pop_send, pay, send, reply, validate_immediate_caller_not_type,
  all_expected,
}
use fvm_utils.Mock.Setup.{expect_send, expect_validate_caller_addr, verify}

List-cases {ℓ} :
    {A : Type ℓ} (xs : List A) → (xs ≡ []) ⊎ ((x : A) × (rest : List A) × (xs ≡ x ∷ rest))
List-cases [] = inl refl
List-cases (x ∷ xs) = inr (x, xs, refl)

pub same_block_iff : (a b : Option IpldBlock) → (same_block a b ≡ true) ↔ (a ≡ b)
unfolding same_block
same_block_iff none none = ground arith
same_block_iff (some a) (some b) =
    grind (arith, nat_eq_iff a.codec b.codec, same_list_iff nat_eq nat_eq_iff a.bytes b.bytes)
same_block_iff none (some b) = ground arith
same_block_iff (some a) none = ground arith

module _ ⦃p : Platform⦄ where
  -- Nothing that `verify` looks at is expected.
  abbrev pub Settled : Expectations → Type 0
  Settled e =
      (e.expect_validate_caller_any ≡ false)
      × (e.expect_validate_caller_addr ≡ none)
      × (e.expect_validate_caller_type ≡ none)
      × (e.expect_sends ≡ [])
      × (e.expect_create_actor ≡ none)
      × (e.expect_delete_actor ≡ none)
      × (e.expect_verify_sigs ≡ [])
      × (e.expect_gas_charge ≡ [])

module _ ⦃p : Platform⦄ {BS : Type 0} where
  -- `verify` never changes the mock, and it passes exactly where no validation by `any`, by address
  -- or by type, no message, creation, deletion, signature or gas charge is still expected; it passes
  -- with an expected validation by `not_type` that never came.
  pub verify_iff :
      (m : MockRuntime BS)
      → ((verify m).1 ≡ m) × (((verify m).0 ≡ done tt) ↔ Settled m.expectations)
  unfolding verify verify_expectations
  verify_iff m = (ground arith, ground arith)

  -- how a validation by address ended: a panic changes nothing, and any other end uses up the
  -- expectation and changes nothing else
  abbrev pub UsedUp : Outcome (Unit {0}) → MockRuntime BS → MockRuntime BS → Type 0
  UsedUp (panic t) m after = after ≡ m
  UsedUp other m after =
      after
      ≡ record m { expectations = record m.expectations { expect_validate_caller_addr = none } }

  -- A caller is accepted by address exactly inside of a call, where the addresses that the actor
  -- allows are the expected ones, not others or in another order, and the caller is one of them.
  -- The expectation is used up where the caller is accepted or refused, and nothing else changes; a
  -- panic changes nothing.
  pub mock_validate_is_iff :
      (addrs : List p.Address) (m : MockRuntime BS)
      → let (r, after) = validate_immediate_caller_is addrs m in
        ((r ≡ done tt) ↔ (
          (m.in_call ≡ true)
          × (m.expectations.expect_validate_caller_addr ≡ some addrs)
          × (any (λ a. p.address_eq.eq m.caller a) addrs ≡ true)))
        × UsedUp r m after
  unfolding validate_immediate_caller_is require_in_call
  mock_validate_is_iff addrs m =
      (grind (arith, same_list_iff same_address p.address_eq.eq_sound addrs), ground arith)

  all_expected_same :
      (expected cs : List p.Cid) (m m' : MockRuntime BS)
      → (all_expected expected cs m).0 ≡ (all_expected expected cs m').0
  unfolding all_expected
  all_expected_same expected [] m m' = refl
  all_expected_same expected (c ∷ cs) m m' = ground (arith, all_expected_same expected cs m m')

  -- The validation by `not_type` does not look at the type of the caller: its result is the same
  -- for a caller of any type.
  pub not_type_ignores_caller :
      (make_builtin : String → p.Cid) (types : List ActorType) (m : MockRuntime BS) (c : p.Cid)
      → (validate_immediate_caller_not_type make_builtin types (record m { caller_type = c })).0
        ≡ (validate_immediate_caller_not_type make_builtin types m).0
  unfolding validate_immediate_caller_not_type require_in_call
  not_type_ignores_caller make_builtin types m c = grind (arith, all_expected_same)

  -- the message that is expected first, and how a message that the mock lets succeed compares with it
  abbrev pub Sent :
      MockRuntime BS
      → ExpectedMessage
      → List ExpectedMessage
      → p.Address
      → ℕ
      → Option IpldBlock
      → p.TokenAmount
      → Option IpldBlock
      → MockRuntime BS
      → Type 0
  Sent m msg rest to method params value r after =
      (m.expectations.expect_sends ≡ msg ∷ rest)
      × (msg.to ≡ to)
      × (msg.method ≡ method)
      × (msg.params ≡ params)
      × (msg.value ≡ value)
      × (msg.send_return ≡ r)
      × (p.amount_lt m.balance value ≡ false)
      × (after ≡ record m {
        balance = p.amount_sub m.balance value;
        expectations = record m.expectations { expect_sends = rest };
      })

  send_first :
      (m : MockRuntime BS) (to : p.Address) (method : ℕ) (params : Option IpldBlock)
      → (value : p.TokenAmount) (r : Option IpldBlock) (msg : ExpectedMessage)
      → (rest : List ExpectedMessage) → m.expectations.expect_sends ≡ msg ∷ rest
      → (send to method params value m).0 ≡ done r
      → Sent m msg rest to method params value r (send to method params value m).1
  unfolding send require_in_call pop_send pay reply
  send_first m to method params value r msg rest e h = (
    e,
    ground (arith, p.address_eq.eq_sound msg.to to),
    ground arith,
    ground (arith, same_block_iff msg.params params),
    ground (arith, p.amount_eq.eq_sound msg.value value),
    ground arith,
    ground arith,
    ground arith,
  )

  send_none :
      (m : MockRuntime BS) (to : p.Address) (method : ℕ) (params : Option IpldBlock)
      → (value : p.TokenAmount) (r : Option IpldBlock) → m.expectations.expect_sends ≡ []
      → (send to method params value m).0 ≡ done r
      → ⊥
  unfolding send require_in_call pop_send
  send_none m to method params value r e h = ground arith

  -- Where the mock lets a message succeed, it was the first of the expected ones: receiver, method,
  -- parameters and value are as expected, the balance covers the value, and the result is the one
  -- that was set up. That expectation is gone, the value is taken off the balance, and nothing else
  -- changes.
  pub send_expected :
      (m : MockRuntime BS) (to : p.Address) (method : ℕ) (params : Option IpldBlock)
      → (value : p.TokenAmount) (r : Option IpldBlock) → (send to method params value m).0 ≡ done r
      → (msg : ExpectedMessage) × (rest : List ExpectedMessage) × Sent m msg rest to method params
          value r
          (send to method params value m).1
  send_expected m to method params value r h = elim (List-cases m.expectations.expect_sends) [
    | inl e ↦ absurd (send_none m to method params value r e h)
    | inr (msg, rest, e) ↦ (msg, rest, send_first m to method params value r msg rest e h)
  ]

  -- A message that was expected first can be sent as expected where the balance covers its value,
  -- inside of a call, outside of transactions and with nothing else expected: the sender gets the result that was set up, whatever its exit code, a
  -- system code as well; the value leaves the balance also where that result is an error; and then
  -- `verify` passes.
  pub expect_send-send :
      (m : MockRuntime BS) (msg : ExpectedMessage)
      → m.in_call ≡ true
      → m.in_transaction ≡ false
      → p.amount_lt m.balance msg.value ≡ false
      → Settled m.expectations
      → let (r, after) = (expect_send msg >> send msg.to msg.method msg.params msg.value) m in
        (r ≡ (
          if nat_eq msg.exit_code p.codes.success
          then done msg.send_return
          else fail (ActorError.unchecked msg.exit_code "Expected message Fail")))
        × (after ≡ record m { balance = p.amount_sub m.balance msg.value })
        × ((verify after).0 ≡ done tt)
  unfolding expect_send send require_in_call pop_send pay reply
  expect_send-send m msg inside closed covered settled = (
    ground (
      arith,
      p.address_eq.eq_sound msg.to msg.to,
      same_block_iff msg.params msg.params,
      p.amount_eq.eq_sound msg.value msg.value,
      settled,
    ),
    ground (
      arith,
      p.address_eq.eq_sound msg.to msg.to,
      same_block_iff msg.params msg.params,
      p.amount_eq.eq_sound msg.value msg.value,
      settled,
    ),
    ground (
      arith,
      p.address_eq.eq_sound msg.to msg.to,
      same_block_iff msg.params msg.params,
      p.amount_eq.eq_sound msg.value msg.value,
      settled,
      (verify_iff ((expect_send msg >> send msg.to msg.method msg.params msg.value) m).1).1,
    ),
  )

  -- An expected validation by address is accepted for the addresses that were expected, where the
  -- caller is among them, and leaves the mock as it was before the expectation.
  pub expect_addr-validate_is :
      (m : MockRuntime BS) (a : p.Address) (addrs : List p.Address)
      → m.in_call ≡ true
      → m.expectations.expect_validate_caller_addr ≡ none
      → any (λ b. p.address_eq.eq m.caller b) (a ∷ addrs) ≡ true
      → (expect_validate_caller_addr (a ∷ addrs) >> validate_immediate_caller_is (a ∷ addrs)) m
        ≡ (done tt, m)
  unfolding expect_validate_caller_addr validate_immediate_caller_is require_in_call
  expect_addr-validate_is m a addrs inside before found =
      ground
        (arith, (same_list_iff same_address p.address_eq.eq_sound (a ∷ addrs) (a ∷ addrs)).1 refl)
