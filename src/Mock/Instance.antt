-- ===== src/Mock/Instance.antt =====
-- runtime/src/test_utils.rs: the implementation of the trait `Runtime` by `MockRuntime`.
use mathlib.Core.Option
use fvm_utils.Base.{
  same_list, ℕ, Bool, false, ◌&&◌, not, Option, none, some, List, [], ◌∷◌, String, Result, ok, err,
  concat, nat_eq, any, ℤ, int_eq, if◌then◌else◌,
}
use fvm_utils.Platform.{Platform, IpldBlock, id, platform_codes, same_address, same_cid}
use fvm_utils.ActorError
use fvm_utils.ActorError.{ActorError}
use fvm_utils.Action.{
  done, panic, Action, pure, raise, abort, expect, assert, choose, lift, ◌>>=◌, ◌>>◌,
}
use fvm_utils.Builtin.{ActorType}
use fvm_utils.Runtime.{Runtime}
use fvm_utils.Mock.Expectations.{ExpectedMessage, same_block, is_none}
use fvm_utils.Mock.Codes.{actor_types, type_of_code, code_of_type}
use fvm_utils.Mock.Core.{MockRuntime, expecting, require_in_call, query, caller}

module _ ⦃p : Platform⦄ where
  -- the error that names the caller and what was allowed
  abbrev pub caller_forbidden : String → String → ActorError
  caller_forbidden who allowed =
      ActorError.forbidden (concat who (concat " forbidden, allowed: " allowed))

  -- the error of a call with a side effect inside of a transaction
  abbrev pub side_effect : ActorError
  side_effect = ActorError.assertion_failed "side-effect within transaction"

  -- the result that was set up for the message
  unfoldable pub reply : ExpectedMessage → Result (Option IpldBlock) ActorError
  reply msg =
      if nat_eq msg.exit_code p.codes.success
      then ok msg.send_return
      else err (ActorError.unchecked msg.exit_code "Expected message Fail")

module _ ⦃p : Platform⦄ {BS : Type 0} where
  open p use {Address, Cid, TokenAmount}

  -- `resolve_address`, and `get_id_address` without the assertion
  unfoldable pub get_id_address : Address → MockRuntime BS → Option Address
  get_id_address address m = elim (p.protocol address) [
    | id ↦ some address
    | _ ↦ m.id_addresses address
  ]

  unfoldable pub resolve_address : Address → Action (MockRuntime BS) (Option Address)
  unfolding require_in_call get_id_address
  resolve_address address = query (get_id_address address)

  unfoldable pub get_actor_code_cid : ℕ → Action (MockRuntime BS) (Option Cid)
  unfolding require_in_call
  get_actor_code_cid n = query (λ m. m.actor_code_cids (p.new_id n))

  unfoldable pub validate_immediate_caller_accept_any : Action (MockRuntime BS) (Unit {0})
  unfolding require_in_call
  validate_immediate_caller_accept_any = do
    require_in_call
    λ m. assert m.expectations.expect_validate_caller_any "unexpected validate-caller-any" m
    expecting (λ e. record e { expect_validate_caller_any = false })

  -- the expectation that is read by `unwrap`, compared with what the actor asks for
  abbrev pub assert_same {ℓ} :
      {A : Type ℓ}
      → (A → A → Bool)
      → String
      → List A
      → Option (List A)
      → Action (MockRuntime BS) (Unit {0})
  assert_same eq m asked none = abort m
  assert_same eq m asked (some expected) = assert (same_list eq asked expected) m

  unfoldable pub validate_immediate_caller_is : List Address → Action (MockRuntime BS) (Unit {0})
  unfolding require_in_call same_list
  validate_immediate_caller_is addrs = do
    require_in_call
    λ m.
        assert_same same_address "unexpected validate caller addrs" addrs
          m.expectations.expect_validate_caller_addr m
    expecting (λ e. record e { expect_validate_caller_addr = none })
    λ m.
        choose (any (λ expected. same_address m.caller expected) addrs) (pure tt)
          (raise (
            caller_forbidden (concat "caller address " (p.debug_address m.caller))
              (p.debug_addresses addrs)))
          m

  abbrev pub forget_new_address : Action (MockRuntime BS) (Unit {0})
  forget_new_address m = (done tt, record m { new_actor_addr = none })

  unfoldable pub new_actor_address : Action (MockRuntime BS) Address
  unfolding require_in_call
  new_actor_address = do
    require_in_call
    ret ← λ m. expect m.new_actor_addr "unexpected call to new actor address" m
    forget_new_address
    pure ret

  -- `pop_front` of the expected messages, of which there must be one
  unfoldable pub pop_send : Action (MockRuntime BS) ExpectedMessage
  pop_send m = elim m.expectations.expect_sends [
    | [] ↦ (panic "unexpected message", m)
    | msg ∷ rest ↦
        (done msg, record m { expectations = record m.expectations { expect_sends = rest } })
  ]

  unfoldable pub pay : TokenAmount → Action (MockRuntime BS) (Unit {0})
  pay value m =
      choose (p.amount_lt m.balance value)
        (raise (
          ActorError.unchecked p.codes.sys_sender_state_invalid (
            concat "cannot send value: " (
              concat (p.debug_amount value)
                (concat " exceeds balance: " (p.debug_amount m.balance))))))
        (λ m. (done tt, record m { balance = p.amount_sub m.balance value })) m

  unfoldable pub send :
      Address → ℕ → Option IpldBlock → TokenAmount → Action (MockRuntime BS) (Option IpldBlock)
  unfolding require_in_call
  send to method params value = require_in_call >> λ m.
      choose m.in_transaction (raise side_effect)
        (do
          msg ← pop_send
          assert (same_address msg.to to) "unexpected receiver"
          assert (nat_eq msg.method method) "unexpected method"
          assert (same_block msg.params params) "unexpected params"
          assert (p.amount_eq.eq msg.value value) "unexpected value"
          pay value
          lift (reply msg))
        m

  unfoldable pub create_actor : Cid → ℕ → Action (MockRuntime BS) (Unit {0})
  unfolding require_in_call
  create_actor code_id n = require_in_call >> λ m.
      choose m.in_transaction (raise side_effect)
        (do
          let expected = m.expectations.expect_create_actor
          expecting (λ e. record e { expect_create_actor = none })
          exp ← expect expected "unexpected call to create actor"
          assert (same_cid exp.code_id code_id && nat_eq exp.actor_id n)
              "unexpected actor being created")
        m

  unfoldable pub delete_actor : Address → Action (MockRuntime BS) (Unit {0})
  unfolding require_in_call
  delete_actor addr = require_in_call >> λ m.
      choose m.in_transaction (raise side_effect)
        (do
          let expected = m.expectations.expect_delete_actor
          expecting (λ e. record e { expect_delete_actor = none })
          exp ← expect expected "unexpected call to delete actor"
          assert (same_address exp addr) "attempt to delete wrong actor")
        m

  unfoldable pub charge_gas : ℤ → Action (MockRuntime BS) (Unit {0})
  charge_gas value m = elim m.expectations.expect_gas_charge [
    | [] ↦ (panic "unexpected gas charge", m)
    | expected ∷ rest ↦
        assert (int_eq expected value) "expected another gas charge"
          (record m { expectations = record m.expectations { expect_gas_charge = rest } })
  ]

  -- `verify_signature` returns an `anyhow` error, here its text
  unfoldable pub verify_signature :
      p.Signature → Address → List ℕ → Action (MockRuntime BS) (Result (Unit {0}) String)
  unfolding same_list
  verify_signature signature signer plaintext m = elim m.expectations.expect_verify_sigs [
    | [] ↦ (panic "Unexpected signature verification", m)
    | exp ∷ rest ↦
        let m' = record m { expectations = record m.expectations { expect_verify_sigs = rest } } in
        if p.signature_eq.eq exp.sig signature
          && (same_address exp.signer signer && same_list nat_eq exp.plaintext plaintext)
        then (done exp.result, m')
        else (panic "unexpected signature verification", m')
  ]

module _ ⦃p : Platform⦄ {BS : Type 0} where
  -- the loop of the next function: the first code that is not expected is an error
  unfoldable pub all_expected : List p.Cid → List p.Cid → Action (MockRuntime BS) (Unit {0})
  all_expected expected [] = pure tt
  all_expected expected (c ∷ cs) =
      let rest = all_expected expected cs in
      choose (any (λ e. same_cid e c) expected) rest (
        raise
          (ActorError.forbidden (concat "caller type " (concat (p.debug_cid c) " not expected"))))

module _ ⦃p : Platform⦄ (make_builtin : String → p.Cid) where
  -- `types.into_iter().map(find_by_type).collect()`, where a type without a code panics
  unfoldable pub codes_of_types : List ActorType → Option (List p.Cid)
  codes_of_types [] = some []
  codes_of_types (t ∷ ts) = elim (code_of_type t (actor_types make_builtin)) [
    | none ↦ none
    | some c ↦ Option.map (λ cs. c ∷ cs) (codes_of_types ts)
  ]

module _ ⦃p : Platform⦄ {BS : Type 0} (make_builtin : String → p.Cid) where
  open p use {Address, Cid, TokenAmount}

  unfoldable pub validate_immediate_caller_type :
      List ActorType → Action (MockRuntime BS) (Unit {0})
  unfolding require_in_call same_list
  validate_immediate_caller_type types = do
    require_in_call
    λ m.
        assert (not (is_none m.expectations.expect_validate_caller_type))
          "unexpected validate caller code" m
    cids ← expect (codes_of_types make_builtin types) "called `Option::unwrap()` on a `None` value"
    λ m.
        assert_same same_cid "unexpected validate caller code" cids
          m.expectations.expect_validate_caller_type m
    expecting (λ e. record e { expect_validate_caller_type = none })
    λ m.
        choose (any (λ expected. same_cid m.caller_type expected) cids) (pure tt)
          (raise (
            caller_forbidden (concat "caller type " (p.debug_cid m.caller_type))
              (p.debug_cids cids)))
          m

  unfoldable pub validate_immediate_caller_not_type :
      List ActorType → Action (MockRuntime BS) (Unit {0})
  unfolding require_in_call
  validate_immediate_caller_not_type types = do
    require_in_call
    expected ← λ m.
        expect m.expectations.expect_validate_caller_not_type "unexpected validate caller code" m
    cids ← expect (codes_of_types make_builtin types) "called `Option::unwrap()` on a `None` value"
    expecting (λ e. record e { expect_validate_caller_not_type = none })
    all_expected expected cids

  unfoldable pub resolve_builtin_actor_type : Cid → Action (MockRuntime BS) (Option ActorType)
  unfolding require_in_call
  resolve_builtin_actor_type code_id = query (λ m. type_of_code code_id (actor_types make_builtin))

  unfoldable pub get_code_cid_for_type : ActorType → Action (MockRuntime BS) Cid
  unfolding require_in_call
  get_code_cid_for_type typ =
      require_in_call >> expect (code_of_type typ (actor_types make_builtin)) "no code for type"

  -- `impl Runtime for MockRuntime`
  abbrev pub mock_runtime : Runtime (MockRuntime BS)
  mock_runtime = record {
    caller = caller;
    validate_immediate_caller_accept_any = validate_immediate_caller_accept_any;
    validate_immediate_caller_is = validate_immediate_caller_is;
    validate_immediate_caller_type = validate_immediate_caller_type;
    validate_immediate_caller_not_type = validate_immediate_caller_not_type;
    resolve_address = resolve_address;
    get_actor_code_cid = get_actor_code_cid;
    resolve_builtin_actor_type = resolve_builtin_actor_type;
    send = send;
    create_actor = create_actor;
    delete_actor = delete_actor;
    new_actor_address = new_actor_address;
  }
