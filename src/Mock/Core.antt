-- ===== src/Mock/Core.antt =====
-- runtime/src/test_utils.rs: the fields of `MockRuntime`, its construction, and what is read from it.
use fvm_utils.Base.{ℕ, Bool, false, Option, none, List, ℤ, pos}
use fvm_utils.Platform.{Platform}
use fvm_utils.Action.{done, Action, assert, gets, ◌>>=◌}
use fvm_utils.Mock.Expectations.{Expectations, no_expectations}

-- `MockRuntime`; the `RefCell`s are plain fields, and the hash maps functions
pub record MockRuntime ⦃p : Platform⦄ (BS : Type 0) : Type 0 where
  pub epoch : ℤ
  pub miner : p.Address
  pub base_fee : p.TokenAmount
  pub id_addresses : p.Address → Option p.Address
  pub actor_code_cids : p.Address → Option p.Cid
  pub new_actor_addr : Option p.Address
  pub receiver : p.Address
  pub caller : p.Address
  pub caller_type : p.Cid
  pub value_received : p.TokenAmount
  pub hash_func : List ℕ → List ℕ
  pub network_version : ℕ
  pub state : Option p.Cid
  pub balance : p.TokenAmount
  pub in_call : Bool
  pub store : BS
  pub in_transaction : Bool
  pub expectations : Expectations
  pub circulating_supply : p.TokenAmount

-- `new`, which `default` is for the default store; `default_cid` is that of `Cid`, and `blake2b_256` the
-- hash function, whose library the tests only call
unfoldable pub new : ⦃p : Platform⦄ {BS : Type 0} → p.Cid → (List ℕ → List ℕ) → BS → MockRuntime BS
new ⦃p⦄ default_cid blake2b_256 store = record {
  epoch = pos 0;
  miner = p.new_id 0;
  base_fee = p.amount_zero;
  id_addresses = λ a. none;
  actor_code_cids = λ a. none;
  new_actor_addr = none;
  receiver = p.new_id 0;
  caller = p.new_id 0;
  caller_type = default_cid;
  value_received = p.amount_zero;
  hash_func = blake2b_256;
  network_version = 0;
  state = none;
  balance = p.amount_zero;
  in_call = false;
  store = store;
  in_transaction = false;
  expectations = no_expectations;
  circulating_supply = p.amount_zero;
}

module _ ⦃p : Platform⦄ {BS : Type 0} where
  open p use {Address, Cid, TokenAmount}

  -- a change of the expectations alone
  abbrev pub expecting : (Expectations → Expectations) → Action (MockRuntime BS) (Unit {0})
  expecting f m = (done tt, record m { expectations = f m.expectations })

  unfoldable pub require_in_call : Action (MockRuntime BS) (Unit {0})
  require_in_call m = assert m.in_call "invalid runtime invocation outside of method call" m

  -- a query, in a call only
  abbrev pub query : {A : Type 0} → (MockRuntime BS → A) → Action (MockRuntime BS) A
  query f = require_in_call >>= λ _ m. (done (f m), m)

  -- `message().caller()`; it is `message` that asserts the call
  unfoldable pub caller : Action (MockRuntime BS) Address
  unfolding require_in_call
  caller = query (λ m. m.caller)

  unfoldable pub curr_epoch : Action (MockRuntime BS) ℤ
  unfolding require_in_call
  curr_epoch = query (λ m. m.epoch)

  unfoldable pub current_balance : Action (MockRuntime BS) TokenAmount
  unfolding require_in_call
  current_balance = query (λ m. m.balance)

  -- the other two of `MessageInfo`
  unfoldable pub receiver : Action (MockRuntime BS) Address
  unfolding require_in_call
  receiver = query (λ m. m.receiver)

  unfoldable pub value_received : Action (MockRuntime BS) TokenAmount
  unfolding require_in_call
  value_received = query (λ m. m.value_received)

  -- what is read without the assertion of a call
  unfoldable pub network_version : Action (MockRuntime BS) ℕ
  network_version = gets (λ m. m.network_version)

  unfoldable pub total_fil_circ_supply : Action (MockRuntime BS) TokenAmount
  total_fil_circ_supply = gets (λ m. m.circulating_supply)

  unfoldable pub base_fee : Action (MockRuntime BS) TokenAmount
  base_fee = gets (λ m. m.base_fee)

  unfoldable pub get_balance : Action (MockRuntime BS) TokenAmount
  get_balance = gets (λ m. m.balance)

  unfoldable pub hash_blake2b : List ℕ → Action (MockRuntime BS) (List ℕ)
  hash_blake2b bytes = gets (λ m. m.hash_func bytes)
