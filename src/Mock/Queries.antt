-- ===== src/Mock/Queries.antt =====
-- runtime/src/test_utils.rs: the implementations of `MessageInfo` and `Primitives` by `MockRuntime`, and the
-- queries of its `Runtime`.
use fvm_utils.Base.{String}
use fvm_utils.Platform.{Platform}
use fvm_utils.Runtime.{MessageInfo, RuntimeQueries, Primitives}
use fvm_utils.Mock.Core.{
  MockRuntime, caller, receiver, value_received, network_version, curr_epoch, current_balance,
  total_fil_circ_supply, base_fee, hash_blake2b,
}
use fvm_utils.Mock.Instance.{charge_gas, verify_signature, get_code_cid_for_type}

module _ ⦃p : Platform⦄ {BS : Type 0} where
  -- `impl MessageInfo for MockRuntime`, behind the assertion of `message`
  abbrev pub mock_message : MessageInfo (MockRuntime BS)
  mock_message = record { caller = caller; receiver = receiver; value_received = value_received }

  -- the queries of `impl Runtime for MockRuntime`; the name of a gas charge is not looked at
  abbrev pub mock_queries : (String → p.Cid) → RuntimeQueries (MockRuntime BS)
  mock_queries make_builtin = record {
    network_version = network_version;
    message = mock_message;
    curr_epoch = curr_epoch;
    current_balance = current_balance;
    get_code_cid_for_type = get_code_cid_for_type make_builtin;
    total_fil_circ_supply = total_fil_circ_supply;
    charge_gas = λ name value. charge_gas value;
    base_fee = base_fee;
  }

  -- `impl Primitives for MockRuntime`
  abbrev pub mock_primitives : Primitives (MockRuntime BS) String
  mock_primitives = record { hash_blake2b = hash_blake2b; verify_signature = verify_signature }
