-- ===== src/Dispatch/SelfTests.antt =====
-- runtime/src/dispatch.rs: the test of the dispatch to methods with and without arguments. A panic is a test
-- that does not pass.
use fvm_utils.Base.{
  ◌≡◌, Bool, true, false, Option, none, some, String, Result, ok, err, same_text, arith, refl,
}
use fvm_utils.Platform.{Platform, IpldBlock, platform_codes}
use fvm_utils.Action.{done, fail, panic, Action, pure, assert, ◌>>◌}
use fvm_utils.Dispatch.{
  unit, serialize_cbor, maybe_into_block, dispatch, no_argument, one_argument, call_with,
  call_without,
}
use fvm_utils.Mock.Expectations.{same_block}
use fvm_utils.Mock.Expecting.{same_block_iff}

record SomeArgs : Type 0 where
  foo : String

abbrev foo_args : SomeArgs
foo_args = record { foo = "foo" }

abbrev with_arg : {S : Type 0} → SomeArgs → Action S (Unit {0})
with_arg args = assert (same_text args.foo "foo") "assertion failed: foo.foo == \"foo\""

abbrev with_arg_ret : {S : Type 0} → SomeArgs → Action S SomeArgs
with_arg_ret foo = pure foo

abbrev without_arg : {S : Type 0} → Action S (Unit {0})
without_arg = pure tt

-- `expect` on the result of a dispatch, with the assertion on its value
abbrev returns :
    {S : Type 0} → (Option IpldBlock → Bool) → Action S (Option IpldBlock) → Action S (Unit {0})
returns check f s =
    let (r, s') = f s in
    elim r [
      | done v ↦ assert (check v) "assertion failed" s'
      | fail e ↦ (panic "failed to dispatch", s')
      | panic m ↦ (panic m, s')
    ]

-- `expect_err`
abbrev refuses : {S : Type 0} → Action S (Option IpldBlock) → Action S (Unit {0})
refuses f s =
    let (r, s') = f s in
    elim r [
      | done v ↦ (panic "should have required an argument", s')
      | fail e ↦ (done tt, s')
      | panic m ↦ (panic m, s')
    ]

abbrev is_none_block : Option IpldBlock → Bool
is_none_block none = true
is_none_block (some b) = false

-- `encode` and `decode` are `IpldBlock::serialize_cbor` and `deserialize` at the arguments
module _ ⦃p : Platform⦄ (encode : SomeArgs → Result (Option IpldBlock) String)
    (decode : IpldBlock → Result SomeArgs String) {S : Type 0} where
  -- the calls of the test, with the encoded argument
  unfoldable dispatch_all : Option IpldBlock → Action S (Unit {0})
  unfolding dispatch call_with call_without
  dispatch_all arg = do
    returns is_none_block (dispatch (one_argument decode unit) with_arg arg)
    returns is_none_block (dispatch (no_argument unit) without_arg none)
    returns (λ v. same_block v arg)
        (dispatch (one_argument decode (serialize_cbor encode)) with_arg_ret arg)
    refuses (dispatch (one_argument decode unit) with_arg none)
    refuses (dispatch (no_argument unit) without_arg arg)

  unfoldable test_dispatch : Action S (Unit {0})
  unfolding dispatch_all
  test_dispatch s = elim (encode foo_args) [
    | ok arg ↦ dispatch_all arg s
    | err e ↦ (panic "failed to serialize arguments", s)
  ]

  -- Where the argument is encoded as a block that decodes to it, the test passes.
  test_dispatch_holds :
      (b : IpldBlock) (s : S)
      → encode foo_args ≡ ok (some b)
      → decode b ≡ ok foo_args
      → test_dispatch s ≡ (done tt, s)
  unfolding test_dispatch dispatch_all dispatch call_with call_without maybe_into_block
  test_dispatch_holds b s encoded decoded =
      ground (arith, encoded, decoded, (same_block_iff (some b) (some b)).1 refl)
