-- ===== src/Lib.antt =====
-- A verification library for fvm-utils: utilities for actors of the Filecoin virtual machine.
--
-- The crates under runtime and primitives and the example actor are modelled. An actor's entry
-- point is `trampoline`, which makes a `FvmRuntime`, lets the actor's `invoke_method` run, and
-- ends the message with a block or with an exit code. `invoke_method` is written by
-- `actor_dispatch!`: it checks internal methods by `restrict_internal_api` and dispatches by
-- number to methods, which decode their argument. Methods use the trait `Runtime`, which
-- `FvmRuntime` implements by syscalls and `MockRuntime`, for tests, by expectations. Errors are
-- `ActorError`s, of which dynamic errors are made by `downcast_default`. An actor's state has
-- typed identifiers, `TCid`s, of what it keeps in the blockstore; the example actor has one of a
-- map.
--
-- Base          Booleans, lists, results, text and integers; Base/Tests has equality as an interface
-- Platform      parameters: addresses, identifiers, amounts, signatures and exit codes of fvm_shared
-- ActorError    runtime/src/actor_error.rs; child modules for the extension traits: Context
--               (`ActorContext`), OfResult and OfOption (`AsActorError`), Block (`deserialize_block`)
-- Downcast      runtime/src/util/downcast.rs; a dynamic error is the tree of what it wraps
-- Accumulator   runtime/src/util/message_accumulator.rs; shared collections live in a heap; Reports is about
--               sequences of reports
-- Builtin       runtime/src/builtin/mod.rs and runtime/src/builtin/singletons.rs
-- Action        calls that return, fail or panic, with the state passed on in each case
-- Runtime       runtime/src/runtime/mod.rs: the trait as a record
-- Shared        runtime/src/builtin/shared.rs and the end of runtime/src/runtime/fvm.rs, over the record
-- Dispatch      runtime/src/dispatch.rs; Laws is about its branches, Answers about calls that succeed
-- Fvm           runtime/src/runtime/fvm.rs: Kernel has the syscalls and the store as parameters, Instance
--               the operations of `FvmRuntime`, Queries those that pass a syscall on, State those on the
--               actor's state, Trampoline the entry point; Validation, Transactions, Committed and
--               Sending have the theorems
-- Mock          runtime/src/test_utils.rs: Core has the fields, Expectations, Instance and State the
--               operations, Codes the builtin actors, Queries the two smaller traits, Setup and
--               Checking what a test calls; Calls and Expecting have the theorems
-- Cell          what the trait promises of the state of an actor: a cell, which Fvm/States and Mock/States
--               show the two runtimes to implement
-- Agreement     the two runtimes side by side; Validating is about a caller that is validated twice
-- Cids          runtime/src/runtime/empty.rs, and the identifiers that runtime/src/test_utils.rs makes
-- Blockstore    runtime/src/runtime/actor_blockstore.rs
-- Cbor          runtime/src/util/cbor.rs
-- Network       runtime/src/builtin/network.rs and runtime/src/builtin/types.rs
-- Bytes         big-endian bytes of integers
-- EthAddress    primitives/src/ethaddr.rs: Ids (actor ids and precompiles), Words (256-bit words) and
--               Parsing have the theorems
-- Uints         primitives/src/uints.rs: words as limbs, and what they use of `construct_uint!`; Encoding
--               has serde and token amounts; Limbs, Signed and Division (two's complement) and Serde the
--               theorems
-- TCid          primitives/src/lib.rs: `TCid` and the operations of `tcid_ops!` over the interface
--               `Content`; Link, Map and Array implement it for primitives/src/link.rs, hamt.rs and amt.rs
-- TAddress      primitives/src/taddress.rs
-- Hamt          runtime/src/lib.rs: maps over the HAMT, a parameter with its laws; Keys has `u64_key`
-- Amt           arrays over the AMT, a parameter with its laws
-- Set           runtime/src/util/set.rs; Laws is about the loops over a set
-- SetMultimap   runtime/src/util/set_multimap.rs; Laws relates a multimap and its abstract view, a
--               function from keys to sets, and Refinement, Many and Reloading (written and
--               loaded) have the theorems
-- Multimap      runtime/src/util/multimap.rs; Laws has its abstract view, a function from keys to lists,
--               and Each is about the loops
-- Example       example/src/state.rs and example/src/lib.rs, over the trait; Laws is about the state, OnFvm
--               and Calls about the methods on the runtime of the FVM, Messages and Answers about a whole
--               message, Overflow about one at the greatest count, History about sequences of
--               calls, Stages and Lifecycle about any messages from before the construction on; OnMock
--               is about the methods on the runtime of the tests, SelfTests has the actor's own tests,
--               and Sessions is about tests of any length
-- Tests         the theorems at concrete inputs, over the small platform of Tests/Concrete
--
-- A module SelfTests has tests from the file of its component. A function of the
-- source has its name here. `&mut self` is a state that is passed on, `?` and `panic!` are the
-- cases `fail` and `panic` of an outcome. What a type parameter of the source is encoded to is a
-- parameter, as are the kernel, the store, and the texts of foreign errors. The one recursion that
-- is not structural in the source's own data, `downcast_util`, runs on fuel: one more than the
-- number of `Dynamic` layers, since each recursive call takes one layer off.
--
-- The calls that the example counts are a `usize`, whose greatest value is a parameter; to add one
-- to it panics, since example/build.rs turns the overflow checks on. A word of 256 bits is its four
-- limbs, and a token amount an integer, as `num_bigint` has it.
--
-- A map is loaded with the bit width that it was made with: the HAMT stores no width, and its laws say
-- nothing of a map that is loaded with another one. What both runtimes promise of a state (Cell) does
-- not reach to an actor without one: there the mock panics where the state is read, and the FVM answers
-- with an error.
--
-- Not modelled: `init_logging`, which sets nothing up; the trait `Verifier`, which nothing
-- implements; the tests under runtime/tests;
-- hashing and random keys, which are other crates'; and the `Debug` texts.
pub mod Base
pub mod Platform
pub mod ActorError
pub mod Downcast
pub mod Accumulator
pub mod Builtin
pub mod Action
pub mod Runtime
pub mod Fvm
pub mod Shared
pub mod Dispatch
pub mod Mock
pub mod Tests
pub mod Bytes
pub mod EthAddress
pub mod Hamt
pub mod Set
pub mod SetMultimap
pub mod Uints
pub mod Amt
pub mod TCid
pub mod Multimap
pub mod TAddress
pub mod Blockstore
pub mod Example
pub mod Cbor
pub mod Cids
pub mod Cell
pub mod Agreement
pub mod Network
