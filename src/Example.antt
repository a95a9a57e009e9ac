-- ===== src/Example.antt =====
-- example/src/state.rs and example/src/lib.rs: an actor that counts its calls and keeps a user for
-- each caller. It is written against the trait `Runtime`; the store that its map is in is a part of
-- the runtime's state.
pub mod Laws
pub mod OnFvm
pub mod OnMock
pub mod SelfTests
pub mod Sessions
pub mod Calls
pub mod Answers
pub mod Messages
pub mod History
pub mod Stages
pub mod Lifecycle
pub mod Overflow
use fvm_utils.Base.{
  ℕ, ◌+◌, ◌≤◌, ltb, if◌then◌else◌, Option, none, some, List, [], ◌∷◌, String, Result, ok, err,
}
use fvm_utils.Platform.{Platform, IpldBlock, platform_codes}
use fvm_utils.Action.{Outcome, done, fail, panic, Action, raise, pure, ◌>>=◌, ◌>>◌}
use fvm_utils.Downcast.{AnyError, HamtError, hamt_error, Texts, downcast_default}
use fvm_utils.Dispatch.{
  Method, Encoding, unit, dispatch, no_argument, one_argument, call_without, call_with,
  invoke_method,
}
use fvm_utils.Hamt.{Blocks, Hamt}
use fvm_utils.Runtime.{Runtime, StateRuntime}
use fvm_utils.TCid.{TCid, Names, load}
use fvm_utils.TCid.Map
use fvm_utils.TCid.Map.{hamt_content}

-- `UserPersistParam`
pub record UserPersistParam : Type 0 where
  pub name : String

pub record User ⦃p : Platform⦄ : Type 0 where
  pub name : String
  pub owner : p.Address

pub record State ⦃p : Platform⦄ : Type 0 where
  pub call_count : ℕ
  pub typed_hamt : TCid p.Cid

-- what the actor takes from its surroundings: the greatest `usize`, which is 16 bits wide or more, the bit width of maps, the address of the init actor,
-- the number of `Persist`, and the decoding of its parameter
pub record Setting ⦃p : Platform⦄ : Type 0 where
  pub texts : Texts
  pub names : Names p.Cid
  pub usize_max : ℕ
  pub usize_max_lem : 65_535 ≤ usize_max
  pub width : ℕ
  pub init_actor_addr : p.Address
  pub persist_number : ℕ
  pub decode_param : IpldBlock → Result UserPersistParam String

module _ ⦃p : Platform⦄ (setting : Setting) {S : Type 0} {blocks : Blocks S}
    (users : Hamt blocks p.Cid HamtError User) where
  -- `State::new`
  unfoldable pub new : S → Result State AnyError × S
  unfolding Map.new_hamt
  new s =
      let (r, s') = Map.new_hamt setting.names users setting.width s in
      elim r [ ok t ↦ (ok (record { call_count = 0; typed_hamt = t }), s') | err e ↦ (err e, s') ]

  -- `call_count += 1`, with the overflow checks that example/build.rs turns on: `none` is the panic
  unfoldable pub count_call : State → Option State
  count_call st =
      if ltb st.call_count setting.usize_max
      then some (record st { call_count = st.call_count + 1 })
      else none

  -- the end of `upsert_user`: the flush, which also writes the identifier
  unfoldable pub save : users.Map → State → S → Result (Unit {0}) AnyError × State × S
  unfolding Map.flush
  save m st s =
      let (r, t, s') = Map.flush setting.names users setting.width m st.typed_hamt s in
      elim r [
        | err e ↦ (err e, record st { typed_hamt = t }, s')
        | ok _ ↦ (ok tt, record st { typed_hamt = t }, s')
      ]

  -- what is left of `upsert_user` once the user is in the map; `none` is a panic
  unfoldable pub count_and_save :
      users.Map → State → S → Option (Result (Unit {0}) AnyError) × State × S
  unfolding count_call save
  count_and_save m st s = elim (count_call st) [
    | none ↦ (none, st, s)
    | some st' ↦ let (r, after, s') = save m st' s in (some r, after, s')
  ]

  unfoldable pub upsert_user :
      p.Address → String → State → S → Option (Result (Unit {0}) AnyError) × State × S
  unfolding load count_and_save
  upsert_user address name st s =
      elim (load setting.names (hamt_content setting.names users setting.width) st.typed_hamt s) [
        | err e ↦ (some (err e), st, s)
        | ok hamt ↦
            let (r, hamt') =
              users.set (p.address_bytes address) (record { name = name; owner = address }) hamt
                s in
            elim r [ err e ↦ (some (err (hamt_error e)), st, s) | ok _ ↦ count_and_save hamt' st s ]
      ]

  module _ (rt : Runtime S) (states : StateRuntime S State) where
    -- `e.downcast_default(ExitCode::USR_ILLEGAL_STATE, m)` on the error of a result
    abbrev pub or_illegal_state : {A T : Type 0} → String → Result A AnyError × T → Outcome A × T
    or_illegal_state m (ok a, t) = (done a, t)
    or_illegal_state m (err e, t) =
        (fail (downcast_default setting.texts e p.codes.usr_illegal_state m), t)

    unfoldable pub constructor : Action S (Unit {0})
    unfolding new
    constructor = do
      rt.validate_immediate_caller_is (setting.init_actor_addr ∷ [])
      st ← λ s. or_illegal_state "Failed to create actor state" (new s)
      states.create st

    -- `downcast_default` on the result of `upsert_user`, which may panic
    abbrev pub or_overflow : {A T : Type 0} → Option (Result A AnyError) × T → Outcome A × T
    or_overflow (none, t) = (panic "attempt to add with overflow", t)
    or_overflow (some r, t) = or_illegal_state "Failed to create SCA actor state" (r, t)

    -- the closure of `persist`
    unfoldable pub persist_closure : p.Address → UserPersistParam → Action (State × S) (Unit {0})
    unfolding upsert_user
    persist_closure caller param s =
        let (r, st, s') = upsert_user caller param.name s.0 s.1 in or_overflow (r, (st, s'))

    unfoldable pub persist : UserPersistParam → Action S (Unit {0})
    unfolding persist_closure
    persist param = do
      caller ← rt.caller
      rt.validate_immediate_caller_accept_any
      states.transaction (persist_closure caller param)

    -- the table of `actor_dispatch!`, by the numbers of `Method`
    unfoldable pub methods : List (ℕ × Method S)
    unfolding constructor persist dispatch call_without call_with
    methods =
        (p.method_constructor, dispatch (no_argument unit) constructor)
        ∷ (setting.persist_number, dispatch (one_argument setting.decode_param unit) persist)
        ∷ []

    -- `invoke_method` of the actor
    unfoldable pub invoke : ℕ → Option IpldBlock → Action S (Option IpldBlock)
    unfolding methods invoke_method
    invoke method args = invoke_method rt methods method args
