-- ===== src/Example/Sessions.antt =====
-- A test of the example actor of any length: calls to `Persist` from any callers on the runtime of the tests.
use fvm_utils.Base.{
  ℕ, ◌+◌, ◌≡◌, ◌≢◌, ◌≤◌, ◌<◌, refl, ◌∙◌, false, Option, none, some, List, [], ◌∷◌, String, Result,
  ok, length, arith,
}
use fvm_utils.Platform.{Platform, IpldBlock}
use fvm_utils.Action.{done, Action, pure, ◌>>◌, ◌>>=◌, >>=-done}
use fvm_utils.Builtin.{first_exported_method_number}
use fvm_utils.Downcast.{HamtError}
use fvm_utils.Hamt.{Blocks, Hamt, Contents, put_entry}
use fvm_utils.Mock.Core.{MockRuntime}
use fvm_utils.Mock.Setup.{set_caller, expect_validate_caller_any, call}
use fvm_utils.Mock.State.{MockStore}
use fvm_utils.Example.{State, User, Setting, UserPersistParam}
use fvm_utils.Example.Laws.{user_of}
use fvm_utils.Example.OnMock.{mock_actor, Serving, Keeps}
use fvm_utils.Example.OnMock.Persisting.{persist_call, after_persist}
use fvm_utils.Example.SelfTests.{unwrap, unwrap_result}

-- a call of the test: the caller, its code and the name
pub record Visit ⦃p : Platform⦄ : Type 0 where
  pub address : p.Address
  pub code : p.Cid
  pub name : String

module _ ⦃p : Platform⦄ (setting : Setting) {BS : Type 0} (make_builtin : String → p.Cid)
    (encode_param : UserPersistParam → Result (Option IpldBlock) String)
    (states : MockStore BS State) {blocks : Blocks (MockRuntime BS)}
    (users : Hamt blocks p.Cid HamtError User) where
  -- the caller is set
  abbrev enter : Visit → Action (MockRuntime BS) (Unit {0})
  enter v m = (done tt, set_caller v.code v.address m)

  -- one call, as a test makes it
  unfoldable pub visit : Visit → Action (MockRuntime BS) (Option IpldBlock)
  unfolding set_caller expect_validate_caller_any
  visit v = do
    enter v
    expect_validate_caller_any
    params ← unwrap_result (encode_param (record { name = v.name }))
    λ m.
        unwrap (call (mock_actor setting make_builtin states users) setting.persist_number params m)

  unfoldable pub session : List Visit → Action (MockRuntime BS) (Unit {0})
  unfolding visit
  session [] = pure tt
  session (v ∷ vs) = visit v >> session vs

  -- the users after a session
  unfoldable pub visited : Contents User → List Visit → Contents User
  visited f [] = f
  visited f (v ∷ vs) =
      visited
        (put_entry f (p.address_bytes v.address) (some (user_of setting users v.address v.name))) vs

  -- the parameter of a call
  abbrev pub param_of : Visit → UserPersistParam
  param_of v = record { name = v.name }

  -- the parameters are encoded as blocks that decode to them
  abbrev pub Readable : List Visit → Type 0
  Readable [] = Unit
  Readable (v ∷ vs) =
      ((b : IpldBlock) × (encode_param (param_of v) ≡ ok (some b))
        × (setting.decode_param b ≡ ok (param_of v)))
      × Readable vs

  module _ (serving : Serving setting make_builtin states users)
      (exported : first_exported_method_number ≤ setting.persist_number)
      (other : p.method_constructor ≢ setting.persist_number) where
    visit_done :
        (v : Visit) (b : IpldBlock) (m m' : MockRuntime BS)
        → encode_param (param_of v) ≡ ok (some b)
        → let ready = (expect_validate_caller_any (set_caller v.code v.address m)).1 in
          call (mock_actor setting make_builtin states users) setting.persist_number (some b) ready
            ≡ (done none, m')
          → visit v m ≡ (done none, m')
    unfolding visit set_caller expect_validate_caller_any
    visit_done v b m m' encoded ran = ground (arith, encoded, ran)

    one_visit :
        (v : Visit) (b : IpldBlock) (m : MockRuntime BS) (st : State) (f : Contents User)
        → encode_param (param_of v) ≡ ok (some b)
        → setting.decode_param b ≡ ok (param_of v)
        → m.in_transaction ≡ false
        → st.call_count < setting.usize_max
        → Keeps setting make_builtin states users serving st f m
        → (st' : State) × (m' : MockRuntime BS) × (visit v m ≡ (done none, m'))
          × (st'.call_count ≡ st.call_count + 1)
          × (m'.in_transaction ≡ false)
          × Keeps setting make_builtin states users serving st' (visited f (v ∷ [])) m'
    unfolding visited set_caller expect_validate_caller_any
    one_visit v b m st f encoded decoded closed room (c, root, found, held) =
        let ready = (expect_validate_caller_any (set_caller v.code v.address m)).1 in
        let moved =
          users.Stored-Extends st.typed_hamt.cid f m ready (serving.store_only m ready refl) held in
        let (st', c', b', ran, counted, kept) =
          persist_call setting make_builtin states users serving (param_of v) b ready st f exported
            other decoded refl closed room (c, root, found, moved) in
        let m' = after_persist setting make_builtin states users serving c' b' ready in
        (st', m', visit_done v b m m' encoded ran, counted, refl, kept)

    -- Where the store of the tests keeps what is put and can always be written, the parameters are read back
    -- as they were encoded, and `Persist` has an exported number that is not the constructor's, a test
    -- of any length passes: from a mock outside of a transaction that keeps a state, any calls to
    -- `Persist`, whoever makes them, all succeed, as long as the state counts no more calls than the
    -- greatest `usize`; the state that is kept afterwards counts as many more calls, and its users are
    -- those from before with the callers put in one after the other.
    pub session_passes :
        (vs : List Visit) (n : ℕ) (m : MockRuntime BS) (st : State) (f : Contents User)
        → Readable vs
        → m.in_transaction ≡ false
        → Keeps setting make_builtin states users serving st f m
        → n + length vs ≤ setting.usize_max
        → st.call_count ≡ n
        → (st' : State) × (m' : MockRuntime BS) × (session vs m ≡ (done tt, m'))
          × (st'.call_count ≡ n + length vs)
          × Keeps setting make_builtin states users serving st' (visited f vs) m'
    unfolding session visited
    session_passes [] n m st f readable closed kept room counted =
        (st, m, refl, omega (arith, counted), kept)
    session_passes (v ∷ vs) n m st f ((b, encoded, decoded), readable) closed kept room counted =
        let (st1, m1, ran, more, closed1, kept1) =
          one_visit v b m st f encoded decoded closed (omega (arith, room, counted)) kept in
        let (st', m', rest, total, kept') =
          session_passes vs (n + 1) m1 st1 (visited f (v ∷ [])) readable closed1 kept1
            (omega (arith, room)) (omega (arith, counted, more)) in
        (
          st',
          m',
          >>=-done (visit v) (λ r. session vs) {s = m} ran ∙ rest,
          omega (arith, total),
          kept',
        )
