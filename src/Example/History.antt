-- ===== src/Example/History.antt =====
-- The example actor over any sequence of messages: what its state records of the calls to `persist`.
use fvm_utils.Base.{
  ℕ, ◌+◌, ◌≡◌, refl, sym, ap, ◌∙◌, true, false, Option, none, some, List, [], ◌∷◌, String, Result,
  ok, err, arith, length,
}
use fvm_utils.Platform.{Platform, platform_codes}
use fvm_utils.Action.{done}
use fvm_utils.Downcast.{AnyError, HamtError}
use fvm_utils.Hamt.{Blocks, Hamt, Contents, put_entry}
use fvm_utils.Fvm.Kernel.{Syscalls, CborStore}
use fvm_utils.Fvm.Instance.{FvmRuntime, fvm_runtime, default}
use fvm_utils.Fvm.State.{fvm_state_runtime}
use fvm_utils.Fvm.Transactions.{Holds, Writes, Writes-Holds}
use fvm_utils.Fvm.Committed.{transaction_done}
use fvm_utils.Example.{State, User, Setting, UserPersistParam, upsert_user, persist_closure}
use fvm_utils.Example.Laws.{Users, user_of, upsert_user_inserts}
use fvm_utils.Example.OnFvm.{sender, inside, persist_on_fvm, persist-transaction, ended}

-- What the actor relies on of the kernel: writing a state takes no block away, and between two messages
-- neither the root nor the blocks that it needs are lost. `Between k k'` says that the kernel is `k`
-- after a message to the actor and `k'` at the start of the next one.
pub record Chain ⦃p : Platform⦄ {K : Type 0} (sys : Syscalls K) (store : CborStore sys State)
    (blocks : Blocks (FvmRuntime K)) : Type 1 where
  pub Between : K → K → Type 0
  pub writes_grow :
      (st : State) (rt : FvmRuntime K) (c : p.Cid) (k : K)
      → Writes sys store st rt.kernel c k
      → blocks.Extends rt (record rt { kernel = k; in_transaction = false })
  pub between_root : (k k' : K) → Between k k' → sys.self_root k' ≡ sys.self_root k
  pub between_state :
      (k k' : K) (c : p.Cid) → Between k k' → store.get_cbor c k' ≡ store.get_cbor c k
  -- the runtime that a message left, and the one of the next message
  pub between_grow :
      (rt : FvmRuntime K) (k' : K) → Between rt.kernel k' → blocks.Extends rt (default k')
  -- the flags of the runtime say nothing about the blocks
  pub same_blocks : (rt rt' : FvmRuntime K) → rt.kernel ≡ rt'.kernel → blocks.Extends rt rt'

module _ ⦃p : Platform⦄ (setting : Setting) {K : Type 0} (sys : Syscalls K)
    (store : CborStore sys State) {blocks : Blocks (FvmRuntime K)}
    (users : Hamt blocks p.Cid HamtError User) (chain : Chain sys store blocks) where
  -- a call: who sent it, and the name
  abbrev pub Call : Type 0
  Call = p.Address × String

  -- Calls to `persist` that succeed, the last one first; the kernel is `k` before them and `k'` at the start
  -- of the next message.
  pub data History : K → List Call → K → Type 0 where
    nothing : {k : K} → History k [] k
    call :
        {k k1 k2 : K} {calls : List Call} (param : UserPersistParam) (rt : FvmRuntime K)
        → History k calls k1
        → persist_on_fvm setting sys store users param (default k1) ≡ (done tt, rt)
        → chain.Between rt.kernel k2
        → History k ((p.new_id (sys.msg_caller k1), param.name) ∷ calls) k2

  -- the users after calls, the last one first
  abbrev pub record_calls : Contents User → List Call → Contents User
  record_calls f [] = f
  record_calls f ((address, name) ∷ calls) =
      put_entry (record_calls f calls) (p.address_bytes address)
        (some (user_of setting users address name))

  -- At the start of a message the state counts `n` calls, and the store has its users.
  abbrev pub Records : ℕ → Contents User → K → Type 0
  Records n f k =
      (c : p.Cid) × (st : State) × Holds sys store (default k) c st
      × Users setting users st f (default k)
      × (st.call_count ≡ n)

  ended_well :
      (r : Option (Result (Unit {0}) AnyError)) (x y : State × FvmRuntime K)
      → ended setting sys store users (r, x) ≡ (done tt, y)
      → (r ≡ some (ok tt)) × (x ≡ y)
  ended_well none x y h = absurd (ground arith)
  ended_well (some (ok u)) x y h = (ground arith, cc h)
  ended_well (some (err e)) x y h = absurd (ground arith)

  -- A call that succeeds leaves a runtime whose state has one more call counted, and the user of the call.
  pub persist_done :
      (param : UserPersistParam) (k : K) (rt : FvmRuntime K) (c : p.Cid) (st : State)
      (f : Contents User)
      → Holds sys store (default k) c st
      → Users setting users st f (default k)
      → persist_on_fvm setting sys store users param (default k) ≡ (done tt, rt)
      → (c' : p.Cid) × (st' : State) × Holds sys store rt c' st'
        × Users setting users st'
            (record_calls f ((p.new_id (sys.msg_caller k), param.name) ∷ []))
            rt
        × (st'.call_count ≡ st.call_count + 1)
  unfolding default persist_closure
  persist_done param k rt c st f held stored h =
      let start : FvmRuntime K = default k in
      let at = sender setting sys store users start in
      let closure =
        persist_closure setting users (fvm_runtime sys) (fvm_state_runtime sys store) at param in
      let (st', rt', c', k2, ran, writes, same) =
        transaction_done sys store closure (record start { caller_validated = true }) rt c st tt
          held (sym (persist-transaction setting sys store users param start refl) ∙ h) in
      let within = inside setting sys store users start in
      let q = upsert_user setting users at param.name st within in
      let (fine, left) = ended_well q.0 (q.1, q.2) (st', rt') ran in
      let moved =
        users.Stored-Extends st.typed_hamt.cid f start within (chain.same_blocks start within refl)
          stored in
      let (saved, counted) =
        upsert_user_inserts setting users at param.name st st' within rt' f moved
          (λ i. (fine i, (left i).0, (left i).1)) in
      (
        c',
        st',
        Writes-Holds sys store st' rt'.kernel c' k2 rt writes (ap (λ r. r.kernel) same),
        rw same (
            users.Stored-Extends st'.typed_hamt.cid
              (put_entry f (p.address_bytes at) (some (user_of setting users at param.name))) rt'
              (record rt' { kernel = k2; in_transaction = false })
              (chain.writes_grow st' rt' c' k2 writes) saved),
        counted,
      )

  pub next_message :
      (n : ℕ) (f : Contents User) (rt : FvmRuntime K) (k : K) (c : p.Cid) (st : State)
      → chain.Between rt.kernel k
      → Holds sys store rt c st
      → Users setting users st f rt
      → st.call_count ≡ n
      → Records n f k
  unfolding default
  next_message n f rt k c st between (root, read) stored counted = (
    c,
    st,
    (
      chain.between_root rt.kernel k between ∙ root,
      chain.between_state rt.kernel k c between ∙ read,
    ),
    users.Stored-Extends st.typed_hamt.cid f rt (default k) (chain.between_grow rt k between)
        stored,
    counted,
  )

  -- Where the kernel keeps what `Chain` asks for, over any sequence of calls to `persist` that succeed,
  -- whoever sends them, the state counts as many more calls, and the users that the store
  -- has for it are those from before with the callers of the sequence put in one after the other.
  pub history_recorded :
      (n : ℕ) (f : Contents User) (k k' : K) (calls : List Call)
      → Records n f k
      → History k calls k'
      → Records (n + length calls) (record_calls f calls) k'
  history_recorded n f k k' calls (c, st, held, stored, counted) nothing =
      (c, st, held, stored, omega (arith, counted))
  history_recorded n f k k' calls records
        (call {k1 = k1} {calls = before} param rt earlier ran between) =
      let (c, st, held, stored, counted) = history_recorded n f k k1 before records earlier in
      let (c', st', held', stored', counted') =
        persist_done param k1 rt c st (record_calls f before) held stored ran in
      next_message (n + length calls) (record_calls f calls) rt k' c' st' between held' stored'
        (omega (arith, counted, counted'))
