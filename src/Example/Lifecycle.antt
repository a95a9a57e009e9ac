-- ===== src/Example/Lifecycle.antt =====
-- The example actor over its whole life: any messages, in any order, from before its construction on.
use fvm_utils.Base.{
  ℕ, suc, ◌≡◌, ◌≢◌, refl, ◌∙◌, Option, none, some, List, [], ◌∷◌, ◌++◌, String, ok, err, inl, inr,
  ◌⊎◌, arith, nat_eq, if◌then◌else◌, length,
}
use fvm_utils.Platform.{Platform, IpldBlock}
use fvm_utils.Action.{done}
use fvm_utils.Downcast.{HamtError}
use fvm_utils.Hamt.{Blocks, Hamt}
use fvm_utils.Fvm.Kernel.{Syscalls, CborStore}
use fvm_utils.Fvm.Instance.{FvmRuntime, default}
use fvm_utils.Fvm.Trampoline.{trampoline, returned, aborted}
use fvm_utils.Example.{State, User, Setting, UserPersistParam}
use fvm_utils.Example.OnFvm.{persist_on_fvm}
use fvm_utils.Example.Calls.{construct_on_fvm}
use fvm_utils.Example.Answers.{actor, answered}
use fvm_utils.Example.History.{Chain, Call, record_calls, Records, persist_done, next_message}
use fvm_utils.Example.Stages.{Separate, Unborn, constructed-Records, Holds-root, persisted_held}

module _ ⦃p : Platform⦄ (setting : Setting) {K : Type 0} (sys : Syscalls K)
    (store : CborStore sys State) {blocks : Blocks (FvmRuntime K)}
    (users : Hamt blocks p.Cid HamtError User) (chain : Chain sys store blocks) where
  sent : Option (Option IpldBlock) → K → List (Call setting sys store users chain)
  sent (some (some b)) k = elim (setting.decode_param b) [
    | ok param ↦ (p.new_id (sys.msg_caller k), param.name) ∷ []
    | err e ↦ []
  ]
  sent other k = []

  -- the call to `persist` that the message with its parameters in the block `id` makes
  unfoldable pub calls_of : ℕ → K → List (Call setting sys store users chain)
  unfolding sent
  calls_of id k =
      if nat_eq (sys.method_number k) setting.persist_number
      then sent (sys.params_raw id k) k
      else []

  -- Messages to the actor, from the start of one with the kernel `k` to the start of another with
  -- the kernel `k'`. The calls to `persist` of those that were answered are listed, the last one first; what
  -- a message that was aborted has written, the kernel takes back.
  pub data Messages : K → List (Call setting sys store users chain) → K → Type 0 where
    begin : {k : K} → Messages k [] k
    answer :
        {k k1 k2 k3 : K} {calls all : List (Call setting sys store users chain)} (id n : ℕ)
        → Messages k calls k1
        → trampoline sys (actor setting sys store users) id k1 ≡ (returned n, k2)
        → chain.Between k2 k3
        → all ≡ calls_of id k1 ++ calls
        → Messages k all k3
    abort :
        {k k1 k2 k3 : K} {calls : List (Call setting sys store users chain)} (id code : ℕ)
        (m : String)
        → Messages k calls k1
        → trampoline sys (actor setting sys store users) id k1 ≡ (aborted code m, k2)
        → chain.Between k1 k3
        → Messages k calls k3

  -- where the actor is in its life: it has no state and no call was made, or its state has the calls
  abbrev pub Stage : List (Call setting sys store users chain) → K → Type 0
  Stage calls k =
      (Unborn setting sys store users chain k × (calls ≡ []))
      ⊎ Records setting sys store users chain (length calls)
          (record_calls setting sys store users chain (λ key. none) calls) k

  calls_of_constructor :
      (id : ℕ) (k : K)
      → p.method_constructor ≢ setting.persist_number
      → sys.method_number k ≡ p.method_constructor
      → calls_of id k ≡ []
  unfolding calls_of
  calls_of_constructor id k other e = ground arith

  calls_of_persist :
      (id : ℕ) (k : K) (params : Option IpldBlock) (b : IpldBlock) (param : UserPersistParam)
      → sys.params_raw id k ≡ some params
      → params ≡ some b
      → sys.method_number k ≡ setting.persist_number
      → setting.decode_param b ≡ ok param
      → calls_of id k ≡ (p.new_id (sys.msg_caller k), param.name) ∷ []
  unfolding calls_of sent
  calls_of_persist id k params b param raw given number read =
      ground (arith, raw, given, number, read)

  -- the stage after an answer to the constructor
  after_constructor :
      (separate : Separate sys store users) (calls : List (Call setting sys store users chain))
      (k k' : K) (rt : FvmRuntime K)
      → Stage calls k
      → construct_on_fvm setting sys store users (default k) ≡ (done tt, rt)
      → chain.Between rt.kernel k'
      → Stage calls k'
  unfolding default
  after_constructor separate calls k k' rt (inl (unborn, no_calls)) built between = inr (
      rw no_calls
        (constructed-Records setting sys store users chain separate k k' rt built between).1)
  after_constructor separate calls k k' rt (inr (c, st, held, stored, counted)) built between =
      absurd (
        Holds-root setting sys store users chain separate (default k) c st held
          (constructed-Records setting sys store users chain separate k k' rt built between).0)

  -- the stage after an answer to `persist`
  after_persist :
      (separate : Separate sys store users) (calls : List (Call setting sys store users chain))
      (k k' : K) (param : UserPersistParam) (rt : FvmRuntime K)
      → Stage calls k
      → persist_on_fvm setting sys store users param (default k) ≡ (done tt, rt)
      → chain.Between rt.kernel k'
      → Stage ((p.new_id (sys.msg_caller k), param.name) ∷ calls) k'
  unfolding default
  after_persist separate calls k k' param rt (inl (unborn, no_calls)) put between =
      let (c, st, held) = persisted_held setting sys store users chain param k rt put in
      absurd (Holds-root setting sys store users chain separate (default k) c st held unborn)
  after_persist separate calls k k' param rt (inr (c, st, held, stored, counted)) put between =
      let f = record_calls setting sys store users chain (λ key. none) calls in
      let (c', st', held', stored', counted') =
        persist_done setting sys store users chain param k rt c st f held stored put in
      inr (
        next_message setting sys store users chain (suc (length calls))
          (record_calls setting sys store users chain (λ key. none)
            ((p.new_id (sys.msg_caller k), param.name) ∷ calls))
          rt k' c' st' between held' stored' (omega (arith, counted, counted')))

  -- Between messages the stage stays.
  Stage-between :
      (calls : List (Call setting sys store users chain)) (k k' : K)
      → chain.Between k k'
      → Stage calls k
      → Stage calls k'
  unfolding default
  Stage-between calls k k' between (inl (unborn, no_calls)) =
      inl (chain.between_root k k' between ∙ unborn, no_calls)
  Stage-between calls k k' between (inr (c, st, held, stored, counted)) = inr (
      next_message setting sys store users chain (length calls)
        (record_calls setting sys store users chain (λ key. none) calls) (default k) k' c st between
        held stored counted)

  -- Over the whole life of the actor, from before its construction on, over any messages with any
  -- senders, numbers and parameters, answered or aborted, the actor has no state and no call to `persist`
  -- was answered; or its state counts the calls to `persist` that were answered, and the
  -- users that the store has for it are the callers of these calls, put in one after the other. The
  -- number of `Persist` is not the constructor's, and the kernel is as `Chain` and `Separate` say.
  pub life_recorded :
      (separate : Separate sys store users) (k k' : K)
      (calls : List (Call setting sys store users chain))
      → p.method_constructor ≢ setting.persist_number
      → Unborn setting sys store users chain k
      → Messages k calls k'
      → Stage calls k'
  life_recorded separate k k' calls other unborn begin = inl (unborn, refl)
  life_recorded separate k k' calls other unborn
        (abort {k1 = k1} {k2 = k2} id code m before ran between) =
      Stage-between calls k1 k' between (life_recorded separate k k1 calls other unborn before)
  life_recorded separate k k' calls other unborn
        (answer {k1 = k1} {k2 = k2} {calls = earlier} id n before ran between same) =
      let stage = life_recorded separate k k1 earlier other unborn before in
      let (params, rt, raw, left, which) = answered setting sys store users id n k1 k2 ran in
      let next : chain.Between rt.kernel k' = rw (← left) between in
      elim which [
        | inl (number, built) ↦
            rw (same, calls_of_constructor id k1 other number)
              (after_constructor separate earlier k1 k' rt stage built next)
        | inr (b, param, number, given, read, put) ↦
            rw (same, calls_of_persist id k1 params b param raw given number read)
              (after_persist separate earlier k1 k' param rt stage put next)
      ]
