-- ===== src/Example/Answers.antt =====
-- What an answered message says of the example actor: which of its two methods has run.
use fvm_utils.Base.{
  ℕ, ◌≡◌, refl, sym, ap, ◌∙◌, List, [], ◌∷◌, Option, none, some, ok, inl, inr, ◌⊎◌, arith,
}
use fvm_utils.Platform.{Platform, IpldBlock}
use fvm_utils.Action.{done, Action}
use fvm_utils.Downcast.{HamtError}
use fvm_utils.Hamt.{Blocks, Hamt}
use fvm_utils.Shared.Restricting.{restrict_internal_api_iff}
use fvm_utils.Dispatch.{Method, find_method, dispatch, unit, no_argument, one_argument}
use fvm_utils.Dispatch.Answers.{
  find_method_cases, call_without_done, call_with_done, invoke_method_done,
}
use fvm_utils.Fvm.Kernel.{Syscalls, CborStore}
use fvm_utils.Fvm.Instance.{FvmRuntime, fvm_runtime, default}
use fvm_utils.Fvm.State.{fvm_state_runtime}
use fvm_utils.Fvm.Trampoline.{trampoline, returned}
use fvm_utils.Fvm.Validation.{trampoline_validated, ends_without_data}
use fvm_utils.Example.{State, User, Setting, UserPersistParam, methods, invoke}
use fvm_utils.Example.OnFvm.{persist_on_fvm}
use fvm_utils.Example.Calls.{construct_on_fvm}

module _ ⦃p : Platform⦄ (setting : Setting) {K : Type 0} (sys : Syscalls K)
    (store : CborStore sys State) {blocks : Blocks (FvmRuntime K)}
    (users : Hamt blocks p.Cid HamtError User) where
  -- the actor on the FVM
  abbrev pub actor : ℕ → Option IpldBlock → Action (FvmRuntime K) (Option IpldBlock)
  actor = invoke setting users (fvm_runtime sys) (fvm_state_runtime sys store)

  abbrev pub Constructed : ℕ → FvmRuntime K → FvmRuntime K → Type 0
  Constructed n rt rt' =
      (n ≡ p.method_constructor) × (construct_on_fvm setting sys store users rt ≡ (done tt, rt'))

  abbrev pub Persisted : ℕ → Option IpldBlock → FvmRuntime K → FvmRuntime K → Type 0
  Persisted n args rt rt' =
      (b : IpldBlock) × (param : UserPersistParam) × (n ≡ setting.persist_number)
      × (args ≡ some b)
      × (setting.decode_param b ≡ ok param)
      × (persist_on_fvm setting sys store users param rt ≡ (done tt, rt'))

  abbrev table : List (ℕ × Method (FvmRuntime K))
  table = methods setting users (fvm_runtime sys) (fvm_state_runtime sys store)

  abbrev constructor_method : Method (FvmRuntime K)
  constructor_method = dispatch (no_argument unit) (construct_on_fvm setting sys store users)

  abbrev persist_method : Method (FvmRuntime K)
  persist_method =
      dispatch (one_argument setting.decode_param unit) (persist_on_fvm setting sys store users)

  method_ran :
      (n : ℕ) (args ret : Option IpldBlock) (f : Method (FvmRuntime K)) (rt rt' : FvmRuntime K)
      → find_method table n ≡ some f
      → f args rt ≡ (done ret, rt')
      → (ret ≡ none) × (Constructed n rt rt' ⊎ Persisted n args rt rt')
  unfolding find_method methods dispatch
  method_ran n args ret f rt rt' found ran =
      elim (find_method_cases p.method_constructor n constructor_method f
        ((setting.persist_number, persist_method) ∷ []) found) [
          | inl (is_constructor, same) ↦
              let (no_args, no_block, built) =
                call_without_done (construct_on_fvm setting sys store users) args ret rt rt'
                  (ap (λ g. g args rt) same ∙ ran) in
              (no_block, inl (is_constructor, built))
          | inr later ↦
              elim (find_method_cases setting.persist_number n persist_method f [] later) [
                | inl (is_persist, same) ↦
                    let (b, param, given, read, no_block, put) =
                      call_with_done setting.decode_param (persist_on_fvm setting sys store users)
                        args ret rt rt' (ap (λ g. g args rt) same ∙ ran) in
                    (no_block, inr (b, param, is_persist, given, read, put))
                | inr missing ↦ absurd (ground arith)
              ]
        ]

  -- A message that is answered was the constructor's or one of `Persist` with a parameter that decodes;
  -- the method has succeeded, and the kernel is as the method left it.
  pub answered :
      (id n : ℕ) (k k' : K)
      → trampoline sys actor id k ≡ (returned n, k')
      → (params : Option IpldBlock) × (rt : FvmRuntime K) × (sys.params_raw id k ≡ some params)
        × (k' ≡ rt.kernel)
        × (Constructed (sys.method_number k) (default k) rt
            ⊎ Persisted (sys.method_number k) params (default k) rt)
  unfolding invoke
  answered id n k k' h =
      let (params, ret, rt, raw, ran, validated) =
        trampoline_validated sys actor id k n (ap (λ x. x.0) h) in
      let (s1, f, passed, found, called) =
        invoke_method_done (fvm_runtime sys) table (sys.method_number k) params ret (default k) rt
          ran in
      let same : s1 ≡ default k =
        sym (ap (λ x. x.1) passed)
        ∙ (restrict_internal_api_iff sys (sys.method_number k) (default k)).1 in
      let (no_block, which) =
        method_ran (sys.method_number k) params ret f (default k) rt found
          (ap (λ s. f params s) (sym same) ∙ called) in
      (
        params,
        rt,
        raw,
        sym (ap (λ x. x.1) h)
            ∙ ap (λ x. x.1)
                (ends_without_data sys actor id k params (sys.method_number k) rt raw refl
                  (ran ∙ ap (λ x. (done x, rt)) no_block) validated),
        which,
      )
