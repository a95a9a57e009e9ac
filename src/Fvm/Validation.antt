-- ===== src/Fvm/Validation.antt =====
-- The validation of the caller: what makes each of the four operations succeed, that a runtime
-- accepts one validation at most, and that the trampoline accepts no call without one.
use fvm_utils.Base.{
  ℕ, ◌+◌, ◌≡◌, ◌↔◌, refl, ap, sym, ◌∙◌, Bool, true, false, any, Option, none, some, List, [], ◌∷◌,
  arith, Option-cases, inl, inr,
}
use fvm_utils.Platform.{Platform, IpldBlock}
use mathlib.Core.Option
use fvm_utils.ActorError.{ActorError}
use fvm_utils.Action.{Outcome, done, fail, panic, Action, pure, ◌>>=◌}
use fvm_utils.Builtin.{ActorType, from_i32}
use fvm_utils.Fvm.Kernel.{Syscalls}
use fvm_utils.Fvm.Instance.{
  FvmRuntime, default, among, validate_immediate_caller_accept_any, validate_immediate_caller_is,
  validate_immediate_caller_type, validate_immediate_caller_not_type, send, create_actor,
  delete_actor,
}
use fvm_utils.Fvm.Trampoline.{returned, aborted, trampoline, finish, store_result}

module _ ⦃p : Platform⦄ {K : Type 0} (sys : Syscalls K) where
  -- How a validation ended: it succeeded, there was none before and now there is one; or it did
  -- not, and the runtime is as it was.
  abbrev pub Validated : Outcome (Unit {0}) → FvmRuntime K → FvmRuntime K → Type 0
  Validated (done _) rt rt' =
      (rt.caller_validated ≡ false) × (rt' ≡ record rt { caller_validated = true })
  Validated _ rt rt' = rt' ≡ rt

  -- A caller is accepted by address exactly where nothing was validated before and the address of
  -- the immediate caller is in the list; then that is recorded, and otherwise nothing changes.
  pub validate_immediate_caller_is_iff :
      (addresses : List p.Address) (rt : FvmRuntime K)
      → let (r, rt') = validate_immediate_caller_is sys addresses rt in
        ((r ≡ done tt) ↔ (
          (rt.caller_validated ≡ false)
          × (any (λ a. p.address_eq.eq a (p.new_id (sys.msg_caller rt.kernel))) addresses ≡ true)))
        × Validated r rt rt'
  unfolding validate_immediate_caller_is
  validate_immediate_caller_is_iff addresses rt = (ground arith, ground arith)

  -- Where the code of the immediate caller is known, the caller is accepted by type exactly where
  -- nothing was validated before and its code has a builtin type of the list, and accepted by the
  -- opposite test exactly where nothing was validated before and it has none of them: a caller that
  -- is no builtin actor fails the first and passes the second.
  pub validate_immediate_caller_type_iff :
      (types : List ActorType) (rt : FvmRuntime K) (cid : p.Cid)
      → sys.sys_get_actor_code_cid (p.new_id (sys.msg_caller rt.kernel)) rt.kernel ≡ some cid
      → let typ = Option.map from_i32 (sys.sys_get_builtin_actor_type cid rt.kernel) in
        ((validate_immediate_caller_type sys types rt).0 ≡ done tt
          ↔ ((rt.caller_validated ≡ false) × (among sys types typ ≡ true)))
        × ((validate_immediate_caller_not_type sys types rt).0 ≡ done tt
            ↔ ((rt.caller_validated ≡ false) × (among sys types typ ≡ false)))
  unfolding validate_immediate_caller_type validate_immediate_caller_not_type
  validate_immediate_caller_type_iff types rt cid known = (
    ground (arith, p.actor_id-new_id (sys.msg_caller rt.kernel)),
    ground (arith, p.actor_id-new_id (sys.msg_caller rt.kernel)),
  )

  -- The calls of a method that touch the kernel or the flags, outside of transactions.
  pub data Call : Type 0 where
    accept_any : Call
    caller_is : List p.Address → Call
    caller_type caller_not_type : List ActorType → Call
    send_to : p.Address → ℕ → Option IpldBlock → p.TokenAmount → Call
    create_with : p.Cid → ℕ → Call
    delete_self : p.Address → Call

  -- whether a call counts as a validation
  abbrev pub is_validation : Call → Bool
  is_validation accept_any = true
  is_validation (caller_is _) = true
  is_validation (caller_type _) = true
  is_validation (caller_not_type _) = true
  is_validation other = false

  ignore : {A : Type 0} → Action (FvmRuntime K) A → Action (FvmRuntime K) (Unit {0})
  ignore m = m >>= λ _. pure tt

  pub perform : Call → Action (FvmRuntime K) (Unit {0})
  unfolding ignore
  perform accept_any = validate_immediate_caller_accept_any sys
  perform (caller_is addresses) = validate_immediate_caller_is sys addresses
  perform (caller_type types) = validate_immediate_caller_type sys types
  perform (caller_not_type types) = validate_immediate_caller_not_type sys types
  perform (send_to a m ps v) = ignore (send sys a m ps v)
  perform (create_with c n) = create_actor sys c n
  perform (delete_self a) = delete_actor sys a

  abbrev pub flag : Bool → ℕ
  flag true = 1
  flag false = 0

  -- 1 for a validation that succeeded
  abbrev pub counts : Call → Outcome (Unit {0}) → ℕ
  counts c (done _) = flag (is_validation c)
  counts c other = 0

  -- A method goes on after an error as it likes, and no further than a panic; the number is that of
  -- the validations that succeeded.
  pub perform_all : List Call → FvmRuntime K → ℕ × FvmRuntime K
  unfolding perform
  perform_all [] rt = (0, rt)
  perform_all (c ∷ cs) rt =
      let (r, rt') = perform c rt in
      let rest = perform_all cs rt' in
      elim r [ panic m ↦ (0, rt') | other ↦ (counts c other + rest.0, rest.1) ]

  perform-counts :
      (c : Call) (rt : FvmRuntime K)
      → let (r, rt') = perform c rt in
        counts c r + flag rt.caller_validated ≡ flag rt'.caller_validated
  unfolding perform validate_immediate_caller_accept_any validate_immediate_caller_is
      validate_immediate_caller_type validate_immediate_caller_not_type send create_actor
      delete_actor
  perform-counts accept_any rt = ground arith
  perform-counts _ rt = ground arith

  -- Over any calls of a method, the number of validations that succeed and the flag at the start
  -- make up the flag at the end: so at most one succeeds, and where the flag was clear at the start
  -- and is set at the end exactly one did.
  pub perform_all_once :
      (cs : List Call) (rt : FvmRuntime K)
      → let (n, rt') = perform_all cs rt in n + flag rt.caller_validated ≡ flag rt'.caller_validated
  unfolding perform_all
  perform_all_once [] rt = omega arith
  perform_all_once (c ∷ cs) rt =
      ground (arith, perform-counts c rt, perform_all_once cs (perform c rt).1)

  finish_returned :
      (r : Outcome (Option IpldBlock)) (rt : FvmRuntime K) (b : ℕ)
      → (finish sys r rt).0 ≡ returned b
      → (ret : Option IpldBlock) × (r ≡ done ret) × (rt.caller_validated ≡ true)
  unfolding finish
  finish_returned (done ret) rt b h = (ret, refl, ground arith)
  finish_returned (fail e) rt b h = absurd (ground arith)
  finish_returned (panic m) rt b h = absurd (ground arith)

  pub trampoline-finish :
      (invoke : ℕ → Option IpldBlock → Action (FvmRuntime K) (Option IpldBlock)) (id : ℕ) (k : K)
      → (params : Option IpldBlock) → sys.params_raw id k ≡ some params
      → let (r, rt) = invoke (sys.method_number k) params (default k) in
        trampoline sys invoke id k ≡ finish sys r rt
  unfolding trampoline
  trampoline-finish invoke id k params e = rw (e, trampoline)

  trampoline_no_params :
      (invoke : ℕ → Option IpldBlock → Action (FvmRuntime K) (Option IpldBlock)) (id : ℕ) (k : K)
      → (b : ℕ) → sys.params_raw id k ≡ none
      → (trampoline sys invoke id k).0 ≡ returned b
      → ⊥
  unfolding trampoline
  trampoline_no_params invoke id k b e h = ground arith

  -- The trampoline returns a block only where the parameters could be read, the method returned a
  -- value and the runtime that the method left has the caller validated.
  pub trampoline_validated :
      (invoke : ℕ → Option IpldBlock → Action (FvmRuntime K) (Option IpldBlock)) (id : ℕ) (k : K)
      → (b : ℕ) → (trampoline sys invoke id k).0 ≡ returned b
      → (params ret : Option IpldBlock) × (rt : FvmRuntime K) × (sys.params_raw id k ≡ some params)
        × (invoke (sys.method_number k) params (default k) ≡ (done ret, rt))
        × (rt.caller_validated ≡ true)
  trampoline_validated invoke id k b h = elim (Option-cases (sys.params_raw id k)) [
    | inl bad ↦ absurd (trampoline_no_params invoke id k b bad h)
    | inr (params, e) ↦
        let (r, rt) = invoke (sys.method_number k) params (default k) in
        let (ret, found, v) =
          finish_returned r rt b
            (ap (λ x. x.0) (sym (trampoline-finish invoke id k params e)) ∙ h) in
        (params, ret, rt, e, ap (λ x. (x, rt)) found, v)
  ]

  -- An error of the method ends the message with that error's code and text, whether or not the
  -- caller was validated.
  pub trampoline_error :
      (invoke : ℕ → Option IpldBlock → Action (FvmRuntime K) (Option IpldBlock)) (id : ℕ) (k : K)
      → (params : Option IpldBlock) (e : ActorError) (rt : FvmRuntime K)
      → sys.params_raw id k ≡ some params
      → invoke (sys.method_number k) params (default k) ≡ (fail e, rt)
      → trampoline sys invoke id k ≡ (aborted e.exit_code e.msg, rt.kernel)
  unfolding trampoline
  trampoline_error invoke id k params e rt hp hi = ground arith

  -- An invocation that ends without data and with a validated caller ends the message so.
  pub ends_without_data :
      (invoked : ℕ → Option IpldBlock → Action (FvmRuntime K) (Option IpldBlock)) (id : ℕ) (k : K)
      → (params : Option IpldBlock) (number : ℕ) (rt : FvmRuntime K)
      → sys.params_raw id k ≡ some params
      → sys.method_number k ≡ number
      → invoked number params (default k) ≡ (done none, rt)
      → rt.caller_validated ≡ true
      → trampoline sys invoked id k ≡ (returned sys.no_data_block_id, rt.kernel)
  unfolding trampoline finish store_result
  ends_without_data invoked id k params number rt raw numbered ran validated =
      ground (arith, raw, numbered, ran, validated)
