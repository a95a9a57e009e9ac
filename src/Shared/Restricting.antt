-- ===== src/Shared/Restricting.antt =====
-- Which callers `restrict_internal_api` lets through, over the runtime of the FVM.
use fvm_utils.Base.{ℕ, ◌≡◌, ◌≤◌, ◌↔◌, ◌⊎◌, some, arith, Option-cases, inl, inr, ℤ}
use fvm_utils.Platform.{Platform}
use fvm_utils.Action.{done}
use fvm_utils.Builtin.{first_exported_method_number}
use fvm_utils.Shared.{restrict_internal_api}
use fvm_utils.Fvm.Kernel.{Syscalls}
use fvm_utils.Fvm.Instance.{
  FvmRuntime, fvm_runtime, caller, get_actor_code_cid, resolve_builtin_actor_type,
}

module _ ⦃p : Platform⦄ {K : Type 0} (sys : Syscalls K) where
  -- A method of the exported range is open to every caller; one below it exactly to the callers
  -- whose code is known and of a builtin type. The check changes nothing.
  pub restrict_internal_api_iff :
      (method : ℕ) (rt : FvmRuntime K)
      → let (r, rt') = restrict_internal_api (fvm_runtime sys) method rt in
        ((r ≡ done tt) ↔ (
          (first_exported_method_number ≤ method)
          ⊎ ((cid : p.Cid) × (sys.sys_get_actor_code_cid
                  (p.new_id (sys.msg_caller rt.kernel))
                  rt.kernel
                ≡ some cid)
              × (typ : ℤ) × (sys.sys_get_builtin_actor_type cid rt.kernel ≡ some typ))))
        × (rt' ≡ rt)
  unfolding restrict_internal_api caller get_actor_code_cid resolve_builtin_actor_type
  restrict_internal_api_iff method rt =
      elim (Option-cases
        (sys.sys_get_actor_code_cid (p.new_id (sys.msg_caller rt.kernel)) rt.kernel)) [
          | inl lost ↦ (
            (
              λ h. ground (arith, p.actor_id-new_id (sys.msg_caller rt.kernel)),
              λ h. ground (arith, p.actor_id-new_id (sys.msg_caller rt.kernel)),
            ),
            ground (arith, p.actor_id-new_id (sys.msg_caller rt.kernel)),
          )
          | inr (cid, known) ↦ elim (Option-cases (sys.sys_get_builtin_actor_type cid rt.kernel)) [
            | inl other ↦ (
              (
                λ h. ground (arith, p.actor_id-new_id (sys.msg_caller rt.kernel)),
                λ h. ground (arith, p.actor_id-new_id (sys.msg_caller rt.kernel)),
              ),
              ground (arith, p.actor_id-new_id (sys.msg_caller rt.kernel)),
            )
            | inr (typ, builtin) ↦ (
              (
                λ h. inr (cid, known, typ, builtin),
                λ h. ground (arith, p.actor_id-new_id (sys.msg_caller rt.kernel)),
              ),
              ground (arith, p.actor_id-new_id (sys.msg_caller rt.kernel)),
            )
          ]
        ]
