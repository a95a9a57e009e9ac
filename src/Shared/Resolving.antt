-- ===== src/Shared/Resolving.antt =====
-- Properties of the resolution of addresses.
use fvm_utils.Base.{◌≡◌, ◌↔◌, true, Option, none, some, ok, arith, Option-cases, inl, inr}
use fvm_utils.Platform.{Platform}
use fvm_utils.Action.{done}
use fvm_utils.Runtime.{Runtime}
use fvm_utils.Shared.{resolve_to_id_addr, equal_account_id, first_or_send, send_zero, resolve_again}

module _ ⦃p : Platform⦄ {S : Type 0} (r : Runtime S) where
  -- `resolve_address` of the runtime is a query: it answers from the state and leaves it alone.
  abbrev pub Resolves : (S → p.Address → Option p.Address) → Type 0
  Resolves table = (s : S) (a : p.Address) → r.resolve_address a s ≡ (done (table s a), s)

  -- An address that is known already is returned at once, and nothing is sent or changed.
  pub resolve_known :
      (table : S → p.Address → Option p.Address) (s : S) (address found : p.Address)
      → Resolves table
      → table s address ≡ some found
      → resolve_to_id_addr r address s ≡ (done (ok found), s)
  unfolding resolve_to_id_addr first_or_send
  resolve_known table s address found q h = ground (arith, q s address)

  -- Where `resolve_address` is a query, whatever happens on the way: an address that is returned is the one that the state left behind
  -- resolves the argument to.
  pub resolve_to_id_addr_sound :
      (table : S → p.Address → Option p.Address) (s s' : S) (address found : p.Address)
      → Resolves table
      → resolve_to_id_addr r address s ≡ (done (ok found), s')
      → table s' address ≡ some found
  unfolding resolve_to_id_addr first_or_send send_zero resolve_again
  resolve_to_id_addr_sound table s s' address found q h =
      ground (arith, q s address, q (r.send address p.method_send none p.amount_zero s).1 address)

  -- Where `resolve_address` is a query, two addresses are equal as accounts exactly where both resolve, and to equal addresses.
  pub equal_account_id_iff :
      (table : S → p.Address → Option p.Address) (s : S) (a b : p.Address)
      → Resolves table
      → (equal_account_id r a b s ≡ (done true, s))
        ↔ ((x : p.Address) × (table s a ≡ some x) × (table s b ≡ some x))
  unfolding equal_account_id
  equal_account_id_iff table s a b q = elim (Option-cases (table s a)) [
    | inl lost ↦ (λ h. ground (arith, q s a), λ h. ground (arith, q s a))
    | inr (x, ex) ↦ elim (Option-cases (table s b)) [
      | inl lost ↦ (λ h. ground (arith, q s a, q s b), λ h. ground (arith, q s a, q s b))
      | inr (y, ey) ↦ (
        λ h. (x, ex, ground (arith, q s a, q s b, p.address_eq.eq_sound x y)),
        λ h. ground (arith, q s a, q s b, p.address_eq.eq_sound x y),
      )
    ]
  ]
