-- ===== src/Shared.antt =====
-- runtime/src/builtin/shared.rs, and the two functions at the end of runtime/src/runtime/fvm.rs:
-- what is written against the trait `Runtime` alone.
pub mod Resolving
pub mod Restricting
use fvm_utils.Base.{ℕ, Bool, true, false, Option, none, some, String, Result, ok, err, concat, leb}
use fvm_utils.Platform.{Platform, IpldBlock, secp256k1, bls, id, platform_codes, same_address}
use fvm_utils.ActorError
use fvm_utils.ActorError.{ActorError}
use fvm_utils.ActorError.Block.{deserialize_block}
use fvm_utils.Action.{
  Outcome, done, fail, panic, Action, pure, raise, lift, expect, choose, resume, ◌>>=◌, ◌>>◌,
}
use fvm_utils.Builtin.{first_exported_method_number, ActorType}
use fvm_utils.Downcast.{AnyError, actor_error, message}
use fvm_utils.Runtime.{Runtime}

module _ ⦃p : Platform⦄ {S : Type 0} (r : Runtime S) where
  open p use {Address, Cid, TokenAmount}

  -- The error of the first part of `resolve_to_id_addr` after the send, and of the second.
  abbrev pub send_failed : Address → ActorError → AnyError
  send_failed address e = actor_error (
      ActorError.wrap (concat "failed to send zero balance to address " (p.show_address address)) e)

  abbrev pub unresolved : Address → AnyError
  unresolved address = message (
      concat "failed to resolve address "
        (concat (p.show_address address) " to ID address even after sending zero balance"))

  -- the second attempt, after the send
  unfoldable pub resolve_again : Address → Action S (Result Address AnyError)
  resolve_again address = do
    found ← r.resolve_address address
    pure (elim found [ some a ↦ ok a | none ↦ err (unresolved address) ])

  -- the send, with its error turned into a result
  unfoldable pub send_zero : Address → Action S (Result Address AnyError)
  unfolding resolve_again
  send_zero address s =
      let (sent, s') = r.send address p.method_send none p.amount_zero s in
      elim sent [
        | done _ ↦ resolve_again address s'
        | fail e ↦ (done (err (send_failed address e)), s')
        | panic m ↦ (panic m, s')
      ]

  unfoldable pub first_or_send : Address → Option Address → Action S (Result Address AnyError)
  first_or_send address (some a) = pure (ok a)
  first_or_send address none = send_zero address

  unfoldable pub resolve_to_id_addr : Address → Action S (Result Address AnyError)
  unfolding first_or_send
  resolve_to_id_addr address = do found ← r.resolve_address address; first_or_send address found

  -- the match of `restrict_internal_api` on the code of the caller
  unfoldable pub require_builtin : Address → ℕ → Option Cid → Action S (Unit {0})
  require_builtin caller method none = raise (
      ActorError.forbidden (
        concat "no code for caller "
          (concat (p.show_address caller) (concat " of method " (p.show_number method)))))
  require_builtin caller method (some cid) = do
    builtin_type ← r.resolve_builtin_actor_type cid
    elim builtin_type [
      | some _ ↦ pure tt
      | none ↦ raise (
          ActorError.forbidden (
            concat "caller " (
              concat (p.show_address caller)
                (concat " of method " (concat (p.show_number method) " must be built-in")))))
    ]

  unfoldable pub restrict_internal_api : ℕ → Action S (Unit {0})
  unfolding require_builtin
  restrict_internal_api method = choose (leb first_exported_method_number method) (pure tt) (do
    caller ← r.caller
    n ← expect (p.actor_id caller) "called `Result::unwrap()` on an `Err` value"
    code_cid ← r.get_actor_code_cid n
    require_builtin caller method code_cid)

  -- `resolve_secp_bls`: `public_resolve_address_method` is the hash of the method's name, `decode`
  -- is `IpldBlock::deserialize` at the type of addresses
  unfoldable pub resolve_secp_bls :
      ℕ → (IpldBlock → Result Address String) → Address → Action S Address
  resolve_secp_bls public_resolve_address_method decode addr = elim (p.protocol addr) [
    | secp256k1 ↦ pure addr
    | bls ↦ pure addr
    | id ↦ r.send addr public_resolve_address_method none p.amount_zero >>= λ ret.
        lift (deserialize_block decode ret)
    | _ ↦ raise (ActorError.illegal_argument "address type not compatible")
  ]

  unfoldable pub equal_account_id : Address → Address → Action S Bool
  equal_account_id a b = do
    a_id ← r.resolve_address a
    elim a_id [
      | none ↦ pure false
      | some x ↦ r.resolve_address b >>= λ b_id.
          pure (elim b_id [ none ↦ false | some y ↦ same_address x y ])
    ]
