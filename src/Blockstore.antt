-- ===== src/Blockstore.antt =====
-- runtime/src/runtime/actor_blockstore.rs: the blockstore of an actor, over the IPLD syscalls, which
-- are parameters.
pub mod Laws
use fvm_utils.Base.{
  ℕ, ◌≡◌, Option, none, some, List, String, Result, ok, err, concat, map_err, PartialEq,
  if◌then◌else◌,
}
use fvm_utils.Platform.{Platform, ErrorNumber, platform_codes}
use fvm_utils.ActorError
use fvm_utils.ActorError.{ActorError}
use fvm_utils.Downcast.{AnyError, actor_error}

-- `fvm_ipld_blockstore::Block`
pub record Block : Type 0 where
  pub codec : ℕ
  pub bytes : List ℕ

-- The syscalls over the state `K` of the kernel, and the parts of identifiers. What was put can be
-- got.
pub record Ipld ⦃p : Platform⦄ (K Code : Type 0) : Type 0 where
  pub ipld_get : p.Cid → K → Result (List ℕ) ErrorNumber
  pub ipld_put : ℕ → ℕ → ℕ → List ℕ → K → Result p.Cid ErrorNumber × K
  pub hash_code : p.Cid → ℕ
  pub codec : p.Cid → ℕ
  pub code_try_from : ℕ → Result Code String
  pub code_into : Code → ℕ
  pub get-put :
      (hash size codec : ℕ) (bytes : List ℕ) (c : p.Cid) (k k' : K)
      → ipld_put hash size codec bytes k ≡ (ok c, k')
      → ipld_get c k' ≡ ok bytes

module _ ⦃p : Platform⦄ {K Code : Type 0} (ipld : Ipld K Code) where
  -- the message that the source makes of a syscall's error
  abbrev pub failed_with : String → ErrorNumber → String
  failed_with operation e = concat operation (concat " failed with " (p.show_error_number e))

  unfoldable pub get : p.Cid → K → Result (Option (List ℕ)) AnyError
  get cid k = elim (ipld.ipld_get cid k) [
    | ok bytes ↦ ok (some bytes)
    | err e ↦ err (
        actor_error (
          ActorError.illegal_state
            (concat (failed_with "get" e) (concat " on CID '" (concat (p.show_cid cid) "'")))))
  ]

  unfoldable pub put : Code → Block → K → Result p.Cid AnyError × K
  put code block k =
      let (r, k') = ipld.ipld_put (ipld.code_into code) 32 block.codec block.bytes k in
      (map_err (λ e. actor_error (ActorError.illegal_state (failed_with "put" e))) r, k')

  -- the end of `put_keyed`, on the identifier that the block got
  unfoldable pub compare_keys : p.Cid → p.Cid → Result (Unit {0}) AnyError
  compare_keys expected got =
      if p.cid_eq.eq expected got
      then ok tt
      else err (
          actor_error (
            ActorError.serialization (
              concat "put block with cid "
                (concat (p.show_cid expected) (concat " but has cid " (p.show_cid got))))))

  unfoldable pub put_keyed : p.Cid → List ℕ → K → Result (Unit {0}) AnyError × K
  unfolding put compare_keys
  put_keyed cid bytes k = elim (ipld.code_try_from (ipld.hash_code cid)) [
    | err e ↦ (err (actor_error (ActorError.serialization e)), k)
    | ok code ↦
        let (r, k') = put code (record { codec = ipld.codec cid; bytes = bytes }) k in
        elim r [ err e ↦ (err e, k') | ok cid2 ↦ (compare_keys cid cid2, k') ]
  ]
