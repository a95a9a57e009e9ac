-- ===== src/Cids.antt =====
-- runtime/src/runtime/empty.rs, `EMPTY_ARR_CID` of runtime/src/runtime/fvm.rs, and the identifiers and
-- keys that runtime/src/test_utils.rs makes. Hashing and the format of identifiers are the crates'.
use mathlib.Core.Option
use fvm_utils.Base.{ℕ, zero, suc, ◌≡◌, Option, none, some, List, [], ◌∷◌, Result, ok, err}

-- `MhCode`
pub data MhCode : Type 0 where
  poseidon_fake sha256_trunc_padded_fake : MhCode

-- What the crates cid and multihash give. A digest that is wrapped with the code of its function is the
-- hash that the function gives.
pub record CidCrate (Cid : Type 0) : Type 1 where
  pub Multihash : Type 0
  pub new_v1 : ℕ → Multihash → Cid
  pub wrap : ℕ → List ℕ → Result Multihash (Unit {0})
  -- `DAG_CBOR`, and `SupportedHashes::Blake2b256 as u64`
  pub dag_cbor : ℕ
  pub blake2b256_code : ℕ
  -- the bytes of the digest, and `Code::Blake2b256.digest`
  pub blake2b256 : List ℕ → List ℕ
  pub digest : List ℕ → Multihash
  pub mh_digest : MhCode → List ℕ → Multihash
  pub wrap-digest : (bytes : List ℕ) → wrap blake2b256_code (blake2b256 bytes) ≡ ok (digest bytes)

-- `const_unwrap`; `none` is the panic, which is one of the compiler
unfoldable pub const_unwrap : {T E : Type 0} → Result T E → Option T
const_unwrap (ok v) = some v
const_unwrap (err e) = none

-- `EMPTY_ARR_HASH_DIGEST`
abbrev pub empty_arr_hash_digest : List ℕ
empty_arr_hash_digest =
    0x45 ∷ 0xb0 ∷ 0xcf ∷ 0xc2 ∷ 0x20 ∷ 0xce ∷ 0xec ∷ 0x5b ∷ 0x7c ∷ 0x1c ∷ 0x62 ∷ 0xc4 ∷ 0xd4 ∷ 0x19
    ∷ 0x3d ∷ 0x38 ∷ 0xe4 ∷ 0xeb ∷ 0xa4 ∷ 0x8e ∷ 0x88 ∷ 0x15 ∷ 0x72 ∷ 0x9c ∷ 0xe7 ∷ 0x5f ∷ 0x9c
    ∷ 0x0a ∷ 0xb0 ∷ 0xe4 ∷ 0xc1 ∷ 0xc0 ∷ []

-- `PUBKEY_ADDRESS_METHOD`
abbrev pub pubkey_address_method : ℕ
pubkey_address_method = 2

abbrev ipld_raw : ℕ
ipld_raw = 0x55

abbrev repeated : ℕ → ℕ → List ℕ
repeated zero b = []
repeated (suc n) b = b ∷ repeated n b

module _ {Cid : Type 0} (cids : CidCrate Cid) where
  open cids use {new_v1, wrap, dag_cbor, blake2b256_code, blake2b256, digest, mh_digest}

  -- `EMPTY_ARR_CID` of the tests
  unfoldable pub empty_arr_cid : Option Cid
  unfolding const_unwrap
  empty_arr_cid =
      Option.map (new_v1 dag_cbor) (const_unwrap (wrap blake2b256_code empty_arr_hash_digest))

  -- `EMPTY_ARR_CID` on the FVM, over what `to_vec` makes of the empty array
  unfoldable pub fvm_empty_arr_cid : Option (List ℕ) → Option Cid
  fvm_empty_arr_cid to_vec = Option.map (λ empty. new_v1 dag_cbor (digest empty)) to_vec

  -- The two are the same where the hash of the encoded empty array has the digest of the source.
  pub empty_arr_cids_agree :
      (empty : List ℕ)
      → blake2b256 empty ≡ empty_arr_hash_digest
      → empty_arr_cid ≡ fvm_empty_arr_cid (some empty)
  unfolding empty_arr_cid fvm_empty_arr_cid
  empty_arr_cids_agree empty e = rw (← e, cids.wrap-digest empty, const_unwrap)

  -- `none` where the name is too long
  unfoldable pub make_builtin : List ℕ → Option Cid
  make_builtin bz = elim (wrap 0 bz) [ ok hash ↦ some (new_v1 ipld_raw hash) | err e ↦ none ]

  unfoldable pub make_cid : List ℕ → ℕ → MhCode → Cid
  make_cid input prefix hash = new_v1 prefix (mh_digest hash input)

  unfoldable pub make_cid_sha : List ℕ → ℕ → Cid
  unfolding make_cid
  make_cid_sha input prefix = make_cid input prefix sha256_trunc_padded_fake

  unfoldable pub make_cid_poseidon : List ℕ → ℕ → Cid
  unfolding make_cid
  make_cid_poseidon input prefix = make_cid input prefix poseidon_fake

  -- over `FIL_COMMITMENT_UNSEALED` and `FIL_COMMITMENT_SEALED`
  unfoldable pub make_piece_cid : ℕ → List ℕ → Cid
  unfolding make_cid_sha
  make_piece_cid fil_commitment_unsealed input = make_cid_sha input fil_commitment_unsealed

  unfoldable pub make_sealed_cid : ℕ → List ℕ → Cid
  unfolding make_cid_poseidon
  make_sealed_cid fil_commitment_sealed input = make_cid_poseidon input fil_commitment_sealed

-- `new_bls_addr`, over the 48 bytes that the generator gives for a seed, and `Address::new_bls`
unfoldable pub new_bls_addr :
    {Address : Type 0} → (List ℕ → List ℕ) → (List ℕ → Option Address) → ℕ → Option Address
new_bls_addr fill_bytes new_bls s = new_bls (fill_bytes (repeated 32 s))
