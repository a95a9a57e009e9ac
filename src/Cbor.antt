-- ===== src/Cbor.antt =====
-- runtime/src/util/cbor.rs: values as CBOR, with errors of the serialization. The encoding is a
-- parameter: what was encoded is decoded to the same value, and its errors are their texts.
use fvm_utils.Base.{
  ◌⊎◌, ◌≡◌, ℕ, List, String, Result, ok, err, concat, prefixed, map_err, arith, Result-cases, inl,
  inr,
}
use fvm_utils.Platform.{ExitCodes}
use fvm_utils.ActorError.{ActorError, serialization}

-- `to_vec` and `RawBytes::deserialize` at one type of values
pub record Encoded (T : Type 0) : Type 0 where
  pub to_vec : T → Result (List ℕ) String
  pub from_bytes : List ℕ → Result T String
  pub from_bytes-to_vec : (x : T) (bytes : List ℕ) → to_vec x ≡ ok bytes → from_bytes bytes ≡ ok x

-- `RawBytes`
pub record RawBytes : Type 0 where
  pub bytes : List ℕ

module _ ⦃c : ExitCodes⦄ {T : Type 0} (encoded : Encoded T) where
  unfoldable pub serialize_vec : T → String → Result (List ℕ) ActorError
  serialize_vec value desc =
      map_err {F = ActorError}
        (λ e. serialization (concat "failed to serialize " (prefixed desc e)))
        (encoded.to_vec value)

  unfoldable pub serialize : T → String → Result RawBytes ActorError
  unfolding serialize_vec
  serialize value desc = elim (serialize_vec value desc) [
    | ok bytes ↦ ok (record { bytes = bytes })
    | err e ↦ err e
  ]

  unfoldable pub deserialize : RawBytes → String → Result T ActorError
  deserialize v desc =
      map_err {F = ActorError}
        (λ e. serialization (concat "failed to deserialize " (prefixed desc e)))
        (encoded.from_bytes v.bytes)

  unfoldable pub deserialize_params : RawBytes → Result T ActorError
  unfolding deserialize
  deserialize_params params = deserialize params "method parameters"

  -- What was serialized is deserialized to the same value, as the parameters of a method too.
  pub deserialize-serialize_cbor :
      (x : T) (raw : RawBytes) (desc desc' : String)
      → serialize x desc ≡ ok raw
      → (deserialize raw desc' ≡ ok x) × (deserialize_params raw ≡ ok x)
  unfolding serialize serialize_vec deserialize deserialize_params
  deserialize-serialize_cbor x raw desc desc' h = elim (Result-cases (encoded.to_vec x)) [
    | inr (e, bad) ↦ absurd (ground arith)
    | inl (bytes, wrote) ↦
        let read = encoded.from_bytes-to_vec x bytes wrote in
        let same : bytes ≡ raw.bytes = ground arith in
        (ground (arith, read, same), ground (arith, read, same))
  ]

  -- Every failure of serializing or deserializing has the code of a serialization error.
  pub serialization_code :
      (x : T) (raw : RawBytes) (desc : String) (e : ActorError)
      → ((serialize x desc ≡ err e) ⊎ (serialize_vec x desc ≡ err e))
        ⊎ ((deserialize raw desc ≡ err e) ⊎ (deserialize_params raw ≡ err e))
      → e.exit_code ≡ c.usr_serialization
  unfolding serialize serialize_vec deserialize deserialize_params serialization
  serialization_code x raw desc e (inl (inl h)) = ground (arith, h)
  serialization_code x raw desc e (inl (inr h)) = ground (arith, h)
  serialization_code x raw desc e (inr (inl h)) = ground (arith, h)
  serialization_code x raw desc e (inr (inr h)) = ground (arith, h)
