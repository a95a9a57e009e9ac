-- ===== src/TAddress.antt =====
-- primitives/src/taddress.rs: `TAddress`, an address with the type of its payload, and its encodings.
pub mod Laws
use fvm_utils.Base.{
  ℕ, ◌≡◌, Bool, true, false, not, List, String, Result, ok, err, concat, map_err, if◌then◌else◌,
}
use fvm_utils.Platform.{Platform, Protocol}

-- the types that `raw_address_types!` makes
pub data RawAddress : Type 0 where
  id_type secp256k1_type actor_type bls_type : RawAddress

-- `fvm_shared::address::Error`, of which the source makes one
pub data AddressError : Type 0 where
  invalid_payload : AddressError
  other_address_error : String → AddressError

-- the matches of `is_compatible` on the payload
unfoldable pub is_variant : RawAddress → Protocol → Bool
is_variant id_type Protocol.id = true
is_variant secp256k1_type Protocol.secp256k1 = true
is_variant actor_type Protocol.actor = true
is_variant bls_type Protocol.bls = true
is_variant _ _ = false

-- serde and the texts of addresses. What was written by serde is read back.
pub record AddressFormat ⦃p : Platform⦄ (Wire Error : Type 0) : Type 0 where
  pub serialize_address : p.Address → Result Wire Error
  pub deserialize_address : Wire → Result p.Address Error
  pub serialize_string : String → Result Wire Error
  pub deserialize_string : Wire → Result String Error
  pub from_str : String → Result p.Address AddressError
  pub custom : String → Error
  pub show_error : AddressError → String
  pub debug_error : AddressError → String
  pub deserialize-serialize_address :
      (a : p.Address) (w : Wire) → serialize_address a ≡ ok w → deserialize_address w ≡ ok a
  pub deserialize-serialize_string :
      (t : String) (w : Wire) → serialize_string t ≡ ok w → deserialize_string w ≡ ok t

module _ ⦃p : Platform⦄ where
  -- `TAddress<T>`; the type parameter is a phantom
  pub record TAddress : Type 0 where
    pub addr : p.Address

  abbrev pub new : p.Address → TAddress
  new a = record { addr = a }

  abbrev pub to_bytes : TAddress → List ℕ
  to_bytes t = p.address_bytes t.addr

  -- `From<TAddress<T>> for Address`
  abbrev pub into_address : TAddress → p.Address
  into_address t = t.addr

  unfoldable pub is_compatible : RawAddress → p.Address → Bool
  unfolding is_variant
  is_compatible typ a = is_variant typ (p.protocol a)

  unfoldable pub try_from : RawAddress → p.Address → Result TAddress AddressError
  unfolding is_compatible
  try_from typ value = if not (is_compatible typ value) then err invalid_payload else ok (new value)

  module _ {Wire Error : Type 0} (format : AddressFormat Wire Error) where
    unfoldable pub serialize : TAddress → Result Wire Error
    serialize t = format.serialize_address t.addr

    abbrev pub wrong_type : AddressError → Error
    wrong_type e = format.custom (concat "wrong address type: " (format.show_error e))

    unfoldable pub deserialize : RawAddress → Wire → Result TAddress Error
    unfolding try_from
    deserialize typ w = elim (format.deserialize_address w) [
      | err e ↦ err e
      | ok raw ↦ map_err wrong_type (try_from typ raw)
    ]

    -- `TAddressKey`, which wraps a `TAddress`
    unfoldable pub serialize_key : TAddress → Result Wire Error
    serialize_key t = format.serialize_string (p.show_address t.addr)

    unfoldable pub deserialize_key : RawAddress → Wire → Result TAddress Error
    unfolding try_from
    deserialize_key typ w = elim (format.deserialize_string w) [
      | err e ↦ err e
      | ok str ↦ elim (format.from_str str) [
        | err e ↦ err (format.custom (concat "not an address string: " (format.debug_error e)))
        | ok raw ↦ map_err wrong_type (try_from typ raw)
      ]
    ]
