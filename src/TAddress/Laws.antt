-- ===== src/TAddress/Laws.antt =====
-- Typed addresses are read back exactly where they have the payload of their type.
use fvm_utils.Base.{if◌then◌else◌, ◌⊎◌, ◌≡◌, true, ok, err, arith, inl, inr}
use fvm_utils.Platform.{Platform}
use fvm_utils.TAddress.{
  TAddress, RawAddress, AddressFormat, is_compatible, try_from, serialize, deserialize,
  serialize_key, deserialize_key, wrong_type, invalid_payload,
}

module _ ⦃p : Platform⦄ {Wire Error : Type 0} (format : AddressFormat Wire Error) where
  pub deserialize_reads :
      (typ : RawAddress) (t : TAddress) (w : Wire)
      → serialize format t ≡ ok w
      → deserialize format typ w
        ≡ (if is_compatible typ t.addr then ok t else err (wrong_type format invalid_payload))
  unfolding serialize deserialize try_from
  deserialize_reads typ t w h = ground (arith, format.deserialize-serialize_address t.addr w h)

  pub deserialize_key_reads :
      (typ : RawAddress) (t : TAddress) (w : Wire)
      → format.from_str (p.show_address t.addr) ≡ ok t.addr
      → serialize_key format t ≡ ok w
      → deserialize_key format typ w
        ≡ (if is_compatible typ t.addr then ok t else err (wrong_type format invalid_payload))
  unfolding serialize_key deserialize_key try_from
  deserialize_key_reads typ t w shown h =
      ground (arith, format.deserialize-serialize_string (p.show_address t.addr) w h, shown)

  -- A typed address whose text is that of the address and that was serialized, in either form, is read
  -- back where its payload is of the type that is asked for; elsewhere it is refused as of the wrong
  -- type.
  pub deserialize-serialize_address :
      (typ : RawAddress) (t : TAddress) (w w' : Wire)
      → format.from_str (p.show_address t.addr) ≡ ok t.addr
      → serialize format t ≡ ok w
      → serialize_key format t ≡ ok w'
      → let expected =
          if is_compatible typ t.addr then ok t else err (wrong_type format invalid_payload) in
        (deserialize format typ w ≡ expected) × (deserialize_key format typ w' ≡ expected)
  deserialize-serialize_address typ t w w' shown h k =
      (deserialize_reads typ t w h, deserialize_key_reads typ t w' shown k)

  -- Whatever the bytes, an address that is read has the payload of the type that is asked for.
  pub deserialize_compatible :
      (typ : RawAddress) (t : TAddress) (w : Wire)
      → (deserialize format typ w ≡ ok t) ⊎ (deserialize_key format typ w ≡ ok t)
      → is_compatible typ t.addr ≡ true
  unfolding deserialize deserialize_key try_from
  deserialize_compatible typ t w (inl h) = ground (arith, h)
  deserialize_compatible typ t w (inr h) = ground (arith, h)
