-- ===== src/EthAddress.antt =====
-- primitives/src/ethaddr.rs: the 20 bytes of an address of the FEVM. A byte is a number, the array a
-- list, and a `U256` its value; the text of an address is the list of its UTF-8 bytes.
pub mod Ids
pub mod SelfTests
pub mod Words
pub mod Parsing
use fvm_utils.Base.{
  ℕ, zero, suc, ◌+◌, ◌^◌, ◌%◌, ◌<◌, ◌≡◌, Bool, true, false, ◌&&◌, ◌||◌, not, Option, none, some,
  List, [], ◌∷◌, ◌++◌, Result, ok, err, all, length, take, drop, replicate, nat_eq, ltb, leb,
  if◌then◌else◌,
}
use fvm_utils.Platform.{Platform}
use fvm_utils.Builtin.{eam_actor_id}
use fvm_utils.Bytes.{IsBytes, to_be_bytes, from_be_bytes}

abbrev pub EthAddress : Type 0
EthAddress = List ℕ

-- what the type `[u8; 20]` says of the list
abbrev pub IsAddress : EthAddress → Type 0
IsAddress a = (length a ≡ 20) × IsBytes a

-- `From<U256>`
unfoldable pub from_u256 : ℕ → EthAddress
from_u256 v = drop 12 (to_be_bytes 32 v)

unfoldable pub as_evm_word : EthAddress → ℕ
as_evm_word a = from_be_bytes a

unfoldable pub null : EthAddress
null = replicate 20 0

-- `self.0 == [0; 20]`
abbrev pub all_zero : List ℕ → Bool
all_zero bs = all (λ i. nat_eq i 0) bs

unfoldable pub is_null : EthAddress → Bool
is_null a = all_zero a

unfoldable pub from_id : ℕ → EthAddress
from_id n = 255 ∷ replicate 11 0 ++ to_be_bytes 8 n

unfoldable pub is_id : EthAddress → Bool
is_id [] = false
is_id (b ∷ bs) = nat_eq b 255 && all_zero (take 11 bs)

unfoldable pub as_id : EthAddress → Option ℕ
unfolding is_id
as_id a = if not (is_id a) then none else some (from_be_bytes (drop 12 a))

-- the pattern of `is_precompile` takes the first byte, the 18 in the middle and the last
unfoldable pub is_precompile : EthAddress → Bool
is_precompile [] = false
is_precompile (prefix ∷ rest) = (nat_eq prefix 254 || nat_eq prefix 0) && all_zero (take 18 rest)

-- `FromHexError`: what `hex::decode` says, and the error for a wrong length
pub data FromHexError : Type 0 where
  invalid_string_length : FromHexError
  other_hex_error : FromHexError

-- whether a character starts at the byte: it is no continuation byte
abbrev pub is_boundary : ℕ → Bool
is_boundary b = ltb b 128 || leb 192 b

module _ (decode : List ℕ → Result (List ℕ) FromHexError) where
  unfoldable pub from_hex : List ℕ → Result EthAddress FromHexError
  from_hex s = elim (decode s) [
    | err e ↦ err e
    | ok bytes ↦ if not (nat_eq (length bytes) 20) then err invalid_string_length else ok bytes
  ]

  -- `from_str`; `none` is the panic of a slice that ends inside of a character
  unfoldable pub from_str : List ℕ → Option (Result EthAddress FromHexError)
  unfolding from_hex
  from_str [] = some (from_hex [])
  from_str (a ∷ []) = some (from_hex (a ∷ []))
  from_str (a ∷ b ∷ []) = some (from_hex (a ∷ b ∷ []))
  from_str (a ∷ b ∷ c ∷ rest) =
      let shorter = from_str (c ∷ rest) in
      if is_boundary c
      then (if nat_eq a 48 && nat_eq b 120 then shorter else some (from_hex (a ∷ b ∷ c ∷ rest)))
      else none

-- `From<&EthAddress> for Address`; `new_delegated` is `Address::new_delegated`
unfoldable pub to_address :
    ⦃p : Platform⦄ → (ℕ → List ℕ → Option p.Address) → EthAddress → Option p.Address
unfolding as_id
to_address ⦃p⦄ new_delegated a = elim (as_id a) [
  | some n ↦ some (p.new_id n)
  | none ↦ new_delegated eam_actor_id a
]
