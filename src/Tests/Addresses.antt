-- ===== src/Tests/Addresses.antt =====
-- The theorems on primitives/src/ethaddr.rs at concrete inputs.
use fvm_utils.Base.{
  ℕ, ◌+◌, ◌*◌, ◌^◌, ◌≡◌, ◌↔◌, ◌⊎◌, ◌&&◌, refl, true, false, some, List, [], ◌∷◌, ◌++◌, replicate,
  Result, ok, err, arith,
}
use fvm_utils.EthAddress.{
  EthAddress, IsAddress, FromHexError, other_hex_error, from_id, as_id, is_id, as_evm_word,
  from_u256, is_precompile, all_zero, from_str,
}
use fvm_utils.Bytes.{from_be_acc}
use fvm_utils.EthAddress.Ids.{from_id-as_id, is_precompile_iff}
use fvm_utils.EthAddress.Words.{from_u256_discards}
use fvm_utils.EthAddress.Parsing.{Fits, from_str_ascii}
use fvm_utils.Tests.Concrete.{toy}

-- the address of the id 258
abbrev some_address : EthAddress
some_address = 255 ∷ replicate 17 0 ++ 1 ∷ 2 ∷ []

some_address-IsAddress : IsAddress some_address
some_address-IsAddress = ground arith

from_id-as_id_example : from_id 258 ≡ some_address
unfolding as_id is_id from_be_acc
from_id-as_id_example = from_id-as_id some_address 258 some_address-IsAddress refl

-- the first byte of a precompile, and one with the index 0
abbrev marker : ℕ
marker = 254

abbrev a_precompile : EthAddress
a_precompile = 254 ∷ replicate 18 0 ++ 0 ∷ []

is_precompile_iff_example :
    ((is_precompile a_precompile ≡ true)
      ↔ (((marker ≡ 254) ⊎ (marker ≡ 0)) × (all_zero (replicate 18 0) ≡ true)))
    × ((is_precompile a_precompile && is_id a_precompile) ≡ false)
is_precompile_iff_example = is_precompile_iff 254 0 (replicate 18 0) refl

from_u256_discards_example :
    IsAddress (from_u256 7)
    × (from_u256 (3 * 2 ^ 160 + 7) ≡ from_u256 7)
    × (as_evm_word (from_u256 7) ≡ 7)
from_u256_discards_example = from_u256_discards 3 7 (omega arith)

-- a decoder that takes the bytes as they are, where there are any
abbrev decoder : List ℕ → Result (List ℕ) FromHexError
decoder [] = err other_hex_error
decoder (b ∷ bs) = ok (b ∷ bs)

from_str_ascii_example :
    (r : Result EthAddress FromHexError) × (from_str decoder (48 ∷ 120 ∷ 97 ∷ []) ≡ some r)
    × Fits decoder r
from_str_ascii_example = from_str_ascii decoder (48 ∷ 120 ∷ 97 ∷ []) refl
