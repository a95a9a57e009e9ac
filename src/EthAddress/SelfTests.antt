-- ===== src/EthAddress/SelfTests.antt =====
-- primitives/src/ethaddr.rs: the tests of addresses of ids; `false` is an assertion that does not hold.
use fvm_utils.Base.{
  ℕ, ◌≡◌, refl, Bool, true, false, ◌&&◌, Option, none, some, List, [], ◌∷◌, ◌++◌, nat_eq, same_list,
  replicate,
}
use fvm_utils.Bytes.{from_be_bytes, from_be_acc, to_be_bytes}
use fvm_utils.EthAddress.{from_u256, from_id, as_id, is_id}

abbrev type_padding : List ℕ
type_padding = replicate 12 0

abbrev id_address_marker : List ℕ
id_address_marker = 255 ∷ []

abbrev good_address_padding : List ℕ
good_address_padding = replicate 11 0

abbrev bad_marker_bytes : List ℕ
bad_marker_bytes = 250 ∷ []

abbrev bad_padding_bytes : List ℕ
bad_padding_bytes = replicate 10 0 ++ 1 ∷ []

-- `assert_eq!` on the id
abbrev same_id : Option ℕ → Option ℕ → Bool
same_id none none = true
same_id (some a) (some b) = nat_eq a b
same_id none (some b) = false
same_id (some a) none = false

-- the inverse conversion, of an id that is expected
abbrev goes_back : Option ℕ → List ℕ → Bool
goes_back none evm_addr = true
goes_back (some fil_id) evm_addr = same_list nat_eq (from_id fil_id) evm_addr

-- the body of `id_address_test`, on the bytes of a word
unfoldable id_address_test : List ℕ → Option ℕ → Bool
id_address_test evm_bytes expectation =
    let evm_addr = from_u256 (from_be_bytes evm_bytes) in
    same_id (as_id evm_addr) expectation && goes_back expectation evm_addr

abbrev one : List ℕ
one = replicate 7 0 ++ 1 ∷ []

unfoldable good_address_1 : Bool
good_address_1 =
    id_address_test (type_padding ++ id_address_marker ++ good_address_padding ++ one) (some 1)

-- `u16::MAX`
unfoldable good_address_2 : Bool
good_address_2 =
    id_address_test
      (type_padding ++ id_address_marker ++ good_address_padding ++ replicate 6 0 ++ 255 ∷ 255 ∷ [])
      (some 65_535)

unfoldable bad_marker : Bool
bad_marker = id_address_test (type_padding ++ bad_marker_bytes ++ good_address_padding ++ one) none

unfoldable bad_padding : Bool
bad_padding = id_address_test (type_padding ++ id_address_marker ++ bad_padding_bytes ++ one) none

unfoldable bad_marker_and_padding : Bool
bad_marker_and_padding =
    id_address_test (type_padding ++ bad_marker_bytes ++ bad_padding_bytes ++ one) none

-- The five tests pass.
id_address_tests_hold :
    (good_address_1 ≡ true)
    × (good_address_2 ≡ true)
    × (bad_marker ≡ true)
    × (bad_padding ≡ true)
    × (bad_marker_and_padding ≡ true)
unfolding good_address_1 good_address_2 bad_marker bad_padding bad_marker_and_padding
    id_address_test same_list from_u256 from_id as_id is_id from_be_acc to_be_bytes
id_address_tests_hold = (refl, refl, refl, refl, refl)
