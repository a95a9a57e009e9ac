-- ===== src/EthAddress/Words.antt =====
-- Addresses and words: what `From<U256>` and `as_evm_word` keep.
use fvm_utils.Base.{ℕ, ◌+◌, ◌*◌, ◌^◌, ◌<◌, ◌≡◌, sym, ap, ◌∙◌}
use fvm_utils.Bytes.{
  to_be_bytes, from_be_bytes, length-to_be_bytes, to_be_bytes-IsBytes, drop-to_be_bytes,
  to_be_bytes_high, from_be_bytes-to_be_bytes, to_be_bytes-from_be_bytes,
}
use fvm_utils.EthAddress.{EthAddress, IsAddress, from_u256, as_evm_word}

from_u256_low : (v : ℕ) → from_u256 v ≡ to_be_bytes 20 v
unfolding from_u256
from_u256_low v = drop-to_be_bytes 20 12 v

-- Every word gives 20 bytes, those of its low part: whatever is added above the low 160 bits does
-- not change the address, and a word that fits in them is the word of its address.
pub from_u256_discards :
    (h v : ℕ)
    → v < 2 ^ 160
    → IsAddress (from_u256 v)
      × (from_u256 (h * 2 ^ 160 + v) ≡ from_u256 v)
      × (as_evm_word (from_u256 v) ≡ v)
unfolding as_evm_word
from_u256_discards h v fits = (
  (rw (from_u256_low v) (length-to_be_bytes 20 v), rw (from_u256_low v) (to_be_bytes-IsBytes 20 v)),
  rw (from_u256_low v, from_u256_low (h * 2 ^ 160 + v)) (to_be_bytes_high 20 h v),
  rw (from_u256_low v) (from_be_bytes-to_be_bytes 20 v fits),
)

-- The word of an address gives the address back.
pub from_u256-as_evm_word : (a : EthAddress) → IsAddress a → from_u256 (as_evm_word a) ≡ a
unfolding as_evm_word
from_u256-as_evm_word a h =
    from_u256_low (from_be_bytes a)
    ∙ ap (λ w. to_be_bytes w (from_be_bytes a)) (sym h.0)
    ∙ to_be_bytes-from_be_bytes a h.1
