-- ===== src/Hamt/Keys.antt =====
-- runtime/src/lib.rs: `u64_key` and `parse_uint_key`.
use fvm_utils.Base.{
  ℕ, ◌≡◌, ap, Result, ok, String, and_then, nat_eq, nat_eq_iff, arith, same_list, same_list_iff,
}
use fvm_utils.Hamt.{BytesKey, Varint}

module _ (varint : Varint) where
  unfoldable pub u64_key : ℕ → BytesKey
  u64_key k = varint.encode_u64 k

  unfoldable pub parse_uint_key : BytesKey → Result ℕ String
  parse_uint_key s = and_then (varint.decode_u64 s) λ found. ok found.0

  -- A key is read back as its number.
  pub parse_uint_key-u64_key : (n : ℕ) → parse_uint_key (u64_key n) ≡ ok n
  unfolding parse_uint_key u64_key
  parse_uint_key-u64_key n = ground (arith, varint.decode-encode n)

  u64_key-inj : (m n : ℕ) → u64_key m ≡ u64_key n → m ≡ n
  u64_key-inj m n e =
      ground (arith, parse_uint_key-u64_key m, parse_uint_key-u64_key n, ap parse_uint_key e)

  -- Keys are equal exactly where their numbers are.
  pub same_list-u64_key : (m n : ℕ) → same_list nat_eq (u64_key m) (u64_key n) ≡ nat_eq m n
  same_list-u64_key m n =
      ground (
        arith,
        same_list_iff nat_eq nat_eq_iff (u64_key m) (u64_key n),
        u64_key-inj m n,
        ap u64_key,
      )
