-- ===== src/EthAddress/Ids.antt =====
-- Addresses that stand for an actor id, and the precompile range.
use fvm_utils.Base.{
  ℕ, zero, suc, ◌^◌, ◌<◌, ◌≤◌, ◌≡◌, ◌↔◌, refl, sym, ap, ◌∙◌, true, false, Option, some, List, [],
  ◌∷◌, ◌++◌, length, take, drop, replicate, arith, ◌⊎◌, ◌&&◌, length-drop,
}
use fvm_utils.Platform.{Platform}
use fvm_utils.Bytes.{
  to_be_bytes, from_be_bytes, IsBytes, to_be_bytes-from_be_bytes, from_be_bytes-to_be_bytes,
}
use fvm_utils.EthAddress.{
  EthAddress, IsAddress, all_zero, from_id, is_id, as_id, is_precompile, to_address,
}

-- An id that fits in 64 bits is read back from its address, which as an address of the network is
-- the id address.
pub as_id-from_id :
    ⦃p : Platform⦄ (new_delegated : ℕ → List ℕ → Option p.Address) (n : ℕ)
    → n < 2 ^ 64
    → (as_id (from_id n) ≡ some n) × (to_address new_delegated (from_id n) ≡ some (p.new_id n))
unfolding as_id is_id from_id to_address
as_id-from_id new_delegated n fits = (
  ground (arith, from_be_bytes-to_be_bytes 8 n fits),
  ground (arith, from_be_bytes-to_be_bytes 8 n fits),
)

take-drop : (n : ℕ) (bs : List ℕ) → take n bs ++ drop n bs ≡ bs
take-drop zero bs = refl
take-drop (suc n) [] = refl
take-drop (suc n) (b ∷ bs) = ap (λ l. b ∷ l) (take-drop n bs)

zeros : (bs : List ℕ) → all_zero bs ≡ true → bs ≡ replicate (length bs) 0
zeros [] h = refl
zeros (b ∷ bs) h = ground (arith, zeros bs)

length-take : (n : ℕ) (bs : List ℕ) → n ≤ length bs → length (take n bs) ≡ n
length-take zero bs h = refl
length-take (suc n) [] h = absurd (omega arith)
length-take (suc n) (b ∷ bs) h = ap suc (length-take n bs (omega arith))

drop-IsBytes : (n : ℕ) (bs : List ℕ) → IsBytes bs → IsBytes (drop n bs)
drop-IsBytes zero bs h = h
drop-IsBytes (suc n) [] h = h
drop-IsBytes (suc n) (b ∷ bs) h = drop-IsBytes n bs h.1

eight_left : (bs : List ℕ) → length bs ≡ 19 → 8 ≡ length (drop 11 bs)
eight_left bs len = omega (arith, length-drop 11 bs)

-- bytes of which the first eleven are zero, and eight after them
padded :
    (bs : List ℕ)
    → length bs ≡ 19
    → IsBytes bs
    → all_zero (take 11 bs) ≡ true
    → replicate 11 0 ++ to_be_bytes 8 (from_be_bytes (drop 11 bs)) ≡ bs
padded bs len bytes h =
    ap (λ l. replicate 11 0 ++ l)
      (ap (λ w. to_be_bytes w (from_be_bytes (drop 11 bs))) (eight_left bs len)
        ∙ to_be_bytes-from_be_bytes (drop 11 bs) (drop-IsBytes 11 bs bytes))
    ∙ ap (λ l. l ++ drop 11 bs)
        (ap (λ w. replicate w 0) (sym (length-take 11 bs (omega arith)))
          ∙ sym (zeros (take 11 bs) h))
    ∙ take-drop 11 bs

id_parts :
    (b : ℕ) (bs : List ℕ) (n : ℕ)
    → as_id (b ∷ bs) ≡ some n
    → (b ≡ 255) × (all_zero (take 11 bs) ≡ true) × (from_be_bytes (drop 11 bs) ≡ n)
unfolding as_id is_id
id_parts b bs n e = (ground arith, ground arith, ground arith)

-- An address that stands for an id is the address of that id, so no two addresses stand for one.
pub from_id-as_id : (a : EthAddress) (n : ℕ) → IsAddress a → as_id a ≡ some n → from_id n ≡ a
unfolding as_id is_id from_id
from_id-as_id [] n h e = ground arith
from_id-as_id (b ∷ bs) n h e =
    let (marker, zero_bytes, low) = id_parts b bs n e in
    ap (λ m. 255 ∷ replicate 11 0 ++ to_be_bytes 8 m) (sym low)
    ∙ ap (λ l. 255 ∷ l) (padded bs (omega (arith, h.0)) h.1.1 zero_bytes)
    ∙ ap (λ c. c ∷ bs) (sym marker)

take-append : (xs ys : List ℕ) → take (length xs) (xs ++ ys) ≡ xs
take-append [] ys = refl
take-append (x ∷ xs) ys = ap (λ l. x ∷ l) (take-append xs ys)

-- An address is in the range of the precompiles exactly where its first byte is 254 or 0 and the 18
-- bytes after it are 0, whatever the last byte is, so with the index 0 too; and then it is no
-- address of an id.
pub is_precompile_iff :
    (prefix index : ℕ) (middle : List ℕ)
    → length middle ≡ 18
    → let a = prefix ∷ middle ++ index ∷ [] in
      ((is_precompile a ≡ true) ↔ (((prefix ≡ 254) ⊎ (prefix ≡ 0)) × (all_zero middle ≡ true)))
      × ((is_precompile a && is_id a) ≡ false)
unfolding is_precompile is_id
is_precompile_iff prefix index middle h =
    let whole = ap (λ w. take w (middle ++ index ∷ [])) (sym h) ∙ take-append middle (index ∷ []) in
    (rw (whole) (ground arith), ground arith)
