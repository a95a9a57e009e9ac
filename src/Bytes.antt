-- ===== src/Bytes.antt =====
-- Big-endian bytes of machine integers: Rust's `to_be_bytes` and `from_be_bytes` at a width in bytes.
use fvm_utils.Base.{
  ℕ, zero, suc, ◌+◌, ◌*◌, ◌/◌, ◌%◌, ◌^◌, ◌<◌, ◌≤◌, ◌≡◌, refl, sym, ap, ◌∙◌, List, [], ◌∷◌, ◌++◌,
  append-nil, append_assoc, length, length-append, drop, arith,
}

-- the `w` low bytes of `n`, the most significant first
unfoldable pub to_be_bytes : ℕ → ℕ → List ℕ
to_be_bytes zero n = []
to_be_bytes (suc w) n = to_be_bytes w (n / 256) ++ n % 256 ∷ []

-- the number that `acc` and the bytes after it are
unfoldable pub from_be_acc : ℕ → List ℕ → ℕ
from_be_acc acc [] = acc
from_be_acc acc (b ∷ bs) = from_be_acc (acc * 256 + b) bs

abbrev pub from_be_bytes : List ℕ → ℕ
from_be_bytes bs = from_be_acc 0 bs

-- every number is a byte
abbrev pub IsBytes : List ℕ → Type 0
IsBytes [] = Unit
IsBytes (b ∷ bs) = (b < 256) × IsBytes bs

pub length-to_be_bytes : (w n : ℕ) → length (to_be_bytes w n) ≡ w
unfolding to_be_bytes
length-to_be_bytes zero n = refl
length-to_be_bytes (suc w) n =
    omega (
      arith,
      length-append (to_be_bytes w (n / 256)) (n % 256 ∷ []),
      length-to_be_bytes w (n / 256),
    )

from_be_acc-append :
    (acc : ℕ) (xs ys : List ℕ) → from_be_acc acc (xs ++ ys) ≡ from_be_acc (from_be_acc acc xs) ys
unfolding from_be_acc
from_be_acc-append acc [] ys = refl
from_be_acc-append acc (x ∷ xs) ys = from_be_acc-append (acc * 256 + x) xs ys

-- A number that fits is read back from its bytes.
pub from_be_bytes-to_be_bytes : (w n : ℕ) → n < 256 ^ w → from_be_bytes (to_be_bytes w n) ≡ n
unfolding to_be_bytes from_be_acc
from_be_bytes-to_be_bytes zero n h = omega arith
from_be_bytes-to_be_bytes (suc w) n h =
    from_be_acc-append 0 (to_be_bytes w (n / 256)) (n % 256 ∷ [])
    ∙ omega (arith, from_be_bytes-to_be_bytes w (n / 256) (omega arith))

quotient : (acc b : ℕ) → b < 256 → (acc * 256 + b) / 256 ≡ acc
quotient acc b h = omega arith

remainder : (acc b : ℕ) → b < 256 → (acc * 256 + b) % 256 ≡ b
remainder acc b h = omega arith

last_byte :
    (k acc b : ℕ) → b < 256 → to_be_bytes (suc k) (acc * 256 + b) ≡ to_be_bytes k acc ++ b ∷ []
unfolding to_be_bytes
last_byte k acc b h =
    ap (λ j. to_be_bytes k j ++ (acc * 256 + b) % 256 ∷ []) (quotient acc b h)
    ∙ ap (λ j. to_be_bytes k acc ++ j ∷ []) (remainder acc b h)

at_width : (j k n : ℕ) → j ≡ k → to_be_bytes j n ≡ to_be_bytes k n
at_width j k n e = ap (λ w. to_be_bytes w n) e

to_be_bytes-from_be_acc :
    (k acc : ℕ) (bs : List ℕ)
    → IsBytes bs
    → to_be_bytes (k + length bs) (from_be_acc acc bs) ≡ to_be_bytes k acc ++ bs
unfolding to_be_bytes from_be_acc
to_be_bytes-from_be_acc k acc [] h =
    at_width (k + 0) k acc (omega arith) ∙ sym (append-nil (to_be_bytes k acc))
to_be_bytes-from_be_acc k acc (b ∷ bs) h =
    at_width (k + suc (length bs)) (suc k + length bs) (from_be_acc (acc * 256 + b) bs)
      (omega arith)
    ∙ to_be_bytes-from_be_acc (suc k) (acc * 256 + b) bs h.1
    ∙ ap (λ l. l ++ bs) (last_byte k acc b h.0)
    ∙ append_assoc (to_be_bytes k acc) (b ∷ []) bs

-- Bytes are the bytes of the number that they are.
pub to_be_bytes-from_be_bytes :
    (bs : List ℕ) → IsBytes bs → to_be_bytes (length bs) (from_be_bytes bs) ≡ bs
unfolding to_be_bytes
to_be_bytes-from_be_bytes bs h =
    at_width (length bs) (0 + length bs) (from_be_acc 0 bs) (omega arith)
    ∙ to_be_bytes-from_be_acc 0 0 bs h

IsBytes-append : (xs ys : List ℕ) → IsBytes xs → IsBytes ys → IsBytes (xs ++ ys)
IsBytes-append [] ys h k = k
IsBytes-append (x ∷ xs) ys h k = (h.0, IsBytes-append xs ys h.1 k)

pub to_be_bytes-IsBytes : (w n : ℕ) → IsBytes (to_be_bytes w n)
unfolding to_be_bytes
to_be_bytes-IsBytes zero n = tt
to_be_bytes-IsBytes (suc w) n =
    IsBytes-append (to_be_bytes w (n / 256)) (n % 256 ∷ []) (to_be_bytes-IsBytes w (n / 256))
      (omega arith, tt)

drop-append :
    {A : Type 0} (j : ℕ) (xs ys : List A) → j ≤ length xs → drop j (xs ++ ys) ≡ drop j xs ++ ys
drop-append zero xs ys h = refl
drop-append (suc j) [] ys h = absurd (omega arith)
drop-append (suc j) (x ∷ xs) ys h = drop-append j xs ys (omega arith)

pub drop-length : {A : Type 0} (xs : List A) → drop (length xs) xs ≡ []
drop-length [] = refl
drop-length (x ∷ xs) = drop-length xs

-- Without the first `j` of `w + j` bytes there are the low `w`.
pub drop-to_be_bytes : (w j n : ℕ) → drop j (to_be_bytes (w + j) n) ≡ to_be_bytes w n
unfolding to_be_bytes
drop-to_be_bytes zero j n =
    ap (λ l. drop j l) (at_width (zero + j) j n (omega arith))
    ∙ ap (λ i. drop i (to_be_bytes j n)) (sym (length-to_be_bytes j n))
    ∙ drop-length (to_be_bytes j n)
drop-to_be_bytes (suc w) j n =
    ap (λ l. drop j l) (at_width (suc w + j) (suc (w + j)) n (omega arith))
    ∙ drop-append j (to_be_bytes (w + j) (n / 256)) (n % 256 ∷ [])
        (omega (arith, length-to_be_bytes (w + j) (n / 256)))
    ∙ ap (λ l. l ++ n % 256 ∷ []) (drop-to_be_bytes w j (n / 256))

high_quotient : (h m v : ℕ) → (h * (256 * m) + v) / 256 ≡ h * m + v / 256
high_quotient h m v = omega arith

high_remainder : (h m v : ℕ) → (h * (256 * m) + v) % 256 ≡ v % 256
high_remainder h m v = omega arith

pow_step : (w : ℕ) → 256 ^ suc w ≡ 256 * 256 ^ w
pow_step w = omega arith

-- What stands above the low `w` bytes has no influence on them.
pub to_be_bytes_high : (w h v : ℕ) → to_be_bytes w (h * 256 ^ w + v) ≡ to_be_bytes w v
unfolding to_be_bytes
to_be_bytes_high zero h v = refl
to_be_bytes_high (suc w) h v =
    rw (pow_step w, high_quotient h (256 ^ w) v, high_remainder h (256 ^ w) v)
      (ap (λ l. l ++ v % 256 ∷ []) (to_be_bytes_high w h (v / 256)))
