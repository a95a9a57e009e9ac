-- ===== src/EthAddress/Parsing.antt =====
-- Addresses from text: the prefix, and when `from_str` panics.
use fvm_utils.Base.{
  ℕ, zero, suc, ◌≡◌, refl, ◌∙◌, true, some, List, [], ◌∷◌, Result, ok, err, length, all, ltb,
  nat_eq, arith, ◌&&◌, Bool-cases, inl, inr,
}
use fvm_utils.EthAddress.{EthAddress, FromHexError, from_hex, from_str, is_boundary}

-- `n` times the text "0x" before a text
abbrev pub prefixes : ℕ → List ℕ → List ℕ
prefixes zero s = s
prefixes (suc n) s = 48 ∷ 120 ∷ prefixes n s

module _ (decode : List ℕ → Result (List ℕ) FromHexError) where
  prefixes_once :
      (n c : ℕ) (s : List ℕ)
      → is_boundary c ≡ true
      → from_str decode (48 ∷ 120 ∷ prefixes n (c ∷ s)) ≡ from_str decode (prefixes n (c ∷ s))
  unfolding from_str
  prefixes_once zero c s h = ground arith
  prefixes_once (suc n) c s h = ground arith

  -- The prefix "0x" may be missing or stand there any number of times: before a text of one
  -- character at least the result is the same.
  pub from_str-prefixes :
      (n c : ℕ) (s : List ℕ)
      → is_boundary c ≡ true
      → from_str decode (prefixes n (c ∷ s)) ≡ from_str decode (c ∷ s)
  from_str-prefixes zero c s h = refl
  from_str-prefixes (suc n) c s h = prefixes_once n c s h ∙ from_str-prefixes n c s h

  -- an error, or an address of 20 bytes
  abbrev pub Fits : Result EthAddress FromHexError → Type 0
  Fits (ok a) = length a ≡ 20
  Fits (err e) = Unit

  from_hex-Fits : (s : List ℕ) → Fits (from_hex decode s)
  unfolding from_hex
  from_hex-Fits s = ground arith

  -- A text of ASCII characters makes no slice panic: it is refused by the decoder or for its length,
  -- or it is an address of 20 bytes.
  pub from_str_ascii :
      (s : List ℕ)
      → all (λ b. ltb b 128) s ≡ true
      → (r : Result EthAddress FromHexError) × (from_str decode s ≡ some r) × Fits r
  unfolding from_str
  from_str_ascii [] h = (from_hex decode [], refl, from_hex-Fits [])
  from_str_ascii (a ∷ []) h = (from_hex decode (a ∷ []), refl, from_hex-Fits (a ∷ []))
  from_str_ascii (a ∷ b ∷ []) h = (from_hex decode (a ∷ b ∷ []), refl, from_hex-Fits (a ∷ b ∷ []))
  from_str_ascii (a ∷ b ∷ c ∷ rest) h = elim (Bool-cases (nat_eq a 48 && nat_eq b 120)) [
    | inl prefixed_text ↦
        let (r, e, fits) = from_str_ascii (c ∷ rest) (ground arith) in (r, ground arith, fits)
    | inr plain ↦
        (from_hex decode (a ∷ b ∷ c ∷ rest), ground arith, from_hex-Fits (a ∷ b ∷ c ∷ rest))
  ]
