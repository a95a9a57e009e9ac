-- ===== src/Blockstore/Laws.antt =====
-- What the blockstore of an actor keeps.
use fvm_utils.Base.{◌≡◌, ◌≢◌, ℕ, none, some, List, ok, arith, Result-cases, inl, inr}
use fvm_utils.Platform.{Platform, platform_codes}
use fvm_utils.Blockstore.{Block, Ipld, get, put, put_keyed, compare_keys}

module _ ⦃p : Platform⦄ {K Code : Type 0} (ipld : Ipld K Code) where
  -- A block that was put is got back under the identifier that it was given.
  pub get-put_lem :
      (code : Code) (block : Block) (c : p.Cid) (k k' : K)
      → put ipld code block k ≡ (ok c, k')
      → get ipld c k' ≡ ok (some block.bytes)
  unfolding put get
  get-put_lem code block c k k' h = ground (
    arith,
    ipld.get-put (ipld.code_into code) 32 block.codec block.bytes c k k' (ground (arith, h)),
  )

  -- A block put under a key is got back under that key: a block whose identifier is another one is
  -- refused.
  pub get-put_keyed :
      (c : p.Cid) (bytes : List ℕ) (k k' : K)
      → put_keyed ipld c bytes k ≡ (ok tt, k')
      → get ipld c k' ≡ ok (some bytes)
  unfolding put_keyed compare_keys
  get-put_keyed c bytes k k' h = elim (Result-cases (ipld.code_try_from (ipld.hash_code c))) [
    | inr (e, bad) ↦ absurd (ground arith)
    | inl (code, known) ↦
        let block : Block = record { codec = ipld.codec c; bytes = bytes } in
        elim (Result-cases (put ipld code block k).0) [
          | inr (e, bad) ↦ absurd (ground arith)
          | inl (c2, wrote) ↦
              let same : c ≡ c2 = (p.cid_eq.eq_sound c c2).0 (ground arith) in
              get-put_lem code block c k k' (ground arith)
        ]
  ]

  -- What is missing is an error, never an absence.
  pub get_present : (c : p.Cid) (k : K) → get ipld c k ≢ ok none
  unfolding get
  get_present c k = ground arith
