-- ===== src/Tests/LogMaps.antt =====
-- Maps for tests, in a store that is a log of them: a map in memory is the function that it holds, and
-- an identifier is a place in the log.
use fvm_utils.Base.{
  ℕ, ◌≡◌, refl, ap, ◌∙◌, Option, none, some, List, [], ◌∷◌, ◌++◌, Result, ok, err, length,
  get_elem?, arith,
}
use fvm_utils.Downcast.{HamtError, hamt_cid_not_found}
use fvm_utils.Hamt.{Blocks, Hamt, Contents}
use fvm_utils.Tests.Maps.{
  is_some, put_in, delete_in, put_in-Has, delete_in-Has, get_in-Has, contains_in-Has, unvisited,
}
use fvm_utils.Tests.Logs.{get_elem?-last, get_elem?-append, Prefix}

-- where the log is in a state
module _ {S V : Type 0} (maps : S → List (Contents V)) (with_maps : List (Contents V) → S → S)
    (maps-with : (log : List (Contents V)) (s : S) → maps (with_maps log s) ≡ log) where
  abbrev pub log_blocks : Blocks S
  log_blocks = record { Extends = λ s s'. Prefix (maps s) (maps s') }

  abbrev pub map_at : ℕ → S → Option (Contents V)
  map_at c s = get_elem? (maps s) c

  abbrev pub log_load : ℕ → S → Result (Contents V) HamtError
  log_load c s = elim (map_at c s) [ some m ↦ ok m | none ↦ err (hamt_cid_not_found "absent") ]

  abbrev pub log_flush : Contents V → S → Result ℕ HamtError × Contents V × S
  log_flush m s = (ok (length (maps s)), m, with_maps (maps s ++ m ∷ []) s)

  pub log_load-Has :
      (c w : ℕ) (m f : Contents V) (s : S) → log_load c s ≡ ok m → map_at c s ≡ some f → m ≡ f
  log_load-Has c w m f s e h = ground (arith, e, h)

  pub grown : (m : Contents V) (s : S) → Prefix (maps s) (maps (with_maps (maps s ++ m ∷ []) s))
  grown m s i a found =
      rw (maps-with (maps s ++ m ∷ []) s) (get_elem?-append (maps s) (m ∷ []) i a found)

  -- the log may be one of several in a state
  module _ (blocks : Blocks S) (seen : (s s' : S) → blocks.Extends s s' → Prefix (maps s) (maps s'))
      (grows : (m : Contents V) (s : S) → blocks.Extends s (with_maps (maps s ++ m ∷ []) s)) where
    pub log_flush-Stored :
        (m m' f : Contents V) (s s' : S) (c : ℕ)
        → log_flush m s ≡ (ok c, m', s')
        → m ≡ f
        → (map_at c s' ≡ some f) × (m' ≡ f) × blocks.Extends s s'
    log_flush-Stored m m' f s s' c e h =
        let last : s' ≡ with_maps (maps s ++ m ∷ []) s = ground (arith, e) in
        let place : c ≡ length (maps s) = ground (arith, e) in
        (
          rw (last, place, maps-with (maps s ++ m ∷ []) s) (get_elem?-last (maps s) m ∙ ap some h),
          ground (arith, e, h),
          rw last (grows m s),
        )

    abbrev pub shared_maps : Hamt blocks ℕ HamtError V
    shared_maps = record {
      Map = Contents V;
      new_with_bit_width = λ w k. none;
      load_with_bit_width = λ c w s. log_load c s;
      flush = log_flush;
      set = put_in;
      get = λ k m s. ok (m k);
      contains_key = λ k m s. ok (is_some (m k));
      delete = delete_in;
      for_each = λ g m s e. (err (hamt_cid_not_found "unsupported"), e);
      Has = λ w m f s. m ≡ f;
      Stored = λ w c f s. map_at c s ≡ some f;
      new-Has = λ w s. refl;
      load-Has = log_load-Has;
      flush-Stored = log_flush-Stored;
      set-Has = put_in-Has;
      get-Has = λ k m f s found e h. get_in-Has k m f found e h;
      contains-Has = λ k m f s b e h. contains_in-Has k m f b e h;
      delete-Has = delete_in-Has;
      for_each-Has =
          λ g m f s e e' h held. absurd (unvisited (hamt_cid_not_found "unsupported") e e' h);
      Has-Extends = λ m f s s' x h. h;
      Stored-Extends = λ c f s s' x h. seen s s' x c f h;
    }

  abbrev pub log_maps : Hamt log_blocks ℕ HamtError V
  log_maps = shared_maps log_blocks (λ s s' x. x) grown
