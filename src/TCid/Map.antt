-- ===== src/TCid/Map.antt =====
-- primitives/src/hamt.rs: `THamt`, content that is a map over a HAMT.
use fvm_utils.Base.{ℕ, ◌≡◌, Option, none, some, Result, ok, err, concat, arith}
use fvm_utils.Downcast.{
  AnyError, HamtError, hamt_error, message, hamt_cid_not_found, hamt_dynamic, hamt_other,
}
use fvm_utils.Hamt.{Blocks, Hamt, Contents, make_empty_map, make_map_with_root_and_bitwidth}
use fvm_utils.TCid.{TCid, Names, from, Content}

module _ {S : Type 0} {blocks : Blocks S} {Cid V : Type 0} (names : Names Cid)
    (h : Hamt blocks Cid HamtError V) (width : ℕ) where
  unfoldable pub new_hamt : S → Result (TCid Cid) AnyError × S
  unfolding make_empty_map
  new_hamt s =
      let (r, m, s') = h.flush (make_empty_map h width) s in
      elim r [
        | ok c ↦ (ok (from c), s')
        | err e ↦ (err (message (concat "Failed to create empty map: " (names.debug_hamt e))), s')
      ]

  -- the match of `maybe_load` on what was loaded
  unfoldable pub found_map : Result h.Map HamtError → Result (Option h.Map) AnyError
  found_map (ok m) = ok (some m)
  found_map (err (hamt_cid_not_found c)) = ok none
  found_map (err (hamt_dynamic e)) = err (hamt_error (hamt_dynamic e))
  found_map (err (hamt_other e)) = err (hamt_error (hamt_other e))

  unfoldable pub maybe_load : TCid Cid → S → Result (Option h.Map) AnyError
  unfolding found_map make_map_with_root_and_bitwidth
  maybe_load t s = found_map (make_map_with_root_and_bitwidth h t.cid width s)

  unfoldable pub flush : h.Map → TCid Cid → S → Result h.Map AnyError × TCid Cid × S
  flush value t s =
      let (r, value', s') = h.flush value s in
      elim r [
        | ok c ↦ (ok value', record t { cid = c }, s')
        | err e ↦ (
          err (
              message (
                concat "error flushing "
                  (concat names.type_name (concat ": " (names.debug_hamt e))))),
          t,
          s',
        )
      ]

  found_some : (r : Result h.Map HamtError) (m : h.Map) → found_map r ≡ ok (some m) → r ≡ ok m
  unfolding found_map
  found_some (ok m') m e = ground (arith, e)
  found_some (err (hamt_cid_not_found c)) m e = ground (arith, e)
  found_some (err (hamt_dynamic x)) m e = ground (arith, e)
  found_some (err (hamt_other x)) m e = ground (arith, e)

  pub load-Has :
      (t : TCid Cid) (m : h.Map) (f : Contents V) (s : S)
      → maybe_load t s ≡ ok (some m)
      → h.Stored width t.cid f s
      → h.Has width m f s
  unfolding maybe_load make_map_with_root_and_bitwidth
  load-Has t m f s e stored =
      h.load-Has t.cid width m f s (found_some (h.load_with_bit_width t.cid width s) m e) stored

  pub flush-Stored :
      (m m' : h.Map) (f : Contents V) (t t' : TCid Cid) (s s' : S)
      → flush m t s ≡ (ok m', t', s')
      → h.Has width m f s
      → h.Stored width t'.cid f s' × blocks.Extends s s'
  unfolding flush
  flush-Stored m m' f t t' s s' e has =
      let parts = h.flush-Stored m m' f s s' t'.cid (ground (arith, e)) has in (parts.0, parts.2)

  pub flush_fails :
      (m : h.Map) (e : AnyError) (t t' : TCid Cid) (s s' : S)
      → flush m t s ≡ (err e, t', s')
      → t' ≡ t
  unfolding flush
  flush_fails m e t t' s s' g = ground (arith, g)

  -- `THamt` as a kind of content: it stands for the entries of the map
  abbrev pub hamt_content : Content blocks Cid
  hamt_content = record {
    Item = h.Map;
    View = Contents V;
    maybe_load = maybe_load;
    flush = flush;
    Has = h.Has width;
    Stored = h.Stored width;
    load-Has = load-Has;
    flush-Stored = flush-Stored;
    flush_fails = flush_fails;
  }

  -- `Default`, where the maps are over a `MemoryBlockstore`, `memory` an empty one; `none` is the
  -- panic of `unwrap`
  unfoldable pub default : S → Option (TCid Cid)
  unfolding new_hamt
  default memory = elim ((new_hamt memory).0) [ ok t ↦ some t | err e ↦ none ]
