-- ===== src/TCid/Array.antt =====
-- primitives/src/amt.rs: `TAmt`, content that is an array over an AMT.
use fvm_utils.Base.{ℕ, ◌≡◌, Option, none, some, Result, ok, err, concat, arith}
use fvm_utils.Downcast.{
  AnyError, AmtError, amt_error, message, amt_cid_not_found, amt_dynamic, amt_other,
}
use fvm_utils.Hamt.{Blocks}
use fvm_utils.Amt.{Amt, Items}
use fvm_utils.TCid.{TCid, Names, from, Content}

module _ {S : Type 0} {blocks : Blocks S} {Cid V : Type 0} (names : Names Cid)
    (a : Amt blocks Cid AmtError V) (width : ℕ) where
  unfoldable pub new_amt : S → Result (TCid Cid) AnyError × S
  new_amt s =
      let (r, m, s') = a.flush (a.new_with_bit_width width) s in
      elim r [
        | ok c ↦ (ok (from c), s')
        | err e ↦ (err (message (concat "Failed to create empty array: " (names.show_amt e))), s')
      ]

  -- the match of `maybe_load` on what was loaded
  unfoldable pub found_array : Result a.Array AmtError → Result (Option a.Array) AnyError
  found_array (ok m) = ok (some m)
  found_array (err (amt_cid_not_found c)) = ok none
  found_array (err (amt_dynamic e)) = err (amt_error (amt_dynamic e))
  found_array (err (amt_other e)) = err (amt_error (amt_other e))

  unfoldable pub maybe_load : TCid Cid → S → Result (Option a.Array) AnyError
  unfolding found_array
  maybe_load t s = found_array (a.load t.cid s)

  unfoldable pub flush : a.Array → TCid Cid → S → Result a.Array AnyError × TCid Cid × S
  flush value t s =
      let (r, value', s') = a.flush value s in
      elim r [
        | ok c ↦ (ok value', record t { cid = c }, s')
        | err e ↦ (
          err (
              message (
                concat "error flushing "
                  (concat names.type_name (concat ": " (names.show_amt e))))),
          t,
          s',
        )
      ]

  found_some : (r : Result a.Array AmtError) (m : a.Array) → found_array r ≡ ok (some m) → r ≡ ok m
  unfolding found_array
  found_some (ok m') m e = ground (arith, e)
  found_some (err (amt_cid_not_found c)) m e = ground (arith, e)
  found_some (err (amt_dynamic x)) m e = ground (arith, e)
  found_some (err (amt_other x)) m e = ground (arith, e)

  pub load-Has :
      (t : TCid Cid) (m : a.Array) (f : Items V) (s : S)
      → maybe_load t s ≡ ok (some m)
      → a.Stored t.cid f s
      → a.Has m f s
  unfolding maybe_load
  load-Has t m f s e stored = a.load-Has t.cid m f s (found_some (a.load t.cid s) m e) stored

  pub flush-Stored :
      (m m' : a.Array) (f : Items V) (t t' : TCid Cid) (s s' : S)
      → flush m t s ≡ (ok m', t', s')
      → a.Has m f s
      → a.Stored t'.cid f s' × blocks.Extends s s'
  unfolding flush
  flush-Stored m m' f t t' s s' e has =
      let parts = a.flush-Stored m m' f s s' t'.cid (ground (arith, e)) has in (parts.0, parts.2)

  pub flush_fails :
      (m : a.Array) (e : AnyError) (t t' : TCid Cid) (s s' : S)
      → flush m t s ≡ (err e, t', s')
      → t' ≡ t
  unfolding flush
  flush_fails m e t t' s s' g = ground (arith, g)

  -- `TAmt` as a kind of content: it stands for the items of the array
  abbrev pub amt_content : Content blocks Cid
  amt_content = record {
    Item = a.Array;
    View = Items V;
    maybe_load = maybe_load;
    flush = flush;
    Has = a.Has;
    Stored = a.Stored;
    load-Has = load-Has;
    flush-Stored = flush-Stored;
    flush_fails = flush_fails;
  }

  -- `Default`, where the arrays are over a `MemoryBlockstore`, `memory` an empty one; `none` is the
  -- panic of `unwrap`
  unfoldable pub default : S → Option (TCid Cid)
  unfolding new_amt
  default memory = elim ((new_amt memory).0) [ ok t ↦ some t | err e ↦ none ]
