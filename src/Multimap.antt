-- ===== src/Multimap.antt =====
-- runtime/src/util/multimap.rs: a map from keys to the roots of arrays. The values of one multimap
-- are of one type here.
pub mod Laws
pub mod Each
use fvm_utils.Base.{ℕ, Option, none, some, String, Result, ok, err, map_err}
use fvm_utils.Downcast.{AnyError, AmtError, HamtError, amt_error}
use fvm_utils.Hamt.{Blocks, Hamt, BytesKey, make_empty_map, make_map_with_root_and_bitwidth}
use fvm_utils.Amt.{Amt}

-- `From<anyhow::Error>` and `From<&str>` for the error of the HAMT
pub record HamtErrorFrom : Type 0 where
  pub from_any : AnyError → HamtError
  pub from_str : String → HamtError

module _ {S : Type 0} {blocks : Blocks S} {Cid V : Type 0} (errors : HamtErrorFrom)
    (maps : Hamt blocks Cid HamtError Cid) (arrays : Amt blocks Cid AmtError V) where
  -- the map and the bit width of the arrays
  pub record Multimap : Type 0 where
    pub map : maps.Map
    pub inner_bitwidth : ℕ

  unfoldable pub new : ℕ → ℕ → Multimap
  unfolding make_empty_map
  new outer_bitwidth inner_bitwidth = record {
    map = make_empty_map maps outer_bitwidth;
    inner_bitwidth = inner_bitwidth;
  }

  unfoldable pub from_root : Cid → ℕ → ℕ → S → Result Multimap HamtError
  unfolding make_map_with_root_and_bitwidth
  from_root cid outer_bitwidth inner_bitwidth s =
      elim (make_map_with_root_and_bitwidth maps cid outer_bitwidth s) [
        | ok m ↦ ok (record { map = m; inner_bitwidth = inner_bitwidth })
        | err e ↦ err e
      ]

  unfoldable pub root : Multimap → S → Result Cid HamtError × Multimap × S
  root mm s = let (r, m, s') = maps.flush mm.map s in (r, record mm { map = m }, s')

  -- an error of an array, through `anyhow!`
  abbrev pub array_error : AmtError → HamtError
  array_error e = errors.from_any (amt_error e)

  unfoldable pub get : BytesKey → Multimap → S → Result (Option arrays.Array) HamtError
  get key mm s = elim (maps.get key mm.map s) [
    | err e ↦ err e
    | ok none ↦ ok none
    | ok (some cid) ↦ elim (arrays.load cid s) [ ok a ↦ ok (some a) | err e ↦ err (array_error e) ]
  ]

  -- `unwrap_or_else(|| Array::new_with_bit_width(store, self.1))`
  abbrev pub or_new : Multimap → Option arrays.Array → arrays.Array
  or_new mm (some a) = a
  or_new mm none = arrays.new_with_bit_width mm.inner_bitwidth

  -- the end of `add`: the new root of the array goes into the map
  unfoldable pub save :
      BytesKey → arrays.Array → Multimap → S → Result (Unit {0}) HamtError × Multimap × S
  save key arr mm s =
      let (flushed, arr', s') = arrays.flush arr s in
      elim flushed [
        | err e ↦ (err (array_error e), mm, s')
        | ok new_root ↦
            let (r, m) = maps.set key new_root mm.map s' in
            elim r [
              | err e ↦ (err e, record mm { map = m }, s')
              | ok _ ↦ (ok tt, record mm { map = m }, s')
            ]
      ]

  unfoldable pub add : BytesKey → V → Multimap → S → Result (Unit {0}) HamtError × Multimap × S
  unfolding get save
  add key value mm s = elim (get key mm s) [
    | err e ↦ (err e, mm, s)
    | ok found ↦
        let (r, arr) = arrays.set (arrays.count (or_new mm found)) value (or_new mm found) s in
        elim r [ err e ↦ (err (array_error e), mm, s) | ok _ ↦ save key arr mm s ]
  ]

  unfoldable pub remove_all : BytesKey → Multimap → S → Result (Unit {0}) HamtError × Multimap
  remove_all key mm s =
      let (r, m) = maps.delete key mm.map s in
      elim r [
        | err e ↦ (err e, record mm { map = m })
        | ok none ↦ (err (errors.from_str "failed to delete from multimap"), record mm { map = m })
        | ok (some _) ↦ (ok tt, record mm { map = m })
      ]

  unfoldable pub for_each :
      {E : Type 0}
      → BytesKey
      → (ℕ → V → E → Result (Unit {0}) AnyError × E)
      → Multimap
      → S
      → E
      → Result (Unit {0}) HamtError × E
  unfolding get
  for_each key f mm s e = elim (get key mm s) [
    | err bad ↦ (err bad, e)
    | ok none ↦ (ok tt, e)
    | ok (some a) ↦ let (r, e') = arrays.for_each f a s e in (map_err array_error r, e')
  ]

  -- the closure that `for_all` gives the map
  unfoldable pub load_and_call :
      {E : Type 0}
      → (BytesKey → arrays.Array → E → Result (Unit {0}) AnyError × E)
      → S
      → BytesKey
      → Cid
      → E
      → Result (Unit {0}) AnyError × E
  load_and_call f s key arr_root e = elim (arrays.load arr_root s) [
    | err bad ↦ (err (amt_error bad), e)
    | ok arr ↦ f key arr e
  ]

  unfoldable pub for_all :
      {E : Type 0}
      → (BytesKey → arrays.Array → E → Result (Unit {0}) AnyError × E)
      → Multimap
      → S
      → E
      → Result (Unit {0}) HamtError × E
  unfolding load_and_call
  for_all f mm s e = maps.for_each (load_and_call f s) mm.map s e
