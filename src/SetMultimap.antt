-- ===== src/SetMultimap.antt =====
-- runtime/src/util/set_multimap.rs: a map from epochs to the roots of sets of deal ids. The numbers
-- are u64 for the ids; an epoch is an i64, and its key is its cast to u64.
pub mod Laws
pub mod Refinement
pub mod Many
pub mod Reloading
use fvm_utils.Base.{
  map_err, ℕ, Option, none, some, List, [], ◌∷◌, String, Result, ok, err, ℤ, as_u64,
}
use fvm_utils.Hamt.{hamt_bit_width, Blocks, Hamt, BytesKey, Varint}
use fvm_utils.Hamt.Keys.{u64_key, parse_uint_key}
use fvm_utils.Downcast.{AnyError, message}
use fvm_utils.Set
use fvm_utils.Set.{discard}

module _ {S : Type 0} {blocks : Blocks S} {Cid Error : Type 0} (varint : Varint)
    (sets : Hamt blocks Cid Error (Unit {0})) (maps : Hamt blocks Cid Error Cid) where
  unfoldable pub new : maps.Map
  new = maps.new_with_bit_width hamt_bit_width

  unfoldable pub from_root : Cid → S → Result maps.Map Error
  from_root c s = maps.load_with_bit_width c hamt_bit_width s

  unfoldable pub root : maps.Map → S → Result Cid Error × maps.Map × S
  root m s = maps.flush m s

  unfoldable pub get : ℤ → maps.Map → S → Result (Option sets.Map) Error
  unfolding Set.from_root u64_key
  get key mm s = elim (maps.get (u64_key varint (as_u64 key)) mm s) [
    | err e ↦ err e
    | ok none ↦ ok none
    | ok (some c) ↦ elim (Set.from_root sets c s) [ ok set ↦ ok (some set) | err e ↦ err e ]
  ]

  -- `unwrap_or_else(|| Set::new(store))`
  abbrev pub or_new : Option sets.Map → sets.Map
  or_new (some set) = set
  or_new none = sets.new_with_bit_width hamt_bit_width

  -- the end of `put`, `put_many` and `remove`: the new root of the set goes into the map
  unfoldable pub save : ℤ → sets.Map → maps.Map → S → Result (Unit {0}) Error × maps.Map × S
  unfolding Set.root u64_key
  save key set mm s =
      let (flushed, set', s') = Set.root sets set s in
      elim flushed [
        | err e ↦ (err e, mm, s')
        | ok new_root ↦
            let (r, mm') = maps.set (u64_key varint (as_u64 key)) new_root mm s' in
            (discard r, mm', s')
      ]

  -- the loop of `put_many`
  unfoldable pub put_each : List ℕ → sets.Map → S → Result (Unit {0}) Error × sets.Map
  unfolding Set.put u64_key
  put_each [] set s = (ok tt, set)
  put_each (v ∷ values) set s =
      let (r, set') = Set.put sets (u64_key varint v) set s in
      let rest = put_each values set' s in elim r [ ok _ ↦ rest | err e ↦ (err e, set') ]

  unfoldable pub put_many : ℤ → List ℕ → maps.Map → S → Result (Unit {0}) Error × maps.Map × S
  unfolding get put_each save
  put_many key values mm s = elim (get key mm s) [
    | err e ↦ (err e, mm, s)
    | ok found ↦
        let (r, set) = put_each values (or_new found) s in
        elim r [ err e ↦ (err e, mm, s) | ok _ ↦ save key set mm s ]
  ]

  unfoldable pub put : ℤ → ℕ → maps.Map → S → Result (Unit {0}) Error × maps.Map × S
  unfolding get Set.put save u64_key
  put key value mm s = elim (get key mm s) [
    | err e ↦ (err e, mm, s)
    | ok found ↦
        let (r, set) = Set.put sets (u64_key varint value) (or_new found) s in
        elim r [ err e ↦ (err e, mm, s) | ok _ ↦ save key set mm s ]
  ]

  unfoldable pub remove : ℤ → ℕ → maps.Map → S → Result (Unit {0}) Error × maps.Map × S
  unfolding get Set.delete save u64_key
  remove key value mm s = elim (get key mm s) [
    | err e ↦ (err e, mm, s)
    | ok none ↦ (ok tt, mm, s)
    | ok (some set) ↦
        let (r, set') = Set.delete sets (u64_key varint value) set s in
        elim r [ err e ↦ (err e, mm, s) | ok _ ↦ save key set' mm s ]
  ]

  unfoldable pub remove_all : ℤ → maps.Map → S → Result (Unit {0}) Error × maps.Map
  unfolding u64_key
  remove_all key mm s =
      let (r, mm') = maps.delete (u64_key varint (as_u64 key)) mm s in (discard r, mm')

  -- `for_each`: `parse_text` is the text of a key that does not parse, `into_any` the conversion of the
  -- closure's error
  unfoldable pub for_each :
      {E : Type 0}
      → (BytesKey → String → String)
      → (Error → AnyError)
      → ℤ
      → (ℕ → E → Result (Unit {0}) Error × E)
      → maps.Map
      → S
      → E
      → Result (Unit {0}) Error × E
  unfolding get Set.for_each parse_uint_key
  for_each parse_text into_any key f mm s e = elim (get key mm s) [
    | err bad ↦ (err bad, e)
    | ok none ↦ (ok tt, e)
    | ok (some set) ↦
        Set.for_each sets
          (λ k e. elim (parse_uint_key varint k) [
            | err bad ↦ (err (message (parse_text k bad)), e)
            | ok v ↦ let (r, e') = f v e in (map_err into_any r, e')
          ])
          set s e
  ]
