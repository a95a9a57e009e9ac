-- ===== src/Set.antt =====
-- runtime/src/util/set.rs: sets of keys, which are maps to the unit type. An operation gets the map
-- and the store, and returns what it may have changed.
pub mod Laws
use fvm_utils.Downcast.{AnyError}
use fvm_utils.Base.{List, [], ◌∷◌, ◌++◌, ℕ, Bool, Option, none, some, Result, ok, err}
use fvm_utils.Hamt.{Blocks, Hamt, BytesKey, hamt_bit_width}

-- the result of a call of which only the error is used
abbrev pub discard {ℓ κ} : {A : Type ℓ} {E : Type κ} → Result A E → Result (Unit {0}) E
discard (ok a) = ok tt
discard (err e) = err e

module _ {S : Type 0} {blocks : Blocks S} {Cid Error : Type 0}
    (h : Hamt blocks Cid Error (Unit {0})) where
  unfoldable pub new : h.Map
  new = h.new_with_bit_width hamt_bit_width

  unfoldable pub new_set_with_bitwidth : ℕ → h.Map
  new_set_with_bitwidth w = h.new_with_bit_width w

  unfoldable pub from_root : Cid → S → Result h.Map Error
  from_root c s = h.load_with_bit_width c hamt_bit_width s

  unfoldable pub root : h.Map → S → Result Cid Error × h.Map × S
  root m s = h.flush m s

  unfoldable pub put : BytesKey → h.Map → S → Result (Unit {0}) Error × h.Map
  put key m s = let (r, m') = h.set key tt m s in (discard r, m')

  unfoldable pub has : BytesKey → h.Map → S → Result Bool Error
  has key m s = h.contains_key key m s

  unfoldable pub delete : BytesKey → h.Map → S → Result (Option (Unit {0})) Error × h.Map
  delete key m s =
      let (r, m') = h.delete key m s in
      elim r [ ok (some _) ↦ (ok (some tt), m') | ok none ↦ (ok none, m') | err e ↦ (err e, m') ]

  unfoldable pub for_each :
      {E : Type 0}
      → (BytesKey → E → Result (Unit {0}) AnyError × E)
      → h.Map
      → S
      → E
      → Result (Unit {0}) Error × E
  for_each f m s e = h.for_each (λ k u e. f k e) m s e

  -- the closure of `collect_keys`
  abbrev pub push_key : BytesKey → List BytesKey → Result (Unit {0}) AnyError × List BytesKey
  push_key k ret_keys = (ok tt, ret_keys ++ k ∷ [])

  unfoldable pub collect_keys : h.Map → S → Result (List BytesKey) Error
  unfolding for_each
  collect_keys m s =
      let (r, ret_keys) = for_each push_key m s [] in elim r [ ok _ ↦ ok ret_keys | err e ↦ err e ]
