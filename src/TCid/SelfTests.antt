-- ===== src/TCid/SelfTests.antt =====
-- primitives/src/lib.rs: the tests of typed identifiers; `false` is an assertion that does not hold, or an
-- `unwrap` of an error. The store is a parameter that can be written and keeps what is put.
use fvm_utils.Base.{
  ℕ, ◌+◌, ◌≡◌, Bool, true, false, ◌&&◌, Option, none, some, List, [], ◌∷◌, String, Result, ok, err,
  nat_eq, same_text, same_list, arith,
}
use fvm_utils.Platform.{ExitCodes}
use fvm_utils.Downcast.{AnyError, HamtError, hamt_error}
use fvm_utils.Hamt.{
  Blocks, Hamt, Contents, put_entry, make_empty_map, make_map_with_root_and_bitwidth,
}
use fvm_utils.TCid.{Names, load, modify, modify_loaded}
use fvm_utils.TCid.Link as Link
use fvm_utils.TCid.Link.{LinkStore, StoreContent, link_content, new_link}
use fvm_utils.TCid.Map as Map
use fvm_utils.TCid.Map.{hamt_content, new_hamt}

record TestRecord : Type 0 where
  foo : ℕ
  bar : List ℕ

-- `TestRecord::default()`
abbrev default_record : TestRecord
default_record = record { foo = 0; bar = [] }

-- what is checked of a result that is unwrapped
abbrev unwrapped {ℓ} : {A : Type ℓ} {E : Type 0} → Result A E → (A → Bool) → Bool
unwrapped (err e) f = false
unwrapped (ok a) f = f a

module _ ⦃codes : ExitCodes⦄ {S Cid Code : Type 0} {blocks : Blocks S} (names : Names Cid)
    (code : Code) (store : LinkStore blocks Cid Code TestRecord) where
  -- what the store must do: it can be written, and a block that it has is read
  record LinkServing : Type 0 where
    puts : (x : TestRecord) (s : S) → (c : Cid) × (s' : S) × (store.put_cbor x code s ≡ (ok c, s'))
    gets : (c : Cid) (x : TestRecord) (s : S) → store.Block c x s → store.get_cbor c s ≡ ok (some x)

  -- `c.foo += 1` and a result, through `deref_mut`
  abbrev bump :
      StoreContent TestRecord → S → Result (Unit {0}) AnyError × StoreContent TestRecord × S
  bump c s = (ok tt, record { content = record c.content { foo = c.content.foo + 1 } }, s)

  unfoldable ref_modify : S → Bool
  unfolding new_link modify modify_loaded load Link.maybe_load Link.flush
  ref_modify s =
      let (made, s1) = new_link code store default_record s in
      unwrapped made λ r.
        let (result, r', s2) = modify names (link_content code store) bump r s1 in
        unwrapped result
          λ u. unwrapped (load names (link_content code store) r' s2) λ c. nat_eq c.content.foo 1

  -- In a store that can be written the test passes.
  ref_modify_holds : LinkServing → (s : S) → ref_modify s ≡ true
  unfolding ref_modify new_link modify modify_loaded load Link.maybe_load Link.flush
  ref_modify_holds serving s =
      let (c, s1, put) = serving.puts default_record s in
      let read =
        serving.gets c default_record s1 (store.put-Block default_record code c s s1 put).0 in
      let bumped = record default_record { foo = 1 } in
      let (c', s2, put') = serving.puts bumped s1 in
      let read' = serving.gets c' bumped s2 (store.put-Block bumped code c' s1 s2 put').0 in
      ground (arith, put, read, put', read')

  -- a default identifier is null: nothing is read under it in a store that has nothing there
  unfoldable default_value_read_fails : Cid → S → Bool
  unfolding load Link.maybe_load
  default_value_read_fails default_cid s =
      elim (load names (link_content code store) (Link.default default_cid) s) [
        | ok c ↦ false
        | err e ↦ true
      ]

  -- The test passes where the store has nothing under the default identifier.
  default_value_read_fails_holds :
      (default_cid : Cid) (s : S)
      → store.get_cbor default_cid s ≡ ok none
      → default_value_read_fails default_cid s ≡ true
  unfolding default_value_read_fails load Link.maybe_load
  default_value_read_fails_holds default_cid s h = ground (arith, h)

-- the bytes of "spam"
abbrev spam : List ℕ
spam = 115 ∷ 112 ∷ 97 ∷ 109 ∷ []

abbrev one_record : TestRecord
one_record = record { foo = 1; bar = [] }

module _ ⦃codes : ExitCodes⦄ {S Cid : Type 0} {blocks : Blocks S} (names : Names Cid) (width : ℕ)
    (maps : Hamt blocks Cid HamtError TestRecord) where
  -- what the store must do: maps can be written, and one that it has is loaded, changed and read
  record MapServing : Type 0 where
    flushes :
        (m : maps.Map) (s : S)
        → (c : Cid) × (m' : maps.Map) × (s' : S) × (maps.flush m s ≡ (ok c, m', s'))
    loads :
        (c : Cid) (f : Contents TestRecord) (s : S)
        → maps.Stored width c f s
        → (m : maps.Map) × (maps.load_with_bit_width c width s ≡ ok m)
    sets :
        (k : List ℕ) (v : TestRecord) (m : maps.Map) (f : Contents TestRecord) (s : S)
        → maps.Has width m f s
        → (old : Option TestRecord) × (m' : maps.Map) × (maps.set k v m s ≡ (ok old, m'))
    gets :
        (k : List ℕ) (m : maps.Map) (f : Contents TestRecord) (s : S)
        → maps.Has width m f s
        → maps.get k m s ≡ ok (f k)

  -- the closure: a record is set and a text returned
  abbrev set_spam : maps.Map → S → Result String AnyError × maps.Map × S
  set_spam m s =
      let (r, m') = maps.set spam one_record m s in
      elim r [ ok old ↦ (ok "eggs", m', s) | err e ↦ (err (hamt_error e), m', s) ]

  -- `assert_eq!(foo, Some(1))`
  abbrev foo_is_one : Option TestRecord → Bool
  foo_is_one none = false
  foo_is_one (some x) = nat_eq x.foo 1

  unfoldable hamt_modify : S → Bool
  unfolding new_hamt modify modify_loaded load Map.maybe_load Map.flush
  hamt_modify s =
      let (made, s1) = new_hamt names maps width s in
      unwrapped made λ t.
        let (eggs, t', s2) = modify names (hamt_content names maps width) set_spam t s1 in
        unwrapped eggs λ text.
          unwrapped (load names (hamt_content names maps width) t' s2)
            λ m. same_text text "eggs" && unwrapped (maps.get spam m s2) foo_is_one

  -- In a store that can be written the test passes.
  hamt_modify_holds : MapServing → (s : S) → hamt_modify s ≡ true
  unfolding hamt_modify new_hamt modify modify_loaded load Map.maybe_load Map.found_map Map.flush
      make_empty_map make_map_with_root_and_bitwidth put_entry same_list
  hamt_modify_holds serving s =
      let f = put_entry (λ k. none) spam (some one_record) in
      let empty = maps.new_with_bit_width width in
      let (c, m0, s1, made) = serving.flushes empty s in
      let stored = (maps.flush-Stored empty m0 (λ k. none) s s1 c made (maps.new-Has width s)).0 in
      let (m, loaded) = serving.loads c (λ k. none) s1 stored in
      let has = maps.load-Has c width m (λ k. none) s1 loaded stored in
      let (old, m1, set) = serving.sets spam one_record m (λ k. none) s1 has in
      let has1 = maps.set-Has spam one_record m m1 (λ k. none) s1 old set has in
      let (c2, m2, s2, wrote) = serving.flushes m1 s1 in
      let stored2 = (maps.flush-Stored m1 m2 f s1 s2 c2 wrote has1).0 in
      let (m3, loaded2) = serving.loads c2 f s2 stored2 in
      let got : maps.get spam m3 s2 ≡ ok (some one_record) =
        serving.gets spam m3 f s2 (maps.load-Has c2 width m3 f s2 loaded2 stored2) in
      ground (arith, made, loaded, set, wrote, loaded2, got)
