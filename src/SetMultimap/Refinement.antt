-- ===== src/SetMultimap/Refinement.antt =====
-- The operations of `SetMultimap` do on its sets what their names say.
use fvm_utils.Base.{
  ℕ, ◌≡◌, ap, Option, none, some, ok, err, Result-cases, inl, inr, arith, ℤ, as_u64,
}
use fvm_utils.Hamt.{hamt_bit_width, Blocks, Hamt, Contents, Varint, put_entry}
use fvm_utils.Hamt.Keys.{u64_key}
use fvm_utils.Set
use fvm_utils.SetMultimap.{get, or_new, save, put, remove, remove_all}
use fvm_utils.SetMultimap.Laws.{
  View, put_at, or_empty, Represents, Found, get_Entry, save-Represents, Entry-after,
}

module _ {S : Type 0} {blocks : Blocks S} {Cid Error : Type 0} (varint : Varint)
    (sets : Hamt blocks Cid Error (Unit {0})) (maps : Hamt blocks Cid Error Cid) where
  -- Where `get` succeeds it finds a set exactly under the keys that have one, and that set.
  pub get-Found :
      (key : ℤ) (mm : maps.Map) (s : S) (F : View) (found : Option sets.Map)
      → Represents varint sets maps mm F s
      → get varint sets maps key mm s ≡ ok found
      → Found varint sets maps found (F (as_u64 key)) s
  unfolding get
  get-Found key mm s F found (g, has, entries) h =
      elim (Result-cases (maps.get (u64_key varint (as_u64 key)) mm s)) [
        | inr (e, bad) ↦ absurd (ground arith)
        | inl (c, read) ↦ get_Entry varint sets maps key mm s found c (F (as_u64 key)) h read (
            rw (maps.get-Has (u64_key varint (as_u64 key)) mm g s c read has)
              (entries (as_u64 key)))
      ]

  pub or_new-Has :
      (found : Option sets.Map) (f : Option (Contents (Unit {0}))) (s : S)
      → Found varint sets maps found f s
      → sets.Has hamt_bit_width (or_new varint sets maps found) (or_empty f) s
  or_new-Has none none s h = sets.new-Has hamt_bit_width s
  or_new-Has (some set) (some f) s h = h
  or_new-Has none (some f) s h = absurd h
  or_new-Has (some set) none s h = absurd h

  put_parts :
      (key : ℤ) (value : ℕ) (mm mm' : maps.Map) (s s' : S)
      → put varint sets maps key value mm s ≡ (ok tt, mm', s')
      → (found : Option sets.Map) × (set : sets.Map) × (old : Option (Unit {0})) × (get varint sets
            maps key mm s
          ≡ ok found)
        × (sets.set (u64_key varint value) tt (or_new varint sets maps found) s ≡ (ok old, set))
        × (save varint sets maps key set mm s ≡ (ok tt, mm', s'))
  unfolding put Set.put
  put_parts key value mm mm' s s' h = elim (Result-cases (get varint sets maps key mm s)) [
    | inr (e, bad) ↦ absurd (ground arith)
    | inl (found, read) ↦
        let (r, set) = sets.set (u64_key varint value) tt (or_new varint sets maps found) s in
        elim (Result-cases r) [
          | inr (e, bad) ↦ absurd (ground arith)
          | inl (old, wrote) ↦ (found, set, old, read, ap (λ q. (q, set)) wrote, ground arith)
        ]
  ]

  -- After `put` has succeeded on a multimap that represents a view, the multimap represents the view with the id added to the set of the
  -- key, a new set where there was none, and with every other set as it was.
  pub put_refines :
      (key : ℤ) (value : ℕ) (mm mm' : maps.Map) (s s' : S) (F : View)
      → Represents varint sets maps mm F s
      → put varint sets maps key value mm s ≡ (ok tt, mm', s')
      → Represents varint sets maps mm'
          (put_at F
            (as_u64 key)
            (some (put_entry (or_empty (F (as_u64 key))) (u64_key varint value) (some tt))))
          s'
  put_refines key value mm mm' s s' F rep h =
      let (found, set, old, read, wrote, saved) = put_parts key value mm mm' s s' h in
      let before = or_new-Has found (F (as_u64 key)) s (get-Found key mm s F found rep read) in
      save-Represents varint sets maps key set mm mm' s s' F
        (put_entry (or_empty (F (as_u64 key))) (u64_key varint value) (some tt)) rep
        (sets.set-Has (u64_key varint value) tt (or_new varint sets maps found) set
          (or_empty (F (as_u64 key))) s old wrote before)
        saved

  -- After `remove_all` has succeeded the key has no set, and every other set is as it was.
  pub remove_all_refines :
      (key : ℤ) (mm mm' : maps.Map) (s : S) (F : View)
      → Represents varint sets maps mm F s
      → remove_all varint sets maps key mm s ≡ (ok tt, mm')
      → Represents varint sets maps mm' (put_at F (as_u64 key) none) s
  unfolding remove_all
  remove_all_refines key mm mm' s F (g, has, entries) h =
      let (r, deleted) = maps.delete (u64_key varint (as_u64 key)) mm s in
      elim (Result-cases r) [
        | inr (e, bad) ↦ absurd (ground arith)
        | inl (old, gone) ↦ (
          put_entry g (u64_key varint (as_u64 key)) none,
          (maps.delete-Has (u64_key varint (as_u64 key)) mm mm' g s old (ground arith) has).1,
          λ k. Entry-after varint sets maps g F s none none (as_u64 key) k entries tt,
        )
      ]

  -- the view without the id under the key, where the key has the set `f`
  abbrev pub without : View → ℕ → ℕ → Option (Contents (Unit {0})) → View
  without F key value none = F
  without F key value (some f) = put_at F key (some (put_entry f (u64_key varint value) none))

  remove_unread :
      (key : ℤ) (value : ℕ) (mm mm' : maps.Map) (s s' : S) (e : Error)
      → get varint sets maps key mm s ≡ err e
      → remove varint sets maps key value mm s ≡ (ok tt, mm', s')
      → ⊥
  unfolding remove
  remove_unread key value mm mm' s s' e bad h = ground arith

  remove_absent :
      (key : ℤ) (value : ℕ) (mm mm' : maps.Map) (s s' : S)
      → remove varint sets maps key value mm s ≡ (ok tt, mm', s')
      → get varint sets maps key mm s ≡ ok none
      → (mm' ≡ mm) × (s' ≡ s)
  unfolding remove
  remove_absent key value mm mm' s s' h read = (ground arith, ground arith)

  remove_parts :
      (key : ℤ) (value : ℕ) (mm mm' : maps.Map) (s s' : S) (set : sets.Map)
      → remove varint sets maps key value mm s ≡ (ok tt, mm', s')
      → get varint sets maps key mm s ≡ ok (some set)
      → (set' : sets.Map) × (old : Option (Unit {0})) × (sets.delete (u64_key varint value) set s
          ≡ (ok old, set'))
        × (save varint sets maps key set' mm s ≡ (ok tt, mm', s'))
  unfolding remove Set.delete
  remove_parts key value mm mm' s s' set h read =
      let (r, set') = sets.delete (u64_key varint value) set s in
      elim (Result-cases r) [
        | inr (e, bad) ↦ absurd (ground arith)
        | inl (old, gone) ↦ (set', old, ap (λ q. (q, set')) gone, ground arith)
      ]

  remove-Found :
      (key : ℤ) (value : ℕ) (mm mm' : maps.Map) (s s' : S) (F : View) (found : Option sets.Map)
      → (f : Option (Contents (Unit {0}))) → Represents varint sets maps mm F s
      → Found varint sets maps found f s
      → get varint sets maps key mm s ≡ ok found
      → remove varint sets maps key value mm s ≡ (ok tt, mm', s')
      → Represents varint sets maps mm' (without F (as_u64 key) value f) s'
  remove-Found key value mm mm' s s' F none none rep held read h =
      let (same_map, same_store) = remove_absent key value mm mm' s s' h read in
      rw (same_map, same_store) rep
  remove-Found key value mm mm' s s' F (some set) (some f) rep held read h =
      let (set', old, gone, saved) = remove_parts key value mm mm' s s' set h read in
      save-Represents varint sets maps key set' mm mm' s s' F
        (put_entry f (u64_key varint value) none) rep
        (sets.delete-Has (u64_key varint value) set set' f s old gone held).1 saved
  remove-Found key value mm mm' s s' F none (some f) rep held read h = absurd held
  remove-Found key value mm mm' s s' F (some set) none rep held read h = absurd held

  -- After `remove` has succeeded on a multimap that represents a view, the set of the key is without the id, nothing is changed where the
  -- key has no set, and every other set is as it was.
  pub remove_refines :
      (key : ℤ) (value : ℕ) (mm mm' : maps.Map) (s s' : S) (F : View)
      → Represents varint sets maps mm F s
      → remove varint sets maps key value mm s ≡ (ok tt, mm', s')
      → Represents varint sets maps mm' (without F (as_u64 key) value (F (as_u64 key))) s'
  remove_refines key value mm mm' s s' F rep h =
      elim (Result-cases (get varint sets maps key mm s)) [
        | inr (e, bad) ↦ absurd (remove_unread key value mm mm' s s' e bad h)
        | inl (found, read) ↦
            remove-Found key value mm mm' s s' F found (F (as_u64 key)) rep
              (get-Found key mm s F found rep read) read h
      ]
