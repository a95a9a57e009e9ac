-- ===== src/SetMultimap/Laws.antt =====
-- `SetMultimap` against its abstract view: a function from keys to sets.
use fvm_utils.Base.{
  ℕ, ◌≡◌, Bool, true, false, Option, none, some, ok, nat_eq, if◌then◌else◌, Result-cases, inl, inr,
  arith, ℤ, as_u64,
}
use fvm_utils.Hamt.{hamt_bit_width, Blocks, Hamt, Contents, Varint, put_entry}
use fvm_utils.Hamt.Keys.{u64_key, same_list-u64_key}
use fvm_utils.Set
use fvm_utils.Set.{discard}
use fvm_utils.SetMultimap.{get, save}

-- the abstract view: for each key, the set that is under it
abbrev pub View : Type 0
View = ℕ → Option (Contents (Unit {0}))

abbrev pub put_at : View → ℕ → Option (Contents (Unit {0})) → View
put_at F k f j = if nat_eq j k then f else F j

abbrev pub or_empty : Option (Contents (Unit {0})) → Contents (Unit {0})
or_empty (some f) = f
or_empty none = λ k. none

module _ {S : Type 0} {blocks : Blocks S} {Cid Error : Type 0} (varint : Varint)
    (sets : Hamt blocks Cid Error (Unit {0})) (maps : Hamt blocks Cid Error Cid) where
  -- a root and the set that it stands for
  abbrev pub Entry : Option Cid → Option (Contents (Unit {0})) → S → Type 0
  Entry none none s = Unit
  Entry (some c) (some f) s = sets.Stored hamt_bit_width c f s
  Entry _ _ s = ⊥

  -- the multimap holds the sets of the view
  abbrev pub Represents : maps.Map → View → S → Type 0
  Represents mm F s =
      (g : Contents Cid) × maps.Has hamt_bit_width mm g s
      × ((k : ℕ) → Entry (g (u64_key varint k)) (F k) s)

  pub Entry-Extends :
      (c : Option Cid) (f : Option (Contents (Unit {0}))) (s s' : S)
      → blocks.Extends s s'
      → Entry c f s
      → Entry c f s'
  Entry-Extends none none s s' x e = tt
  Entry-Extends (some c) (some f) s s' x e = sets.Stored-Extends c f s s' x e
  Entry-Extends none (some f) s s' x e = e
  Entry-Extends (some c) none s s' x e = e

  save_parts :
      (key : ℤ) (set : sets.Map) (mm mm' : maps.Map) (s s' : S)
      → save varint sets maps key set mm s ≡ (ok tt, mm', s')
      → (c : Cid) × (set' : sets.Map) × (old : Option Cid) × (sets.flush set s ≡ (ok c, set', s'))
        × (maps.set (u64_key varint (as_u64 key)) c mm s' ≡ (ok old, mm'))
  unfolding save Set.root
  save_parts key set mm mm' s s' h = elim (Result-cases (sets.flush set s).0) [
    | inr (e, bad) ↦ absurd (ground arith)
    | inl (c, flushed) ↦
        elim (Result-cases (maps.set (u64_key varint (as_u64 key)) c mm (sets.flush set s).2).0) [
          | inr (e, bad) ↦ absurd (ground arith)
          | inl (old, written) ↦ (c, (sets.flush set s).1, old, ground arith, ground arith)
        ]
  ]

  Entry-if :
      (b : Bool) (c old : Option Cid) (f F : Option (Contents (Unit {0}))) (s : S)
      → Entry c f s
      → Entry old F s
      → Entry (if b then c else old) (if b then f else F) s
  Entry-if true c old f F s new before = new
  Entry-if false c old f F s new before = before

  pub Entry-after :
      (g : Contents Cid) (F : View) (s : S) (c : Option Cid) (f : Option (Contents (Unit {0})))
      → (key k : ℕ) → ((j : ℕ) → Entry (g (u64_key varint j)) (F j) s)
      → Entry c f s
      → Entry (put_entry g (u64_key varint key) c (u64_key varint k)) (put_at F key f k) s
  unfolding put_entry
  Entry-after g F s c f key k before new =
      rw (same_list-u64_key varint k key)
        (Entry-if (nat_eq k key) c (g (u64_key varint k)) f (F k) s new (before k))

  pub save-Represents :
      (key : ℤ) (set : sets.Map) (mm mm' : maps.Map) (s s' : S) (F : View)
      → (f : Contents (Unit {0})) → Represents mm F s
      → sets.Has hamt_bit_width set f s
      → save varint sets maps key set mm s ≡ (ok tt, mm', s')
      → Represents mm' (put_at F (as_u64 key) (some f)) s'
  save-Represents key set mm mm' s s' F f (g, has, entries) contents h =
      let (c, set', old, flushed, written) = save_parts key set mm mm' s s' h in
      let (stored, kept, grown) = sets.flush-Stored set set' f s s' c flushed contents in
      (
        put_entry g (u64_key varint (as_u64 key)) (some c),
        maps.set-Has (u64_key varint (as_u64 key)) c mm mm' g s' old written
            (maps.Has-Extends mm g s s' grown has),
        λ k.
            Entry-after g F s' (some c) (some f) (as_u64 key) k
              (λ j. Entry-Extends (g (u64_key varint j)) (F j) s s' grown (entries j)) stored,
      )

  -- what `get` found, as it is in the view
  abbrev pub Found : Option sets.Map → Option (Contents (Unit {0})) → S → Type 0
  Found none none s = Unit
  Found (some set) (some f) s = sets.Has hamt_bit_width set f s
  Found _ _ s = ⊥

  pub get_Entry :
      (key : ℤ) (mm : maps.Map) (s : S) (found : Option sets.Map) (c : Option Cid)
      (f : Option (Contents (Unit {0})))
      → get varint sets maps key mm s ≡ ok found
      → maps.get (u64_key varint (as_u64 key)) mm s ≡ ok c
      → Entry c f s
      → Found found f s
  unfolding get Set.from_root
  get_Entry key mm s none none none h e stored = tt
  get_Entry key mm s (some set) none none h e stored = ground arith
  get_Entry key mm s none (some c) (some f) h e stored = ground arith
  get_Entry key mm s (some set) (some c) (some f) h e stored =
      sets.load-Has c hamt_bit_width set f s (ground arith) stored
  get_Entry key mm s found none (some f) h e stored = absurd stored
  get_Entry key mm s found (some c) none h e stored = absurd stored
