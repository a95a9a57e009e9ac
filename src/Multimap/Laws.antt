-- ===== src/Multimap/Laws.antt =====
-- `Multimap` against its abstract view: a function from keys to lists, in the order of insertion.
use fvm_utils.Base.{
  ℕ, zero, suc, ◌≡◌, ◌≢◌, refl, ap, true, false, Option, none, some, List, [], ◌∷◌, ◌++◌, ok,
  nat_eq, if◌then◌else◌, Result-cases, inl, inr, arith, same_list, length, get_elem?,
}
use mathlib.Core.Path.{fun_ext}
use fvm_utils.Downcast.{AmtError, HamtError}
use fvm_utils.Hamt.{Blocks, Hamt, Contents, BytesKey, put_entry}
use fvm_utils.Amt.{Amt, put_item}
use fvm_utils.Multimap.{HamtErrorFrom, Multimap, get, or_new, save, add, remove_all}

-- Putting an item behind the last one appends it.
pub put_item-append :
    {V : Type 0} (xs : List V) (v : V) (i : ℕ)
    → put_item (get_elem? xs) (length xs) (some v) i ≡ get_elem? (xs ++ v ∷ []) i
unfolding put_item
put_item-append [] v zero = ground arith
put_item-append [] v (suc i) = ground arith
put_item-append (x ∷ xs) v zero = ground arith
put_item-append (x ∷ xs) v (suc i) = ground (arith, put_item-append xs v i)

abbrev pub or_empty : {V : Type 0} → Option (List V) → List V
or_empty (some xs) = xs
or_empty none = []

module _ {S : Type 0} {blocks : Blocks S} {Cid V : Type 0} (errors : HamtErrorFrom)
    (maps : Hamt blocks Cid HamtError Cid) (arrays : Amt blocks Cid AmtError V) where
  -- a root and the list that it stands for
  abbrev pub Entry : Option Cid → Option (List V) → S → Type 0
  Entry none none s = Unit
  Entry (some c) (some xs) s = arrays.Stored c (get_elem? xs) s
  Entry _ _ s = ⊥

  -- the multimap holds the lists of the view
  abbrev pub Represents : Multimap errors maps arrays → Contents (List V) → S → Type 0
  Represents mm F s =
      (w : ℕ) × (g : Contents Cid) × maps.Has w mm.map g s × ((k : BytesKey) → Entry (g k) (F k) s)

  Entry-Extends :
      (c : Option Cid) (xs : Option (List V)) (s s' : S)
      → blocks.Extends s s'
      → Entry c xs s
      → Entry c xs s'
  Entry-Extends none none s s' x e = tt
  Entry-Extends (some c) (some xs) s s' x e = arrays.Stored-Extends c (get_elem? xs) s s' x e
  Entry-Extends none (some xs) s s' x e = e
  Entry-Extends (some c) none s s' x e = e

  Entry-put_entry :
      (g : Contents Cid) (F : Contents (List V)) (s : S) (c : Option Cid) (xs : Option (List V))
      (key k : BytesKey)
      → ((j : BytesKey) → Entry (g j) (F j) s)
      → Entry c xs s
      → Entry (put_entry g key c k) (put_entry F key xs k) s
  unfolding put_entry
  Entry-put_entry g F s c xs key k before new =
      elim (same_list nat_eq k key)
        as (λ b. Entry (if b then c else g k) (if b then xs else F k) s) [
          | true ↦ new
          | false ↦ before k
        ]

  save_parts :
      (key : BytesKey) (a : arrays.Array) (mm mm' : Multimap errors maps arrays) (s s' : S)
      → save errors maps arrays key a mm s ≡ (ok tt, mm', s')
      → (c : Cid) × (a' : arrays.Array) × (old : Option Cid) × (arrays.flush a s ≡ (ok c, a', s'))
        × (maps.set key c mm.map s' ≡ (ok old, mm'.map))
  unfolding save
  save_parts key a mm mm' s s' h = elim (Result-cases (arrays.flush a s).0) [
    | inr (e, bad) ↦ absurd (ground arith)
    | inl (c, flushed) ↦ elim (Result-cases (maps.set key c mm.map (arrays.flush a s).2).0) [
      | inr (e, bad) ↦ absurd (ground arith)
      | inl (old, written) ↦ (c, (arrays.flush a s).1, old, ground arith, ground arith)
    ]
  ]

  save-Represents :
      (key : BytesKey) (a : arrays.Array) (mm mm' : Multimap errors maps arrays) (s s' : S)
      (F : Contents (List V)) (xs : List V)
      → Represents mm F s
      → arrays.Has a (get_elem? xs) s
      → save errors maps arrays key a mm s ≡ (ok tt, mm', s')
      → Represents mm' (put_entry F key (some xs)) s'
  save-Represents key a mm mm' s s' F xs (w, g, has, entries) items h =
      let (c, a', old, flushed, written) = save_parts key a mm mm' s s' h in
      let (stored, kept, grown) = arrays.flush-Stored a a' (get_elem? xs) s s' c flushed items in
      (
        w,
        put_entry g key (some c),
        maps.set-Has key c mm.map mm'.map g s' old written
            (maps.Has-Extends mm.map g s s' grown has),
        λ k.
            Entry-put_entry g F s' (some c) (some xs) key k
              (λ j. Entry-Extends (g j) (F j) s s' grown (entries j)) stored,
      )

  -- an array that was found, and the list that it holds
  abbrev pub Found : Option arrays.Array → Option (List V) → S → Type 0
  Found none none s = Unit
  Found (some a) (some xs) s = arrays.Has a (get_elem? xs) s
  Found _ _ s = ⊥

  get_Entry :
      (key : BytesKey) (mm : Multimap errors maps arrays) (s : S) (found : Option arrays.Array)
      (c : Option Cid) (xs : Option (List V))
      → get errors maps arrays key mm s ≡ ok found
      → maps.get key mm.map s ≡ ok c
      → Entry c xs s
      → Found found xs s
  unfolding get
  get_Entry key mm s none none none h e stored = tt
  get_Entry key mm s (some a) none none h e stored = ground arith
  get_Entry key mm s none (some c) (some xs) h e stored = ground arith
  get_Entry key mm s (some a) (some c) (some xs) h e stored =
      arrays.load-Has c a (get_elem? xs) s (ground arith) stored
  get_Entry key mm s found none (some xs) h e stored = absurd stored
  get_Entry key mm s found (some c) none h e stored = absurd stored

  -- Where `get` succeeds on a multimap that represents a view it finds an array exactly under the
  -- keys that have a list, and that list in it.
  pub get-Found :
      (key : BytesKey) (mm : Multimap errors maps arrays) (s : S) (F : Contents (List V))
      (found : Option arrays.Array)
      → Represents mm F s
      → get errors maps arrays key mm s ≡ ok found
      → Found found (F key) s
  unfolding get
  get-Found key mm s F found (w, g, has, entries) h = elim (Result-cases (maps.get key mm.map s)) [
    | inr (e, bad) ↦ absurd (ground arith)
    | inl (c, read) ↦
        get_Entry key mm s found c (F key) h read
          (rw (maps.get-Has key mm.map g s c read has) (entries key))
  ]

  or_new-Has :
      (mm : Multimap errors maps arrays) (found : Option arrays.Array) (xs : Option (List V))
      (s : S)
      → Found found xs s
      → arrays.Has (or_new errors maps arrays mm found) (get_elem? (or_empty xs)) s
  or_new-Has mm none none s h = arrays.new-Has mm.inner_bitwidth s
  or_new-Has mm (some a) (some xs) s h = h
  or_new-Has mm none (some xs) s h = absurd h
  or_new-Has mm (some a) none s h = absurd h

  add_parts :
      (key : BytesKey) (v : V) (mm mm' : Multimap errors maps arrays) (s s' : S)
      → add errors maps arrays key v mm s ≡ (ok tt, mm', s')
      → (found : Option arrays.Array) × (a : arrays.Array) × (get errors maps arrays key mm s
          ≡ ok found)
        × (arrays.set
              (arrays.count (or_new errors maps arrays mm found))
              v
              (or_new errors maps arrays mm found)
              s
            ≡ (ok tt, a))
        × (save errors maps arrays key a mm s ≡ (ok tt, mm', s'))
  unfolding add
  add_parts key v mm mm' s s' h = elim (Result-cases (get errors maps arrays key mm s)) [
    | inr (e, bad) ↦ absurd (ground arith)
    | inl (found, read) ↦
        let arr = or_new errors maps arrays mm found in
        let (r, a) = arrays.set (arrays.count arr) v arr s in
        elim (Result-cases r) [
          | inr (e, bad) ↦ absurd (ground arith)
          | inl (u, wrote) ↦ (found, a, read, ap (λ q. (q, a)) wrote, ground arith)
        ]
  ]

  -- After `add` has succeeded on a multimap that represents a view, the multimap represents the view
  -- with the value behind the list of the key, a new list where there was none, and every other list
  -- as it was.
  pub add_appends :
      (key : BytesKey) (v : V) (mm mm' : Multimap errors maps arrays) (s s' : S)
      (F : Contents (List V))
      → Represents mm F s
      → add errors maps arrays key v mm s ≡ (ok tt, mm', s')
      → Represents mm' (put_entry F key (some (or_empty (F key) ++ v ∷ []))) s'
  add_appends key v mm mm' s s' F rep h =
      let (found, a, read, wrote, saved) = add_parts key v mm mm' s s' h in
      let arr = or_new errors maps arrays mm found in
      let xs = or_empty (F key) in
      let held = or_new-Has mm found (F key) s (get-Found key mm s F found rep read) in
      let e : put_item (get_elem? xs) (arrays.count arr) (some v) ≡ get_elem? (xs ++ v ∷ []) =
        rw (arrays.count-Has arr xs s held) (fun_ext (put_item-append xs v)) in
      save-Represents key a mm mm' s s' F (xs ++ v ∷ []) rep
        (rw (← e) (arrays.set-Has (arrays.count arr) v arr a (get_elem? xs) s wrote held)) saved

  Entry-some : (c : Option Cid) (xs : Option (List V)) (s : S) → Entry c xs s → c ≢ none → xs ≢ none
  Entry-some none none s h k = absurd (k refl)
  Entry-some (some c) (some xs) s h k = λ e. cc e
  Entry-some none (some xs) s h k = absurd h
  Entry-some (some c) none s h k = absurd h

  -- After `remove_all` has succeeded on a multimap that represents a view, the key had a list and has
  -- none, and every other list is as it was.
  pub remove_all_removes :
      (key : BytesKey) (mm mm' : Multimap errors maps arrays) (s : S) (F : Contents (List V))
      → Represents mm F s
      → remove_all errors maps arrays key mm s ≡ (ok tt, mm')
      → Represents mm' (put_entry F key none) s × (F key ≢ none)
  unfolding remove_all
  remove_all_removes key mm mm' s F (w, g, has, entries) h =
      let (r, m) = maps.delete key mm.map s in
      elim (Result-cases r) [
        | inr (e, bad) ↦ absurd (ground arith)
        | inl (old, gone) ↦
            let (was, now) = maps.delete-Has key mm.map mm'.map g s old (ground arith) has in
            (
              (w, put_entry g key none, now, λ k. Entry-put_entry g F s none none key k entries tt),
              Entry-some (g key) (F key) s (entries key) (rw (← was) (ground arith)),
            )
      ]
