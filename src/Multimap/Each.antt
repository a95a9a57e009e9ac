-- ===== src/Multimap/Each.antt =====
-- The loop over the values of a key of a `Multimap`.
use fvm_utils.Base.{
  ℕ, ◌≡◌, refl, true, false, nat_eq, same_list, if◌then◌else◌, Option, none, some, List, [], ◌∷◌,
  get_elem?, Result, ok, Result-cases, inl, inr, arith,
}
use fvm_utils.Downcast.{AnyError, AmtError, HamtError}
use fvm_utils.Hamt.{Blocks, Hamt, Contents, BytesKey, find_entry, Distinct, visit_entries}
use fvm_utils.Amt.{Amt, visit}
use fvm_utils.Multimap.{HamtErrorFrom, Multimap, get, for_each, load_and_call, for_all}
use fvm_utils.Multimap.Laws.{or_empty, Entry, Represents, Found, get-Found}

module _ {S : Type 0} {blocks : Blocks S} {Cid V : Type 0} (errors : HamtErrorFrom)
    (maps : Hamt blocks Cid HamtError Cid) (arrays : Amt blocks Cid AmtError V) where
  visit-Found :
      {E : Type 0} (key : BytesKey) (f : ℕ → V → E → Result (Unit {0}) AnyError × E)
      (mm : Multimap errors maps arrays) (s : S) (xs : Option (List V))
      (found : Option arrays.Array) (e e' : E)
      → Found errors maps arrays found xs s
      → get errors maps arrays key mm s ≡ ok found
      → for_each errors maps arrays key f mm s e ≡ (ok tt, e')
      → visit f 0 (or_empty xs) e ≡ (ok tt, e')
  unfolding for_each visit
  visit-Found key f mm s none none e e' held read h = ground arith
  visit-Found key f mm s (some xs) (some a) e e' held read h =
      arrays.for_each-Has f a xs s e e' (ground arith) held
  visit-Found key f mm s (some xs) none e e' held read h = absurd held
  visit-Found key f mm s none (some a) e e' held read h = absurd held

  -- A `for_each` that succeeds on a multimap that represents a view has called the closure on the
  -- values of the key in the order in which they were added, and on nothing where there are none.
  pub for_each_in_order :
      {E : Type 0} (key : BytesKey) (f : ℕ → V → E → Result (Unit {0}) AnyError × E)
      (mm : Multimap errors maps arrays) (s : S) (F : Contents (List V)) (e e' : E)
      → Represents errors maps arrays mm F s
      → for_each errors maps arrays key f mm s e ≡ (ok tt, e')
      → visit f 0 (or_empty (F key)) e ≡ (ok tt, e')
  unfolding for_each
  for_each_in_order key f mm s F e e' rep h =
      elim (Result-cases (get errors maps arrays key mm s)) [
        | inr (bad, unread) ↦ absurd (ground arith)
        | inl (found, read) ↦
            visit-Found key f mm s (F key) found e e'
              (get-Found errors maps arrays key mm s F found rep read) read h
      ]

  -- an identifier and the array that is loaded under it
  abbrev Loaded : Option Cid → Option arrays.Array → S → Type 0
  Loaded none none s = Unit
  Loaded (some c) (some a) s = arrays.load c s ≡ ok a
  Loaded _ _ s = ⊥

  Loaded-Found :
      (c : Option Cid) (a : Option arrays.Array) (xs : Option (List V)) (s : S)
      → Loaded c a s
      → Entry errors maps arrays c xs s
      → Found errors maps arrays a xs s
  Loaded-Found none none none s h k = tt
  Loaded-Found (some c) (some a) (some xs) s h k = arrays.load-Has c a (get_elem? xs) s h k
  Loaded-Found none (some a) xs s h k = absurd h
  Loaded-Found (some c) none xs s h k = absurd h
  Loaded-Found none none (some xs) s h k = absurd k
  Loaded-Found (some c) (some a) none s h k = absurd k

  Loaded-none :
      (c : Option Cid) (a : Option arrays.Array) (s : S) → Loaded c a s → c ≡ none → a ≡ none
  Loaded-none none none s h e = refl
  Loaded-none (some c) (some a) s h e = cc e
  Loaded-none none (some a) s h e = absurd h
  Loaded-none (some c) none s h e = absurd h

  abbrev AllLoaded : List (BytesKey × Cid) → List (BytesKey × arrays.Array) → S → Type 0
  AllLoaded entries arrs s = (k : BytesKey) → Loaded (find_entry entries k) (find_entry arrs k) s

  AllLoaded-cons :
      (j : BytesKey) (c : Cid) (a : arrays.Array) (entries : List (BytesKey × Cid))
      (arrs : List (BytesKey × arrays.Array)) (s : S)
      → arrays.load c s ≡ ok a
      → AllLoaded entries arrs s
      → AllLoaded ((j, c) ∷ entries) ((j, a) ∷ arrs) s
  unfolding find_entry
  AllLoaded-cons j c a entries arrs s h others k =
      elim (same_list nat_eq k j)
        as (λ b.
          Loaded (if b then some c else find_entry entries k)
            (if b then some a else find_entry arrs k) s) [ true ↦ h | false ↦ others k ]

  load_each :
      {E : Type 0} (f : BytesKey → arrays.Array → E → Result (Unit {0}) AnyError × E) (s : S)
      (entries : List (BytesKey × Cid)) (e e' : E)
      → Distinct entries
      → visit_entries (load_and_call errors maps arrays f s) entries e ≡ (ok tt, e')
      → (arrs : List (BytesKey × arrays.Array)) × Distinct arrs
        × AllLoaded entries arrs s
        × (visit_entries f arrs e ≡ (ok tt, e'))
  unfolding visit_entries load_and_call find_entry
  load_each f s [] e e' once h = ([], tt, λ k. tt, h)
  load_each f s ((j, c) ∷ entries) e e' (new, once) h = elim (Result-cases (arrays.load c s)) [
    | inr (bad, unread) ↦ absurd (ground arith)
    | inl (a, loaded) ↦
        let (r, e1) = f j a e in
        elim (Result-cases r) [
          | inr (bad, failed) ↦ absurd (ground arith)
          | inl (u, fine) ↦
              let (arrs, distinct, all, ran) = load_each f s entries e1 e' once (ground arith) in
              (
                (j, a) ∷ arrs,
                (Loaded-none (find_entry entries j) (find_entry arrs j) s (all j) new, distinct),
                AllLoaded-cons j c a entries arrs s loaded all,
                ground arith,
              )
        ]
  ]

  -- A `for_all` that succeeds on a multimap that represents a view has called the closure on each key
  -- that has a list once, in some order, with an array that holds the list of the key.
  pub for_all_once :
      {E : Type 0} (f : BytesKey → arrays.Array → E → Result (Unit {0}) AnyError × E)
      (mm : Multimap errors maps arrays) (s : S) (F : Contents (List V)) (e e' : E)
      → Represents errors maps arrays mm F s
      → for_all errors maps arrays f mm s e ≡ (ok tt, e')
      → (arrs : List (BytesKey × arrays.Array)) × Distinct arrs
        × ((k : BytesKey) → Found errors maps arrays (find_entry arrs k) (F k) s)
        × (visit_entries f arrs e ≡ (ok tt, e'))
  unfolding for_all
  for_all_once f mm s F e e' (w, g, has, stored) h =
      let (entries, (once, same), ran) =
        maps.for_each-Has (load_and_call errors maps arrays f s) mm.map g s e e' h has in
      let (arrs, distinct, all, called) = load_each f s entries e e' once ran in
      (
        arrs,
        distinct,
        λ k.
            Loaded-Found (find_entry entries k) (find_entry arrs k) (F k) s (all k)
              (rw (same k) (stored k)),
        called,
      )
