-- ===== src/SetMultimap/Many.antt =====
-- `put_many` of `SetMultimap`.
use fvm_utils.Base.{
  ℕ, ◌≡◌, ap, Option, some, List, [], ◌∷◌, ok, Result-cases, inl, inr, arith, ℤ, as_u64,
}
use fvm_utils.Hamt.{hamt_bit_width, Blocks, Hamt, Contents, Varint, put_entry}
use fvm_utils.Hamt.Keys.{u64_key}
use fvm_utils.Set
use fvm_utils.SetMultimap.{get, or_new, save, put_each, put_many}
use fvm_utils.SetMultimap.Laws.{View, put_at, or_empty, Represents, save-Represents}
use fvm_utils.SetMultimap.Refinement.{get-Found, or_new-Has}

module _ {S : Type 0} {blocks : Blocks S} {Cid Error : Type 0} (varint : Varint)
    (sets : Hamt blocks Cid Error (Unit {0})) (maps : Hamt blocks Cid Error Cid) where
  -- a set with ids added one after the other
  abbrev pub with_each : Contents (Unit {0}) → List ℕ → Contents (Unit {0})
  with_each f [] = f
  with_each f (v ∷ values) = with_each (put_entry f (u64_key varint v) (some tt)) values

  put_each_step :
      (v : ℕ) (values : List ℕ) (set set' : sets.Map) (s : S)
      → put_each varint sets maps (v ∷ values) set s ≡ (ok tt, set')
      → (next : sets.Map) × (old : Option (Unit {0})) × (sets.set (u64_key varint v) tt set s
          ≡ (ok old, next))
        × (put_each varint sets maps values next s ≡ (ok tt, set'))
  unfolding put_each Set.put
  put_each_step v values set set' s h =
      let (r, next) = sets.set (u64_key varint v) tt set s in
      elim (Result-cases r) [
        | inr (e, bad) ↦ absurd (ground arith)
        | inl (old, wrote) ↦ (next, old, ap (λ q. (q, next)) wrote, ground arith)
      ]

  put_each-Has :
      (values : List ℕ) (set set' : sets.Map) (f : Contents (Unit {0})) (s : S)
      → sets.Has hamt_bit_width set f s
      → put_each varint sets maps values set s ≡ (ok tt, set')
      → sets.Has hamt_bit_width set' (with_each f values) s
  unfolding put_each
  put_each-Has [] set set' f s held h = rw⁻¹ (ap (λ q. q.1) h) held
  put_each-Has (v ∷ values) set set' f s held h =
      let (next, old, wrote, rest) = put_each_step v values set set' s h in
      put_each-Has values next set' (put_entry f (u64_key varint v) (some tt)) s
        (sets.set-Has (u64_key varint v) tt set next f s old wrote held) rest

  put_many_parts :
      (key : ℤ) (values : List ℕ) (mm mm' : maps.Map) (s s' : S)
      → put_many varint sets maps key values mm s ≡ (ok tt, mm', s')
      → (found : Option sets.Map) × (set : sets.Map) × (get varint sets maps key mm s ≡ ok found)
        × (put_each varint sets maps values (or_new varint sets maps found) s ≡ (ok tt, set))
        × (save varint sets maps key set mm s ≡ (ok tt, mm', s'))
  unfolding put_many
  put_many_parts key values mm mm' s s' h = elim (Result-cases (get varint sets maps key mm s)) [
    | inr (e, bad) ↦ absurd (ground arith)
    | inl (found, read) ↦
        let (r, set) = put_each varint sets maps values (or_new varint sets maps found) s in
        elim (Result-cases r) [
          | inr (e, bad) ↦ absurd (ground arith)
          | inl (done_all, wrote) ↦ (found, set, read, ap (λ q. (q, set)) wrote, ground arith)
        ]
  ]

  -- After `put_many` has succeeded on a multimap that represents a view, the multimap represents the view with all the ids added to the
  -- set of the key, and with every other set as it was.
  pub put_many_refines :
      (key : ℤ) (values : List ℕ) (mm mm' : maps.Map) (s s' : S) (F : View)
      → Represents varint sets maps mm F s
      → put_many varint sets maps key values mm s ≡ (ok tt, mm', s')
      → Represents varint sets maps mm'
          (put_at F (as_u64 key) (some (with_each (or_empty (F (as_u64 key))) values)))
          s'
  put_many_refines key values mm mm' s s' F rep h =
      let (found, set, read, wrote, saved) = put_many_parts key values mm mm' s s' h in
      save-Represents varint sets maps key set mm mm' s s' F
        (with_each (or_empty (F (as_u64 key))) values) rep
        (put_each-Has values (or_new varint sets maps found) set (or_empty (F (as_u64 key))) s
          (or_new-Has varint sets maps found (F (as_u64 key)) s
            (get-Found varint sets maps key mm s F found rep read))
          wrote)
        saved
