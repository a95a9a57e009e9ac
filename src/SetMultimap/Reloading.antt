-- ===== src/SetMultimap/Reloading.antt =====
-- runtime/src/util/set_multimap.rs: a multimap that is written with `root` and loaded with `from_root`,
-- as an actor does from one message to the next.
use fvm_utils.Base.{ℕ, ◌≡◌, none, ok, ℤ, as_u64, Option}
use fvm_utils.Hamt.{hamt_bit_width, Blocks, Hamt, Varint}
use fvm_utils.Hamt.Keys.{u64_key}
use fvm_utils.SetMultimap.{new, from_root, root, get}
use fvm_utils.SetMultimap.Laws.{View, Entry, Represents, Entry-Extends, Found}
use fvm_utils.SetMultimap.Refinement.{get-Found}

module _ {S : Type 0} {blocks : Blocks S} {Cid Error : Type 0} (varint : Varint)
    (sets : Hamt blocks Cid Error (Unit {0})) (maps : Hamt blocks Cid Error Cid) where
  -- A new multimap has no set under any key.
  new-Represents : (s : S) → Represents varint sets maps (new varint sets maps) (λ k. none) s
  unfolding new
  new-Represents s = (λ k. none, maps.new-Has hamt_bit_width s, λ k. tt)

  root-Represents :
      (mm mm' : maps.Map) (s s' : S) (c : Cid) (F : View)
      → Represents varint sets maps mm F s
      → root varint sets maps mm s ≡ (ok c, mm', s')
      → Represents varint sets maps mm' F s'
        × ((loaded : maps.Map)
            → from_root varint sets maps c s' ≡ ok loaded
            → Represents varint sets maps loaded F s')
  unfolding root from_root
  root-Represents mm mm' s s' c F (g, has, entries) wrote =
      let (stored, kept, grown) = maps.flush-Stored mm mm' g s s' c wrote has in
      let moved : (k : ℕ) → Entry varint sets maps (g (u64_key varint k)) (F k) s' =
        λ k. Entry-Extends varint sets maps (g (u64_key varint k)) (F k) s s' grown (entries k) in
      (
        (g, kept, moved),
        λ loaded read. (g, maps.load-Has c hamt_bit_width loaded g s' read stored, moved),
      )

  -- A new multimap represents the view without a set. Where a multimap represents a view and was written to
  -- the store, the multimap that is loaded from its root represents the same view, as does the one that
  -- was written, and a `get` that succeeds on what was loaded finds a set exactly where the view has one, and
  -- that set.
  pub from_root-root :
      (mm mm' loaded : maps.Map) (s s' : S) (c : Cid) (F : View)
      → Represents varint sets maps mm F s
      → root varint sets maps mm s ≡ (ok c, mm', s')
      → from_root varint sets maps c s' ≡ ok loaded
      → Represents varint sets maps (new varint sets maps) (λ k. none) s
        × Represents varint sets maps mm' F s'
        × Represents varint sets maps loaded F s'
        × ((key : ℤ) (found : Option sets.Map)
            → get varint sets maps key loaded s' ≡ ok found
            → Found varint sets maps found (F (as_u64 key)) s')
  from_root-root mm mm' loaded s s' c F rep wrote read =
      let (left, again) = root-Represents mm mm' s s' c F rep wrote in
      let back = again loaded read in
      (
        new-Represents s,
        left,
        back,
        λ key found got. get-Found varint sets maps key loaded s' F found back got,
      )
