-- ===== src/Tests/Collections.antt =====
-- The theorems on runtime/src/util/set_multimap.rs at concrete inputs: a map is the function that it
-- holds, and a set its own root.
use fvm_utils.Base.{
  ℕ, ◌≡◌, refl, sym, ap, ◌∙◌, none, some, [], ◌∷◌, Result, ok, err, String, pos, arith, same_list,
}
use fvm_utils.Hamt.{Blocks, Hamt, BytesKey, Contents, Varint, put_entry}
use fvm_utils.Hamt.Keys.{u64_key}
use fvm_utils.Set
use fvm_utils.SetMultimap.{get, put, put_many, put_each, remove, save}
use fvm_utils.SetMultimap.Laws.{View, put_at, Represents}
use fvm_utils.SetMultimap.Refinement.{put_refines, remove_refines}
use fvm_utils.SetMultimap.Many.{put_many_refines}
use fvm_utils.Tests.Maps.{
  unvisited, function_maps, put_in, delete_in, put_in-Has, delete_in-Has, get_in-Has,
  contains_in-Has, is_some,
}

abbrev pub toy_decode : BytesKey → Result (ℕ × BytesKey) String
toy_decode [] = err "insufficient"
toy_decode (n ∷ rest) = ok (n, rest)

abbrev pub toy_varint : Varint
toy_varint = record { encode_u64 = λ n. n ∷ []; decode_u64 = toy_decode; decode-encode = λ n. refl }

abbrev pub toy_blocks : Blocks ℕ
toy_blocks = record { Extends = λ s s'. Unit }

abbrev RootSet : Type 0
RootSet = Contents (Unit {0})

pub ok-inj : {A : Type 0} (a b : A) → ◌≡◌ {A = Result A String} (ok a) (ok b) → a ≡ b
ok-inj a b e = ground arith

abbrev toy_sets : Hamt toy_blocks RootSet String (Unit {0})
toy_sets = record {
  Map = RootSet;
  new_with_bit_width = λ w k. none;
  load_with_bit_width = λ c w s. ok c;
  flush = λ m s. (ok m, m, s);
  set = put_in;
  get = λ k m s. ok (m k);
  contains_key = λ k m s. ok (is_some (m k));
  delete = delete_in;
  for_each = λ g m s e. (err "unsupported", e);
  Has = λ w m f s. m ≡ f;
  Stored = λ w c f s. c ≡ f;
  new-Has = λ w s. refl;
  load-Has = λ c w m f s e h. sym (ok-inj c m e) ∙ h;
  flush-Stored =
      λ m m' f s s' c e h. (sym (ok-inj m c (ap (λ q. q.0) e)) ∙ h, sym (ap (λ q. q.1) e) ∙ h, tt);
  set-Has = put_in-Has;
  get-Has = λ k m f s found e h. get_in-Has k m f found e h;
  contains-Has = λ k m f s b e h. contains_in-Has k m f b e h;
  delete-Has = delete_in-Has;
  for_each-Has = λ g m f s e e' h held. absurd (unvisited "unsupported" e e' h);
  Has-Extends = λ m f s s' x h. h;
  Stored-Extends = λ c f s s' x h. h;
}

-- the outer map is never flushed or loaded here
abbrev toy_maps : Hamt toy_blocks RootSet String RootSet
toy_maps = function_maps toy_blocks RootSet String RootSet "unsupported"

-- no set anywhere, and the set of the id 7 under the epoch 5
abbrev nothing : View
nothing k = none

abbrev only_seven : RootSet
only_seven = put_entry (λ k. none) (7 ∷ []) (some tt)

abbrev no_roots : Contents RootSet
no_roots k = none

abbrev five_seven : Contents RootSet
five_seven = put_entry no_roots (5 ∷ []) (some only_seven)

nothing-Represents : Represents toy_varint toy_sets toy_maps no_roots nothing 0
nothing-Represents = (no_roots, refl, λ k. tt)

abbrev view_five : View
view_five = put_at nothing 5 (some only_seven)

five-Represents : Represents toy_varint toy_sets toy_maps five_seven view_five 0
unfolding put get save Set.put Set.root u64_key
five-Represents =
    put_refines toy_varint toy_sets toy_maps (pos 5) 7 no_roots five_seven 0 0 nothing
      nothing-Represents refl

abbrev seven_eight : RootSet
seven_eight = put_entry only_seven (8 ∷ []) (some tt)

put_refines_example :
    Represents toy_varint toy_sets toy_maps
      (put_entry five_seven (5 ∷ []) (some seven_eight))
      (put_at view_five 5 (some seven_eight))
      0
unfolding put get save Set.put Set.root Set.from_root u64_key put_entry same_list
put_refines_example =
    put_refines toy_varint toy_sets toy_maps (pos 5) 8 five_seven
      (put_entry five_seven (5 ∷ []) (some seven_eight)) 0 0 view_five five-Represents refl

put_many_refines_example :
    Represents toy_varint toy_sets toy_maps
      (put_entry no_roots (5 ∷ []) (some seven_eight))
      (put_at nothing 5 (some seven_eight))
      0
unfolding put_many put_each get save Set.put Set.root u64_key
put_many_refines_example =
    put_many_refines toy_varint toy_sets toy_maps (pos 5) (7 ∷ 8 ∷ []) no_roots
      (put_entry no_roots (5 ∷ []) (some seven_eight)) 0 0 nothing nothing-Represents refl

abbrev seven_removed : RootSet
seven_removed = put_entry only_seven (7 ∷ []) none

remove_refines_example :
    Represents toy_varint toy_sets toy_maps
      (put_entry five_seven (5 ∷ []) (some seven_removed))
      (put_at view_five 5 (some seven_removed))
      0
unfolding remove get save Set.delete Set.root Set.from_root u64_key put_entry same_list
remove_refines_example =
    remove_refines toy_varint toy_sets toy_maps (pos 5) 7 five_seven
      (put_entry five_seven (5 ∷ []) (some seven_removed)) 0 0 view_five five-Represents refl
