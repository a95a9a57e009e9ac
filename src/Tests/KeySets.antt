-- ===== src/Tests/KeySets.antt =====
-- The theorem on the loop over the keys of a set at concrete inputs: a set is the list of its keys.
use fvm_utils.Base.{ℕ, ◌≡◌, refl, List, [], ◌∷◌, String, same_list}
use fvm_utils.Hamt.{Hamt, BytesKey, find_entry, Lists, visit_entries}
use fvm_utils.Set
use fvm_utils.Set.Laws.{is_key, NoneTwice, present, collect_keys_lists}
use fvm_utils.Tests.Collections.{toy_blocks}
use fvm_utils.Tests.Entries.{entry_maps}

abbrev key_lists : Hamt toy_blocks ℕ String (Unit {0})
key_lists = entry_maps toy_blocks ℕ String (Unit {0}) (λ bad. "closure") "unsupported"

abbrev two_keys : List (BytesKey × Unit {0})
two_keys = (7 ∷ [], tt) ∷ (8 ∷ [], tt) ∷ []

two_keys-Lists : Lists two_keys (find_entry two_keys)
unfolding find_entry same_list
two_keys-Lists = ((refl, (refl, tt)), λ k. refl)

collect_keys_lists_example :
    NoneTwice ((7 ∷ []) ∷ (8 ∷ []) ∷ [])
    × ((k : BytesKey) → is_key k ((7 ∷ []) ∷ (8 ∷ []) ∷ []) ≡ present (find_entry two_keys k))
unfolding Set.collect_keys Set.for_each visit_entries
collect_keys_lists_example =
    collect_keys_lists key_lists {w = 5} two_keys (find_entry two_keys) 0 ((7 ∷ []) ∷ (8 ∷ []) ∷ [])
      two_keys-Lists refl
