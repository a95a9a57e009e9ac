-- ===== src/Tests/Reloads.antt =====
-- The theorem on a multimap of sets that is written and loaded, at concrete inputs: a log of sets and a
-- log of maps in one store.
use fvm_utils.Base.{ℕ, ◌≡◌, refl, Option, none, some, List, [], ◌∷◌, ok, ℤ, pos, as_u64}
use fvm_utils.Downcast.{HamtError}
use fvm_utils.Hamt.{Blocks, Hamt, Contents, put_entry}
use fvm_utils.Hamt.Keys.{u64_key}
use fvm_utils.Set
use fvm_utils.SetMultimap.{new, from_root, root, get, put, save}
use fvm_utils.SetMultimap.Laws.{View, put_at, Represents, Found}
use fvm_utils.SetMultimap.Refinement.{put_refines}
use fvm_utils.SetMultimap.Reloading.{from_root-root}
use fvm_utils.Tests.Collections.{toy_varint}
use fvm_utils.Tests.Logs.{Prefix, get_elem?-append}
use fvm_utils.Tests.LogMaps.{shared_maps}

record Store : Type 0 where
  set_log : List (Contents (Unit {0}))
  map_log : List (Contents ℕ)

abbrev store_blocks : Blocks Store
store_blocks = record {
  Extends = λ s s'. Prefix s.set_log s'.set_log × Prefix s.map_log s'.map_log;
}

abbrev stored_sets : Hamt store_blocks ℕ HamtError (Unit {0})
stored_sets =
    shared_maps (λ s. s.set_log) (λ log s. record s { set_log = log }) (λ log s. refl) store_blocks
      (λ s s' x. x.0) (λ m s. (λ i a h. get_elem?-append s.set_log (m ∷ []) i a h, λ i a h. h))

abbrev stored_maps : Hamt store_blocks ℕ HamtError ℕ
stored_maps =
    shared_maps (λ s. s.map_log) (λ log s. record s { map_log = log }) (λ log s. refl) store_blocks
      (λ s s' x. x.1) (λ m s. (λ i a h. h, λ i a h. get_elem?-append s.map_log (m ∷ []) i a h))

abbrev no_sets : View
no_sets k = none

abbrev only_seven : Contents (Unit {0})
only_seven = put_entry (λ k. none) (7 ∷ []) (some tt)

abbrev at_five : Contents ℕ
at_five = put_entry (λ k. none) (5 ∷ []) (some 0)

abbrev view_five : View
view_five = put_at no_sets 5 (some only_seven)

-- the store before anything is written, with the set, and with the map
abbrev empty_store : Store
empty_store = record { set_log = []; map_log = [] }

abbrev with_set : Store
with_set = record { set_log = only_seven ∷ []; map_log = [] }

abbrev with_map : Store
with_map = record { set_log = only_seven ∷ []; map_log = at_five ∷ [] }

put-Represents : Represents toy_varint stored_sets stored_maps at_five view_five with_set
unfolding put get save Set.put Set.root u64_key
put-Represents =
    put_refines toy_varint stored_sets stored_maps (pos 5) 7 (λ k. none) at_five empty_store
      with_set no_sets (λ k. none, refl, λ k. tt) refl

from_root-root_example :
    Represents toy_varint stored_sets stored_maps
      (new toy_varint stored_sets stored_maps)
      (λ k. none)
      with_set
    × Represents toy_varint stored_sets stored_maps at_five view_five with_map
    × Represents toy_varint stored_sets stored_maps at_five view_five with_map
    × ((key : ℤ) (found : Option (Contents (Unit {0})))
        → get toy_varint stored_sets stored_maps key at_five with_map ≡ ok found
        → Found toy_varint stored_sets stored_maps found (view_five (as_u64 key)) with_map)
unfolding root from_root
from_root-root_example =
    from_root-root toy_varint stored_sets stored_maps at_five at_five at_five with_set with_map 0
      view_five put-Represents refl refl
