-- ===== src/Tests/Loops.antt =====
-- The theorem on the loop over all lists of a multimap at a concrete input: a map is the list of its
-- entries, and an array is the list that it holds.
use fvm_utils.Base.{
  ℕ, ◌≡◌, refl, some, true, false, nat_eq, if◌then◌else◌, List, [], ◌∷◌, Result, ok, ◌+◌, length,
  same_list,
}
use fvm_utils.Downcast.{AnyError, HamtError, hamt_other, hamt_dynamic}
use fvm_utils.Hamt.{Hamt, BytesKey, find_entry, Distinct, visit_entries}
use fvm_utils.Multimap.{Multimap, for_all, load_and_call}
use fvm_utils.Multimap.Laws.{Entry, Represents, Found}
use fvm_utils.Multimap.Each.{for_all_once}
use fvm_utils.Tests.Arrays.{Log, log_blocks, lists, errors}
use fvm_utils.Tests.Entries.{entry_maps}

abbrev roots_listed : Hamt log_blocks ℕ HamtError ℕ
roots_listed = entry_maps log_blocks ℕ HamtError ℕ hamt_dynamic (hamt_other "unsupported")

-- under the key 1 the list 7, and under 2 the list 8, 9
abbrev two_lists : Multimap errors roots_listed lists
two_lists = record { map = (1 ∷ [], 0) ∷ (2 ∷ [], 1) ∷ []; inner_bitwidth = 3 }

abbrev log : Log
log = (7 ∷ []) ∷ (8 ∷ 9 ∷ []) ∷ []

abbrev both_lists : List (BytesKey × List ℕ)
both_lists = (1 ∷ [], 7 ∷ []) ∷ (2 ∷ [], 8 ∷ 9 ∷ []) ∷ []

-- one more identifier with the list that it stands for
Entry-cons :
    (j : BytesKey) (c : ℕ) (xs : List ℕ) (ids : List (BytesKey × ℕ))
    (held : List (BytesKey × List ℕ))
    → Entry errors roots_listed lists (some c) (some xs) log
    → ((k : BytesKey) → Entry errors roots_listed lists (find_entry ids k) (find_entry held k) log)
    → (k : BytesKey)
    → Entry errors roots_listed lists
        (find_entry ((j, c) ∷ ids) k)
        (find_entry ((j, xs) ∷ held) k)
        log
unfolding find_entry
Entry-cons j c xs ids held new others k =
    elim (same_list nat_eq k j)
      as (λ b.
        Entry errors roots_listed lists (if b then some c else find_entry ids k)
          (if b then some xs else find_entry held k) log) [ true ↦ new | false ↦ others k ]

two_lists-Represents : Represents errors roots_listed lists two_lists (find_entry both_lists) log
unfolding find_entry same_list
two_lists-Represents = (
  3,
  find_entry two_lists.map,
  ((refl, (refl, tt)), λ k. refl),
  Entry-cons (1 ∷ []) 0 (7 ∷ []) ((2 ∷ [], 1) ∷ []) ((2 ∷ [], 8 ∷ 9 ∷ []) ∷ []) (7 ∷ [], refl, refl)
      (Entry-cons (2 ∷ []) 1 (8 ∷ 9 ∷ []) [] [] (8 ∷ 9 ∷ [], refl, refl) (λ k. tt)),
)

-- a closure that adds the lengths up
abbrev add_length : BytesKey → List ℕ → ℕ → Result (Unit {0}) AnyError × ℕ
add_length k xs e = (ok tt, e + length xs)

for_all_once_example :
    (arrs : List (BytesKey × List ℕ)) × Distinct arrs
    × ((k : BytesKey)
        → Found errors roots_listed lists (find_entry arrs k) (find_entry both_lists k) log)
    × (visit_entries add_length arrs 0 ≡ (ok tt, 3))
unfolding for_all load_and_call visit_entries
for_all_once_example =
    for_all_once errors roots_listed lists add_length two_lists log (find_entry both_lists) 0 3
      two_lists-Represents refl
