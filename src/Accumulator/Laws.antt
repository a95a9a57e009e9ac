-- ===== src/Accumulator/Laws.antt =====
-- Properties of the message accumulator.
use fvm_utils.Base.{
  ◌<◌, ◌≡◌, ◌≢◌, refl, Bool, true, false, none, some, List, [], ◌∷◌, ◌++◌, String, concat, arith,
  ◌↔◌, concat_assoc, length, nat_eq, length-append, ◌+◌, ◌&&◌,
}
use fvm_utils.Accumulator.{
  Heap, MessageAccumulator, update, default, with_prefix, messages, len, add, add_all, require,
  assert_expected, all_match,
}

-- A message added through a derived accumulator lands at the end of the shared collection, with
-- the prefixes of all the levels from the outermost inwards, and the original accumulator sees it.
pub messages-add-with_prefix :
    (acc : MessageAccumulator) (p q m : String) (h : Heap)
    → let derived = with_prefix (with_prefix acc p) q in
      let h' = add derived m h in
      (messages acc h' ≡ messages acc h ++ concat acc.prefix (concat p (concat q m)) ∷ [])
      × (messages derived h' ≡ messages acc h')
unfolding messages add with_prefix
messages-add-with_prefix acc p q m h = (
  rw (concat_assoc (concat acc.prefix p) q m, concat_assoc acc.prefix p (concat q m))
      (ground arith),
  refl,
)

-- An accumulator over another collection is not touched by `add`, and a default accumulator shares
-- its collection with none that existed before.
pub add_separate :
    (acc : MessageAccumulator) (m : String) (h : Heap)
    → acc.msgs < h.fresh
    → let (new, h') = default h in
      (messages new (add acc m h') ≡ []) × (messages acc (add new m h') ≡ messages acc h)
unfolding messages add default
add_separate acc m h old = (ground arith, ground arith)

-- `add_all` panics exactly where the two accumulators share their collection, as a derived
-- accumulator and its origin do.
pub add_all-none_iff :
    (acc other : MessageAccumulator) (p : String) (h : Heap)
    → ((add_all acc other h ≡ none) ↔ (acc.msgs ≡ other.msgs))
      × (add_all acc (with_prefix acc p) h ≡ none)
unfolding add_all with_prefix
add_all-none_iff acc other p h = ((λ e. ground arith, λ e. ground arith), ground arith)

-- Between two collections `add_all` appends the other's messages in their order, without a prefix,
-- and leaves the other's as they are.
pub add_all_appends :
    (acc other : MessageAccumulator) (h : Heap)
    → acc.msgs ≢ other.msgs
    → (h' : Heap) × (add_all acc other h ≡ some h')
      × (messages acc h' ≡ messages acc h ++ messages other h)
      × (messages other h' ≡ messages other h)
unfolding messages add_all
add_all_appends acc other h ne = (
  record h { cell = update h.cell acc.msgs (h.cell acc.msgs ++ h.cell other.msgs) },
  ground arith,
  ground arith,
  ground arith,
)

len-add : (acc : MessageAccumulator) (m : String) (h : Heap) → len acc (add acc m h) ≡ len acc h + 1
unfolding len add
len-add acc m h = ground (arith, length-append (h.cell acc.msgs) (concat acc.prefix m ∷ []))

-- The number of messages stays the same exactly where the required predicate holds.
pub require_counts :
    (acc : MessageAccumulator) (predicate : Bool) (m : String) (h : Heap)
    → (len acc (require acc predicate m h) ≡ len acc h) ↔ (predicate ≡ true)
unfolding require
require_counts acc true m h = (λ _. refl, λ _. refl)
require_counts acc false m h = (λ e. absurd (omega (arith, len-add acc m h)), λ e. cc)

-- What `assert_expected` promises: as many patterns as messages, each matching the message at its
-- place.
abbrev pub Matches {ℓ} : {R : Type ℓ} → (R → String → Bool) → List String → List R → Type 0
Matches f [] [] = Unit
Matches f (m ∷ ms) (p ∷ ps) = (f p m ≡ true) × Matches f ms ps
Matches f _ _ = ⊥

module _ {ℓ} {Regex : Type ℓ} (is_match : Regex → String → Bool) where
  all_match_sound :
      (ms : List String) (ps : List Regex)
      → (nat_eq (length ms) (length ps) && all_match is_match ms ps) ≡ true
      → Matches is_match ms ps
  unfolding all_match
  all_match_sound [] [] h = tt
  all_match_sound [] (p ∷ ps) h = ground arith
  all_match_sound (m ∷ ms) [] h = ground arith
  all_match_sound (m ∷ ms) (p ∷ ps) h = ground (arith, all_match_sound ms ps)

  all_match_complete :
      (ms : List String) (ps : List Regex)
      → Matches is_match ms ps
      → (nat_eq (length ms) (length ps) && all_match is_match ms ps) ≡ true
  unfolding all_match
  all_match_complete [] [] h = refl
  all_match_complete [] (p ∷ ps) h = absurd h
  all_match_complete (m ∷ ms) [] h = absurd h
  all_match_complete (m ∷ ms) (p ∷ ps) h = ground (arith, all_match_complete ms ps h.1)

  -- `assert_expected` passes exactly where the messages match the patterns one by one, in order.
  pub assert_expected_iff :
      (acc : MessageAccumulator) (patterns : List Regex) (h : Heap)
      → (assert_expected is_match acc patterns h ≡ true)
        ↔ Matches is_match (messages acc h) patterns
  unfolding assert_expected
  assert_expected_iff acc patterns h =
      (all_match_sound (messages acc h) patterns, all_match_complete (messages acc h) patterns)
