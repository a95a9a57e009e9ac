-- ===== src/Accumulator.antt =====
-- runtime/src/util/message_accumulator.rs. The collection behind `Rc<RefCell<Vec<String>>>` is shared
-- between accumulators, so an accumulator holds a reference into a heap of collections.
pub mod Laws
pub mod Reports
pub mod SelfTests
use fvm_utils.Base.{
  ℕ, suc, ◌+◌, Bool, true, false, ◌&&◌, Option, none, some, List, [], ◌∷◌, ◌++◌, String, Result, ok,
  err, concat, prefixed, if◌then◌else◌, nat_eq, length,
}

-- the next free reference, and the collections by reference
pub record Heap : Type 0 where
  pub fresh : ℕ
  pub cell : ℕ → List String

pub record MessageAccumulator : Type 0 where
  pub msgs : ℕ
  pub prefix : String

-- a write to one collection
abbrev pub update : (ℕ → List String) → ℕ → List String → ℕ → List String
update f r v j = if nat_eq j r then v else f j

-- `Default`: a collection of its own
unfoldable pub default : Heap → MessageAccumulator × Heap
default h = (
  record { msgs = h.fresh; prefix = "" },
  record { fresh = suc h.fresh; cell = update h.cell h.fresh [] },
)

unfoldable pub with_prefix : MessageAccumulator → String → MessageAccumulator
with_prefix acc p = record { msgs = acc.msgs; prefix = concat acc.prefix p }

unfoldable pub messages : MessageAccumulator → Heap → List String
messages acc h = h.cell acc.msgs

unfoldable pub is_empty : MessageAccumulator → Heap → Bool
is_empty acc h = elim (h.cell acc.msgs) [ [] ↦ true | m ∷ ms ↦ false ]

unfoldable pub len : MessageAccumulator → Heap → ℕ
len acc h = length (h.cell acc.msgs)

unfoldable pub add : MessageAccumulator → String → Heap → Heap
add acc m h = record h {
  cell = update h.cell acc.msgs (h.cell acc.msgs ++ concat acc.prefix m ∷ []);
}

-- `add_all`: the collection of `self` is borrowed for writing when that of `other` is borrowed for
-- reading, so `RefCell` panics (`none`) where they are one.
unfoldable pub add_all : MessageAccumulator → MessageAccumulator → Heap → Option Heap
add_all acc other h =
    if nat_eq acc.msgs other.msgs
    then none
    else some (record h { cell = update h.cell acc.msgs (h.cell acc.msgs ++ h.cell other.msgs) })

unfoldable pub require : MessageAccumulator → Bool → String → Heap → Heap
unfolding add
require acc predicate m h = if predicate then h else add acc m h

-- `show` is the `Display` of the error
unfoldable pub require_no_error {ℓ κ} :
    {V : Type ℓ} {E : Type κ}
    → (E → String)
    → MessageAccumulator
    → Result V E
    → String
    → Heap
    → Heap
unfolding add
require_no_error show acc (ok v) m h = h
require_no_error show acc (err e) m h = add acc (prefixed m (show e)) h

-- `assert_empty`: `false` is the panic
unfoldable pub assert_empty : MessageAccumulator → Heap → Bool
unfolding is_empty
assert_empty acc h = is_empty acc h

module _ {ℓ} {Regex : Type ℓ} (is_match : Regex → String → Bool) where
  -- the messages against the patterns, pairwise
  unfoldable pub all_match : List String → List Regex → Bool
  all_match (m ∷ ms) (p ∷ ps) = is_match p m && all_match ms ps
  all_match [] ps = true
  all_match (m ∷ ms) [] = true

  unfoldable pub assert_expected : MessageAccumulator → List Regex → Heap → Bool
  unfolding messages all_match
  assert_expected acc patterns h =
      nat_eq (length (messages acc h)) (length patterns) && all_match (messages acc h) patterns
