-- ===== src/Accumulator/SelfTests.antt =====
-- runtime/src/util/message_accumulator.rs: the tests of the file, each in a heap without collections; `false`
-- is an assertion that does not hold.
use fvm_utils.Base.{
  ◌≡◌, Bool, true, false, ◌&&◌, not, Option, none, some, List, [], ◌∷◌, String, Result, err, nat_eq,
  same_list, same_text, prefixed, refl,
}
use fvm_utils.Accumulator.{
  Heap, MessageAccumulator, default, with_prefix, messages, is_empty, len, add, require,
  require_no_error, add_all,
}

abbrev no_heap : Heap
no_heap = record { fresh = 0; cell = λ r. [] }

-- `assert_eq!` on the messages
abbrev reads : MessageAccumulator → Heap → List String → Bool
reads acc h expected = same_list same_text (messages acc h) expected

unfoldable adds_messages : Bool
adds_messages =
    let (acc, h0) = default no_heap in
    let h1 = add acc "Cthulhu" h0 in
    let h2 = add acc "Azathoth" h1 in
    nat_eq (len acc h1) 1
    && (reads acc h1 ("Cthulhu" ∷ [])
        && (nat_eq (len acc h2) 2 && reads acc h2 ("Cthulhu" ∷ "Azathoth" ∷ [])))

unfoldable adds_on_predicate : Bool
adds_on_predicate =
    let (acc, h0) = default no_heap in
    let h1 = require acc true "Cthulhu" h0 in
    let h2 = require acc false "Azathoth" h1 in
    nat_eq (len acc h1) 0
    && (is_empty acc h1
        && (nat_eq (len acc h2) 1 && (reads acc h2 ("Azathoth" ∷ []) && not (is_empty acc h2))))

abbrev fiasco : Result (Unit {0}) String
fiasco = err "fiasco"

unfoldable test_require_no_error : Bool
test_require_no_error =
    let (acc, h0) = default no_heap in
    let h1 = require_no_error (λ e. e) acc fiasco "Cthulhu says" h0 in
    nat_eq (len acc h1) 1 && reads acc h1 ("Cthulhu says: fiasco" ∷ [])

unfoldable prefixes : Bool
prefixes =
    let (acc, h0) = default no_heap in
    let h1 = add acc "peasant" h0 in
    let gods_acc = with_prefix acc "elder god -> " in
    let h2 = add gods_acc "Cthulhu" h1 in
    let expected = "peasant" ∷ "elder god -> Cthulhu" ∷ [] in
    reads acc h2 expected && reads gods_acc h2 expected

-- what `add_all` leaves, or `false` where it panics
abbrev then_heap : Option Heap → (Heap → Bool) → Bool
then_heap none f = false
then_heap (some h) f = f h

unfoldable test_add_all : Bool
test_add_all =
    let (acc1, h0) = default no_heap in
    let h1 = add acc1 "Cthulhu" h0 in
    let (acc2, h2) = default h1 in
    let h3 = add acc2 "Azathoth" h2 in
    let (acc3, h4) = default h3 in
    then_heap (add_all acc3 acc1 h4) λ h5.
      then_heap (add_all acc3 acc2 h5)
        λ h6. nat_eq 2 (len acc3 h6) && reads acc3 h6 ("Cthulhu" ∷ "Azathoth" ∷ [])

-- All five tests pass.
self_tests_hold :
    (adds_messages ≡ true)
    × (adds_on_predicate ≡ true)
    × (test_require_no_error ≡ true)
    × (prefixes ≡ true)
    × (test_add_all ≡ true)
unfolding adds_messages adds_on_predicate test_require_no_error prefixes test_add_all default
    with_prefix messages is_empty len add require require_no_error add_all prefixed same_list
self_tests_hold = (refl, refl, refl, refl, refl)
