-- ===== src/Tests/Arrays.antt =====
-- The theorems on runtime/src/util/multimap.rs at concrete inputs: an array is the list that it holds,
-- and is stored in a log.
use fvm_utils.Base.{
  ℕ, suc, ◌≡◌, ◌≢◌, refl, sym, ap, ◌∙◌, Option, none, some, List, [], ◌∷◌, ◌++◌, Result, ok, err,
  arith, length, get_elem?, nat_eq, if◌then◌else◌, map_err, same_list, ◌+◌,
}
use mathlib.Core.Path.{fun_ext}
use fvm_utils.Downcast.{
  AnyError, AmtError, HamtError, amt_other, amt_dynamic, hamt_other, hamt_dynamic, message,
}
use fvm_utils.Hamt.{Blocks, Hamt, Contents, put_entry}
use fvm_utils.Amt.{Amt, Items, put_item, visit}
use fvm_utils.Multimap.{HamtErrorFrom, Multimap, get, save, add, remove_all, for_each}
use fvm_utils.Multimap.Each.{for_each_in_order}
use fvm_utils.Multimap.Laws.{put_item-append, Represents, add_appends, remove_all_removes}
use fvm_utils.Tests.Maps.{function_maps}
use fvm_utils.Tests.Logs.{get_elem?-last, get_elem?-append, Prefix}

abbrev pub Log : Type 0
Log = List (List ℕ)

abbrev pub log_blocks : Blocks Log
log_blocks = record { Extends = Prefix }

pub same_items :
    {A : Type 0} (xs ys : List A) → ((i : ℕ) → get_elem? xs i ≡ get_elem? ys i) → xs ≡ ys
same_items [] [] h = refl
same_items [] (y ∷ ys) h = absurd (ground (arith, h 0))
same_items (x ∷ xs) [] h = absurd (ground (arith, h 0))
same_items (x ∷ xs) (y ∷ ys) h =
    let tail = same_items xs ys (λ i. h (suc i)) in
    let head : x ≡ y = ground (arith, h 0) in ground (arith, head, tail)

abbrev Held : List ℕ → Items ℕ → Log → Type 0
Held a f s = get_elem? a ≡ f

abbrev At : ℕ → Items ℕ → Log → Type 0
At c f s = (a : List ℕ) × (get_elem? s c ≡ some a) × (get_elem? a ≡ f)

abbrev load_list : ℕ → Log → Result (List ℕ) AmtError
load_list c s = elim (get_elem? s c) [ some a ↦ ok a | none ↦ err (amt_other "absent") ]

abbrev flush_list : List ℕ → Log → Result ℕ AmtError × List ℕ × Log
flush_list a s = (ok (length s), a, s ++ a ∷ [])

-- only the next index can be set
abbrev set_list : ℕ → ℕ → List ℕ → Log → Result (Unit {0}) AmtError × List ℕ
set_list i v a s = if nat_eq i (length a) then (ok tt, a ++ v ∷ []) else (err (amt_other "hole"), a)

abbrev visit_list :
    {E : Type 0}
    → (ℕ → ℕ → E → Result (Unit {0}) AnyError × E)
    → List ℕ
    → Log
    → E
    → Result (Unit {0}) AmtError × E
visit_list f a s e = let (r, e') = visit f 0 a e in (map_err amt_dynamic r, e')

pub load_list-Held :
    (c : ℕ) (a : List ℕ) (f : Items ℕ) (s : Log) → load_list c s ≡ ok a → At c f s → Held a f s
load_list-Held c a f s e (b, found, held) =
    let same : b ≡ a = ground (arith, e, found) in rw (← same) held

pub flush_list-At :
    (a a' : List ℕ) (f : Items ℕ) (s s' : Log) (c : ℕ)
    → flush_list a s ≡ (ok c, a', s')
    → Held a f s
    → At c f s' × Held a' f s' × Prefix s s'
flush_list-At a a' f s s' c e h = (
  (a, ground (arith, get_elem?-last s a), h),
  (let same : a ≡ a' = ground arith in rw (← same) h),
  λ i x found. ground (arith, get_elem?-append s (a ∷ []) i x),
)

pub set_list-Held :
    (i v : ℕ) (a a' : List ℕ) (f : Items ℕ) (s : Log)
    → set_list i v a s ≡ (ok tt, a')
    → Held a f s
    → Held a' (put_item f i (some v)) s
set_list-Held i v a a' f s e h =
    let last : i ≡ length a = ground arith in
    let grown : a ++ v ∷ [] ≡ a' = ground arith in
    rw (← grown, ← h, last) (sym (fun_ext (put_item-append a v)))

pub get_list-Held :
    (i : ℕ) (a : List ℕ) (f : Items ℕ) (s : Log) (found : Option ℕ)
    → ◌≡◌ {A = Result (Option ℕ) AmtError} (ok (get_elem? a i)) (ok found)
    → Held a f s
    → found ≡ f i
get_list-Held i a f s found e h =
    let same : get_elem? a i ≡ found = cc e in sym same ∙ ap (λ g. g i) h

pub count_list : (a xs : List ℕ) (s : Log) → Held a (get_elem? xs) s → length a ≡ length xs
count_list a xs s h = ap length (same_items a xs (λ i. ap (λ g. g i) h))

pub visit_list-Held :
    {E : Type 0} (f : ℕ → ℕ → E → Result (Unit {0}) AnyError × E) (a xs : List ℕ) (s : Log)
    (e e' : E)
    → visit_list f a s e ≡ (ok tt, e')
    → Held a (get_elem? xs) s
    → visit f 0 xs e ≡ (ok tt, e')
visit_list-Held f a xs s e e' h held =
    rw (← same_items a xs (λ i. ap (λ g. g i) held)) (ground arith)

abbrev pub lists : Amt log_blocks ℕ AmtError ℕ
lists = record {
  Array = List ℕ;
  new_with_bit_width = λ w. [];
  load = load_list;
  flush = flush_list;
  set = set_list;
  get = λ i a s. ok (get_elem? a i);
  count = length;
  for_each = visit_list;
  Has = Held;
  Stored = At;
  new-Has = λ w s. refl;
  load-Has = load_list-Held;
  flush-Stored = flush_list-At;
  set-Has = set_list-Held;
  get-Has = get_list-Held;
  count-Has = count_list;
  for_each-Has = visit_list-Held;
  Stored-Extends = λ c f s s' x h. (h.0, x c h.0 h.1, h.2);
}

abbrev lists_of : Hamt log_blocks ℕ HamtError ℕ
lists_of = function_maps log_blocks ℕ HamtError ℕ (hamt_other "unsupported")

abbrev pub errors : HamtErrorFrom
errors = record { from_any = hamt_dynamic; from_str = λ s. hamt_dynamic (message s) }

-- under the key 1 the list 7, and then 7, 8
abbrev roots : ℕ → Contents ℕ
roots c = put_entry (λ k. none) (1 ∷ []) (some c)

abbrev one_list : Multimap errors lists_of lists
one_list = record { map = roots 0; inner_bitwidth = 3 }

abbrev seven_under_one : Contents (List ℕ)
seven_under_one = put_entry (λ k. none) (1 ∷ []) (some (7 ∷ []))

abbrev no_lists : Multimap errors lists_of lists
no_lists = record { map = λ k. none; inner_bitwidth = 3 }

no_lists-Represents : Represents errors lists_of lists no_lists (λ k. none) []
no_lists-Represents = (3, λ k. none, refl, λ k. tt)

one_list-Represents : Represents errors lists_of lists one_list seven_under_one ((7 ∷ []) ∷ [])
unfolding add get save
one_list-Represents =
    add_appends errors lists_of lists (1 ∷ []) 7 no_lists one_list [] ((7 ∷ []) ∷ []) (λ k. none)
      no_lists-Represents refl

abbrev two_values : Multimap errors lists_of lists
two_values = record { map = put_entry (roots 0) (1 ∷ []) (some 1); inner_bitwidth = 3 }

add_appends_example :
    Represents errors lists_of lists two_values
      (put_entry seven_under_one (1 ∷ []) (some (7 ∷ 8 ∷ [])))
      ((7 ∷ []) ∷ (7 ∷ 8 ∷ []) ∷ [])
unfolding add get save put_entry same_list
add_appends_example =
    add_appends errors lists_of lists (1 ∷ []) 8 one_list two_values ((7 ∷ []) ∷ [])
      ((7 ∷ []) ∷ (7 ∷ 8 ∷ []) ∷ []) seven_under_one one_list-Represents refl

abbrev list_removed : Multimap errors lists_of lists
list_removed = record { map = put_entry (roots 0) (1 ∷ []) none; inner_bitwidth = 3 }

remove_all_removes_example :
    Represents errors lists_of lists list_removed
      (put_entry seven_under_one (1 ∷ []) none)
      ((7 ∷ []) ∷ [])
    × (seven_under_one (1 ∷ []) ≢ none)
unfolding remove_all put_entry same_list
remove_all_removes_example =
    remove_all_removes errors lists_of lists (1 ∷ []) one_list list_removed ((7 ∷ []) ∷ [])
      seven_under_one one_list-Represents refl

-- a closure that adds the indices and the values up
abbrev sum_up : ℕ → ℕ → ℕ → Result (Unit {0}) AnyError × ℕ
sum_up i v e = (ok tt, e + (i + v))

for_each_in_order_example : visit sum_up 0 (7 ∷ []) 10 ≡ (ok tt, 17)
unfolding for_each get put_entry same_list visit
for_each_in_order_example =
    for_each_in_order errors lists_of lists (1 ∷ []) sum_up one_list ((7 ∷ []) ∷ []) seven_under_one
      10 17 one_list-Represents refl
