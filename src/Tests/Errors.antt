-- ===== src/Tests/Errors.antt =====
-- The theorems on the errors, the accumulator, the dispatch and the resolution at concrete inputs.
use fvm_utils.Base.{
  arith, ◌≡◌, refl, List, prefixed, true, false, err, Option, none, some, [], ◌∷◌, String, ok,
  nat_eq, if◌then◌else◌,
}
use fvm_utils.Platform.{platform_codes}
use fvm_utils.ActorError.{ActorError}
use fvm_utils.Downcast.{
  AnyError, actor_error, amt_error, hamt_error, amt_dynamic, hamt_dynamic, message, Texts,
  downcast_util,
}
use fvm_utils.Downcast.Laws.{root, root_amt, root_hamt, classify, downcast_util-root}
use fvm_utils.Accumulator.{Heap, MessageAccumulator, messages}
use fvm_utils.Accumulator.Reports.{
  Report, adds, requires, requires_no_error, derived, said, said_all, report_all, reports_logged,
}
use fvm_utils.Fvm.Instance.{FvmRuntime}
use fvm_utils.Tests.Concrete.{ToyAddress, id_address, toy, ToyKernel}

abbrev an_error : ActorError
an_error = record { exit_code = 17; msg = "gone"; exit_data = none }

-- an actor error under two layers
abbrev layered : AnyError
layered = amt_error (amt_dynamic (hamt_error (hamt_dynamic (actor_error an_error))))

abbrev texts : Texts
texts = record {
  show = λ e. elim e as (λ _. String) [ message s ↦ s | _ ↦ "error" ];
  show-message = λ s. refl;
}

downcast_util-root_example : downcast_util layered ≡ ok an_error
unfolding root root_amt root_hamt classify
downcast_util-root_example = downcast_util-root layered

abbrev heap : Heap
heap = record { fresh = 2; cell = λ j. if nat_eq j 1 then "b" ∷ [] else [] }

abbrev first_acc : MessageAccumulator
first_acc = record { msgs = 0; prefix = "x: " }

abbrev second_acc : MessageAccumulator
second_acc = record { msgs = 1; prefix = "" }

-- what is found in the collection: a message behind two prefixes, and one of a failed requirement
abbrev some_reports : List (List String × Report String)
some_reports =
    ("p: " ∷ "q: " ∷ [], adds "a")
    ∷ ([], requires true "b")
    ∷ ("p: " ∷ [], requires false "c")
    ∷ ([], requires_no_error (err "e") "d")
    ∷ []

abbrev found : List String
found = "x: p: q: a" ∷ "x: p: c" ∷ "x: d: e" ∷ []

reports_logged_example :
    let h' = report_all (λ e. e) first_acc some_reports heap in
    (messages first_acc h' ≡ found)
    × (messages (derived first_acc ("r" ∷ [])) h' ≡ messages first_acc h')
    × (messages second_acc h' ≡ "b" ∷ [])
unfolding messages said_all said prefixed
reports_logged_example =
    reports_logged (λ e. e) first_acc second_acc ("r" ∷ []) some_reports heap (omega arith)

-- `resolve_address` of the small kernel knows every address
abbrev knows : FvmRuntime ToyKernel → ToyAddress → Option ToyAddress
knows rt a = some (id_address 5)
