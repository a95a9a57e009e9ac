-- ===== src/Cell.antt =====
-- What `create`, `state` and `transaction` of the trait `Runtime` promise of the actor's state: a cell
-- that is empty until it is created, and then has a value. An implementation may be that of the FVM or
-- that of the tests.
use fvm_utils.Base.{
  ◌≡◌, refl, ℕ, Option, Option-cases, inl, inr, none, some, List, [], ◌∷◌, Result, ok, err, arith,
  ap, sym, ◌∙◌,
}
use mathlib.Core.Path.{subst}
use fvm_utils.Platform.{ExitCodes}
use fvm_utils.ActorError.{ActorError}
use fvm_utils.Action.{Outcome, done, fail, panic}
use fvm_utils.Runtime.{StateRuntime}

-- an operation on the state; the closure of an update returns a value or an actor error
pub data Op (T R : Type 0) : Type 0 where
  make : T → Op T R
  read : Op T R
  update : (T → Result R ActorError × T) → Op T R

-- an error answers by its exit code
pub data Answer (T R : Type 0) : Type 0 where
  made panicked : Answer T R
  value : T → Answer T R
  result : R → Answer T R
  refused : ℕ → Answer T R

abbrev pub outcome_of : {R : Type 0} → Result R ActorError → Outcome R
outcome_of (ok v) = done v
outcome_of (err e) = fail e

module _ {T R : Type 0} where
  -- what an update with this end comes to: one that fails leaves the value as it was
  abbrev pub after : Result R ActorError × T → T → Answer T R × T
  after (ok v, y) x = (result v, y)
  after (err e, y) x = (refused e.exit_code, x)

  -- The cell: what it answers, and the value that it then has. A second creation is an illegal state; of a
  -- reading and of an update of an empty cell nothing is promised.
  unfoldable pub step : ⦃c : ExitCodes⦄ → Op T R → Option T → Option (Answer T R × T)
  step (make x) none = some (made, x)
  step ⦃c⦄ (make x) (some y) = some (refused c.usr_illegal_state, y)
  step read none = none
  step read (some x) = some (value x, x)
  step (update f) none = none
  step (update f) (some x) = some (after (f x) x)

  -- the answers and the end of a sequence, where each of its operations has a promised answer
  unfoldable pub run :
      ⦃c : ExitCodes⦄ → List (Op T R) → Option T → Option (List (Answer T R) × Option T)
  unfolding step
  run [] v = some ([], v)
  run (op ∷ ops) v = elim (step op v) [
    | none ↦ none
    | some (a, x) ↦ elim (run ops (some x)) [
      | none ↦ none
      | some (answers, end) ↦ some (a ∷ answers, end)
    ]
  ]

  abbrev pub answer_of : {A S : Type 0} → (A → Answer T R) → Outcome A × S → Answer T R × S
  answer_of f (done a, s) = (f a, s)
  answer_of f (fail e, s) = (refused e.exit_code, s)
  answer_of f (panic m, s) = (panicked, s)

  -- the answers from here on; a panic ends the sequence
  abbrev pub then_rest :
      {S : Type 0} → Answer T R × S → List (Answer T R) × S → List (Answer T R) × S
  then_rest (panicked, s) rest = (panicked ∷ [], s)
  then_rest (made, s) rest = (made ∷ rest.0, rest.1)
  then_rest (value x, s) rest = (value x ∷ rest.0, rest.1)
  then_rest (result v, s) rest = (result v ∷ rest.0, rest.1)
  then_rest (refused code, s) rest = (refused code ∷ rest.0, rest.1)

  abbrev IsPanic : Answer T R → Type 0
  IsPanic panicked = Unit
  IsPanic other = ⊥

  then_rest-calm :
      {S : Type 0} (a : Answer T R) (s : S) (rest : List (Answer T R) × S)
      → ¬ (IsPanic a)
      → then_rest (a, s) rest ≡ (a ∷ rest.0, rest.1)
  then_rest-calm panicked s rest h = absurd (h tt)
  then_rest-calm made s rest h = refl
  then_rest-calm (value x) s rest h = refl
  then_rest-calm (result v) s rest h = refl
  then_rest-calm (refused code) s rest h = refl

  after-calm : (o : Result R ActorError × T) (x : T) → ¬ (IsPanic (after o x).0)
  after-calm (ok v, y) x h = h
  after-calm (err e, y) x h = h

  step-calm :
      ⦃c : ExitCodes⦄ (op : Op T R) (v : Option T) (a : Answer T R) (x : T)
      → step op v ≡ some (a, x)
      → ¬ (IsPanic a)
  unfolding step
  step-calm (make y) none a x e h = ground (arith, e, h)
  step-calm (make y) (some z) a x e h = ground (arith, e, h)
  step-calm read none a x e h = ground (arith, e)
  step-calm read (some y) a x e h = ground (arith, e, h)
  step-calm (update f) none a x e h = ground (arith, e)
  step-calm (update f) (some y) a x e h =
      let same : a ≡ (after (f y) y).0 = ground (arith, e) in after-calm (f y) y (rw (← same) h)

  module _ {S : Type 0} (states : StateRuntime S T) where
    -- the same operation by an implementation
    unfoldable pub perform : Op T R → S → Answer T R × S
    perform (make x) s = answer_of (λ u. made) (states.create x s)
    perform read s = answer_of value (states.state s)
    perform (update f) s =
        answer_of result
          (states.transaction (λ q. let (r, y) = f q.0 in (outcome_of r, (y, q.1))) s)

    pub perform_all : List (Op T R) → S → List (Answer T R) × S
    perform_all [] s = ([], s)
    perform_all (op ∷ ops) s =
        let (a, s') = perform op s in let rest = perform_all ops s' in then_rest (a, s') rest

-- what an operation that answered in this way keeps of a promise
abbrev pub Kept :
    {T R S : Type 0} → (Option T → S → Type 0) → Option (Answer T R × T) → Answer T R × S → Type 0
Kept View none q = Unit
Kept View (some (a, x)) q = (q.0 ≡ a) × View (some x) q.1

-- `View v s` says that `s` stands for the cell `v`: where the cell promises an answer, the operation has that
-- answer, for updates with results of the type `R`, and leaves a state that stands for the cell that is
-- left.
abbrev pub Implements :
    ⦃c : ExitCodes⦄ {T S : Type 0}
    → StateRuntime S T
    → (R : Type 0) → (Option T → S → Type 0)
    → Type 0
Implements {T} {S} states R View =
    (op : Op T R) (v : Option T) (s : S) → View v s → Kept View (step op v) (perform states op s)

run_parts :
    ⦃c : ExitCodes⦄ {T R : Type 0} (op : Op T R) (ops : List (Op T R)) (v end : Option T)
    (answers : List (Answer T R))
    → run (op ∷ ops) v ≡ some (answers, end)
    → (a : Answer T R) × (x : T) × (rest : List (Answer T R)) × (step op v ≡ some (a, x))
      × (run ops (some x) ≡ some (rest, end))
      × (answers ≡ a ∷ rest)
unfolding run
run_parts {T = T} {R = R} op ops v end answers h = elim (Option-cases (step op v)) [
  | inl nothing ↦ absurd (ground (arith, nothing, h))
  | inr ((a, x), promised) ↦ elim (Option-cases (run ops (some x))) [
    | inl nothing ↦ absurd (ground (arith, promised, nothing, h))
    | inr ((rest, last), more) ↦
        let found : Option (List (Answer T R) × Option T) = some (a ∷ rest, last) in
        let whole : found ≡ some (answers, end) = ground (arith, promised, more, h) in
        (a, x, rest, promised, ground (arith, more, whole), ground (arith, whole))
  ]
]

module _ ⦃c : ExitCodes⦄ {T R S : Type 0} (states : StateRuntime S T) (View : Option T → S → Type 0)
    (impl : Implements states R View) where
  -- Where the cell promises the answers of a sequence, an implementation gives these answers, and ends with
  -- a state that stands for the cell that is left.
  pub perform_all-run :
      (ops : List (Op T R)) (v end : Option T) (s : S) (answers : List (Answer T R))
      → run ops v ≡ some (answers, end)
      → View v s
      → ((perform_all states ops s).0 ≡ answers) × View end (perform_all states ops s).1
  unfolding perform_all run
  perform_all-run [] v end s answers e h =
      let left : v ≡ end = ground (arith, e) in (ground (arith, e), rw (← left) h)
  perform_all-run (op ∷ ops) v end s answers e h =
      let (a, x, rest, promised, more, whole) = run_parts op ops v end answers e in
      let (same, later) : Kept View (some (a, x)) (perform states op s) =
        subst (λ o. Kept View o (perform states op s)) promised (impl op v s h) in
      let (all, last) = perform_all-run ops (some x) end (perform states op s).1 rest more later in
      let (b, s') = perform states op s in
      let calm : ¬ (IsPanic b) = rw same (step-calm op v a x promised) in
      let whole_run = then_rest-calm b s' (perform_all states ops s') calm in
      (ap (λ q. q.0) whole_run ∙ rw (same, all) (sym whole), rw whole_run last)
