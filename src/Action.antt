-- ===== src/Action.antt =====
-- A call of an actor method or of a runtime operation: it returns a value, returns an actor error,
-- or panics, and the state comes back in each case, since what was written stays written.
use fvm_utils.Base.{◌≡◌, refl, ap, Bool, true, false, Option, none, some, String, Result, ok, err}
use fvm_utils.ActorError.{ActorError}

pub data Outcome {ℓ} (A : Type ℓ) : Type ℓ where
  done : A → Outcome A
  fail : ActorError → Outcome A
  panic : String → Outcome A

abbrev pub Action {ℓ} : Type 0 → Type ℓ → Type ℓ
Action S A = S → Outcome A × S

module _ {ℓ} {S : Type 0} {A : Type ℓ} where
  abbrev pub pure : A → Action S A
  pure a s = (done a, s)

  abbrev pub raise : ActorError → Action S A
  raise e s = (fail e, s)

  abbrev pub abort : String → Action S A
  abort m s = (panic m, s)

  -- a query of the state
  abbrev pub gets : (S → A) → Action S A
  gets f s = (done (f s), s)

  -- `?` on a value that is at hand
  abbrev pub lift : Result A ActorError → Action S A
  lift (ok a) = pure a
  lift (err e) = raise e

  -- `expect` and `unwrap`
  abbrev pub expect : Option A → String → Action S A
  expect (some a) m = pure a
  expect none m = abort m

-- `assert!`
abbrev pub assert : {S : Type 0} → Bool → String → Action S (Unit {0})
assert true m s = (done tt, s)
assert false m s = (panic m, s)

-- what follows a step: the rest after a value, and nothing after an error or a panic
abbrev pub resume {ℓ κ} :
    {S : Type 0} {A : Type ℓ} {B : Type κ} → (A → Action S B) → Outcome A × S → Outcome B × S
resume f (done a, s) = f a s
resume f (fail e, s) = (fail e, s)
resume f (panic m, s) = (panic m, s)

infixl 5 ◌>>=◌ ◌>>◌
abbrev pub ◌>>=◌ {ℓ κ} :
    {S : Type 0} {A : Type ℓ} {B : Type κ} → Action S A → (A → Action S B) → Action S B
◌>>=◌ m f s = resume f (m s)

abbrev pub ◌>>◌ {ℓ κ} :
    {S : Type 0} {A : Type ℓ} {B : Type κ} → Action S A → Action S B → Action S B
m >> k = m >>= λ _. k

-- A step that succeeds hands its value and its state to the rest.
pub >>=-done {ℓ κ} :
    {S : Type 0} {A : Type ℓ} {B : Type κ} (m : Action S A) (f : A → Action S B) {s s' : S} {a : A}
    → m s ≡ (done a, s')
    → (m >>= f) s ≡ f a s'
>>=-done m f e = ap (resume f) e

resume_parts {ℓ κ} :
    {S : Type 0} {A : Type ℓ} {B : Type κ} (f : A → Action S B) (o : Outcome A × S) (b : B) (s' : S)
    → resume f o ≡ (done b, s')
    → (a : A) × (s1 : S) × (o ≡ (done a, s1)) × (f a s1 ≡ (done b, s'))
resume_parts f (done a, s1) b s' h = (a, s1, refl, h)
resume_parts f (fail e, s1) b s' h = cc h
resume_parts f (panic m, s1) b s' h = cc h

-- Where a call succeeds, so do its first step and the rest after it.
pub >>=-parts {ℓ κ} :
    {S : Type 0} {A : Type ℓ} {B : Type κ} (m : Action S A) (f : A → Action S B) (s s' : S) (b : B)
    → (m >>= f) s ≡ (done b, s')
    → (a : A) × (s1 : S) × (m s ≡ (done a, s1)) × (f a s1 ≡ (done b, s'))
>>=-parts m f s s' b h = resume_parts f (m s) b s' h

-- A step that fails ends the call with its error.
pub >>=-fail {ℓ κ} :
    {S : Type 0} {A : Type ℓ} {B : Type κ} (m : Action S A) (f : A → Action S B) {s s' : S}
    → {e : ActorError} → m s ≡ (fail e, s')
    → (m >>= f) s ≡ (fail e, s')
>>=-fail m f e = ap (resume f) e

-- `map_err` on the result of a call
abbrev pub catch {ℓ} :
    {S : Type 0} {A : Type ℓ} → (ActorError → ActorError) → Action S A → Action S A
catch f m s = let (r, s') = m s in elim r [ fail e ↦ (fail (f e), s') | other ↦ (other, s') ]

-- a branch of which each side is a call
abbrev pub choose {ℓ} : {S : Type 0} {A : Type ℓ} → Bool → Action S A → Action S A → Action S A
choose true m k s = m s
choose false m k s = k s
