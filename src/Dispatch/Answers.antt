-- ===== src/Dispatch/Answers.antt =====
-- What a dispatched call that succeeds says of the check of internal methods, the table, the arguments
-- and the method.
use fvm_utils.Base.{
  ℕ, ◌≡◌, refl, ◌∙◌, Option, none, some, List, ◌∷◌, ◌⊎◌, Bool-cases, nat_eq, nat_eq_iff, String,
  Result, ok, Result-cases, Option-cases, inl, inr, arith,
}
use fvm_utils.Platform.{Platform, IpldBlock}
use fvm_utils.Action.{done, Action, lift, ◌>>=◌, >>=-parts}
use fvm_utils.Runtime.{Runtime}
use fvm_utils.Shared.{restrict_internal_api}
use fvm_utils.Dispatch.{
  unit, call_without, call_with, maybe_into_block, Method, find_method, run_method, invoke_method,
}

-- A method that is found is the first of the table or is found in the rest.
pub find_method_cases {ℓ} :
    {M : Type ℓ} (m n : ℕ) (f g : M) (table : List (ℕ × M))
    → find_method ((m, f) ∷ table) n ≡ some g
    → ((n ≡ m) × (f ≡ g)) ⊎ (find_method table n ≡ some g)
unfolding find_method
find_method_cases m n f g table h = elim (Bool-cases (nat_eq m n)) [
  | inl same ↦ inl (omega (arith, (nat_eq_iff m n).0 same), ground arith)
  | inr other ↦ inr (ground arith)
]

module _ ⦃p : Platform⦄ {S : Type 0} where
  -- A method without an argument and without a result that was called with success was given no
  -- block, and there is none for its result.
  pub call_without_done :
      (f : Action S (Unit {0})) (args ret : Option IpldBlock) (s s' : S)
      → call_without unit f args s ≡ (done ret, s')
      → (args ≡ none) × (ret ≡ none) × (f s ≡ (done tt, s'))
  unfolding call_without maybe_into_block
  call_without_done f none ret s s' h =
      let (u, s1, ran, rest) = >>=-parts f _ s s' ret h in
      (refl, ground arith, ran ∙ (ground arith))
  call_without_done f (some b) ret s s' h = absurd (ground arith)

  -- A method with an argument and without a result that was called with success was given a block that
  -- decodes, and there is none for its result.
  pub call_with_done :
      {A : Type 0} (decode : IpldBlock → Result A String) (f : A → Action S (Unit {0}))
      (args ret : Option IpldBlock) (s s' : S)
      → call_with decode unit f args s ≡ (done ret, s')
      → (b : IpldBlock) × (a : A) × (args ≡ some b)
        × (decode b ≡ ok a)
        × (ret ≡ none)
        × (f a s ≡ (done tt, s'))
  unfolding call_with maybe_into_block
  call_with_done decode f none ret s s' h = absurd (ground arith)
  call_with_done decode f (some b) ret s s' h = elim (Result-cases (decode b)) [
    | inr (e, bad) ↦ absurd (ground arith)
    | inl (a, read) ↦
        let whole : (f a >>= λ v. lift (maybe_into_block unit v)) s ≡ (done ret, s') =
          ground (arith, read, h) in
        let (u, s1, ran, rest) =
          >>=-parts (f a) (λ v. lift (maybe_into_block unit v)) s s' ret whole in
        (b, a, refl, read, ground arith, ran ∙ (ground arith))
  ]

  -- An invocation that succeeds has passed the check of internal methods, and its number is that of a
  -- method of the table, which has succeeded.
  pub invoke_method_done :
      (rt : Runtime S) (table : List (ℕ × Method S)) (n : ℕ) (args ret : Option IpldBlock)
      (s s' : S)
      → invoke_method rt table n args s ≡ (done ret, s')
      → (s1 : S) × (f : Method S) × (restrict_internal_api rt n s ≡ (done tt, s1))
        × (find_method table n ≡ some f)
        × (f args s1 ≡ (done ret, s'))
  unfolding invoke_method run_method
  invoke_method_done rt table n args ret s s' h =
      let (u, s1, passed, rest) = >>=-parts (restrict_internal_api rt n) _ s s' ret h in
      elim (Option-cases (find_method table n)) [
        | inl missing ↦ absurd (ground arith)
        | inr (f, found) ↦ (s1, f, passed, found, ground arith)
      ]
