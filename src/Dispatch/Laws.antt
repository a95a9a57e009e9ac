-- ===== src/Dispatch/Laws.antt =====
-- Properties of the dispatch of methods.
use fvm_utils.Base.{ℕ, ◌≡◌, refl, Option, none, some, List, String, Result, ok, err, arith}
use fvm_utils.Platform.{Platform, IpldBlock, platform_codes}
use fvm_utils.ActorError
use fvm_utils.ActorError.{ActorError}
use fvm_utils.Action.{Outcome, done, fail, Action}
use fvm_utils.Runtime.{Runtime}
use fvm_utils.Shared.{restrict_internal_api}
use fvm_utils.Dispatch.{
  Encoding, unit, serialize_cbor, call_without, call_with, maybe_into_block, Method, find_method,
  run_method, invoke_method,
}

module _ ⦃p : Platform⦄ {S : Type 0} where
  -- An error with this code before the method has run: the state is as it was.
  abbrev pub Rejected : {A : Type 0} → ℕ → S → Outcome A × S → Type 0
  Rejected code s (fail e, s') = (e.exit_code ≡ code) × (s' ≡ s)
  Rejected code s (other, s') = ⊥

  -- A method is run only with arguments of its shape: an argument too many, a missing one and one
  -- that does not decode are each refused, with the code of an illegal argument or of a
  -- serialization error, and the method has not run.
  pub call_shape :
      {A R : Type 0} (decode : IpldBlock → Result A String) (encoding : Encoding R)
      → (f : Action S R) (g : A → Action S R) (b : IpldBlock) (m : String) (s : S)
      → decode b ≡ err m
      → Rejected p.codes.usr_illegal_argument s (call_without encoding f (some b) s)
        × Rejected p.codes.usr_illegal_argument s (call_with decode encoding g none s)
        × Rejected p.codes.usr_serialization s (call_with decode encoding g (some b) s)
  unfolding call_without call_with ActorError.illegal_argument ActorError.from_encoding_error
  call_shape decode encoding f g b m s bad = ((refl, refl), (refl, refl), ground (arith, bad))

  -- A method that returns a value after decoding its argument yields the encoding of that value, no
  -- block where the type is the unit type, and leaves its own state.
  pub call_with_value :
      {A R : Type 0} (decode : IpldBlock → Result A String)
      → (encode : R → Result (Option IpldBlock) String) (g : A → Action S R) (b : IpldBlock)
      → (a : A) (v : R) (block : Option IpldBlock) (s s' : S) → decode b ≡ ok a
      → g a s ≡ (done v, s')
      → encode v ≡ ok block
      → (call_with decode (serialize_cbor encode) g (some b) s ≡ (done block, s'))
        × (call_with decode unit g (some b) s ≡ (done none, s'))
  unfolding call_with maybe_into_block
  call_with_value decode encode g b a v block s s' read ran wrote =
      (ground (arith, read, ran, wrote), ground (arith, read, ran, wrote))

  -- A caller that the check of internal methods refuses gets that error for every number, known or
  -- not. Where the check passes, a number of the table reaches its method with the arguments, and any
  -- other gets the error of an unhandled message with nothing changed.
  pub invoke_method_order :
      (rt : Runtime S) (table : List (ℕ × Method S)) (n known other : ℕ) (args : Option IpldBlock)
      → (s s' t : S) (e : ActorError) (f : Method S) → restrict_internal_api rt n s ≡ (fail e, s')
      → restrict_internal_api rt known t ≡ (done tt, t)
      → restrict_internal_api rt other t ≡ (done tt, t)
      → find_method table known ≡ some f
      → find_method table other ≡ none
      → (invoke_method rt table n args s ≡ (fail e, s'))
        × (invoke_method rt table known args t ≡ f args t)
        × Rejected p.codes.usr_unhandled_message t (invoke_method rt table other args t)
  unfolding invoke_method ActorError.unhandled_message run_method
  invoke_method_order rt table n known other args s s' t e f refused passed allowed found missing =
      (ground (arith, refused), ground (arith, passed, found), ground (arith, allowed, missing))
