-- ===== src/Dispatch.antt =====
-- runtime/src/dispatch.rs: from an encoded call to a method of an actor and back.
pub mod Laws
pub mod SelfTests
pub mod Answers
use fvm_utils.Base.{
  ℕ, Bool, Option, none, some, List, [], ◌∷◌, String, Result, ok, err, concat, map_err, nat_eq,
  if◌then◌else◌,
}
use fvm_utils.Platform.{Platform, IpldBlock, platform_codes}
use fvm_utils.ActorError
use fvm_utils.ActorError.{ActorError}
use fvm_utils.Action.{Outcome, done, fail, panic, Action, pure, raise, lift, resume, ◌>>=◌, ◌>>◌}
use fvm_utils.Runtime.{Runtime}
use fvm_utils.Shared.{restrict_internal_api}

-- How the return type of a method is encoded: `()` is recognised by `cast!`, any other type goes
-- through `IpldBlock::serialize_cbor`, whose error is its text.
pub data Encoding (R : Type 0) : Type 0 where
  unit : Encoding R
  serialize_cbor : (R → Result (Option IpldBlock) String) → Encoding R

unfoldable pub maybe_into_block :
    ⦃p : Platform⦄ {R : Type 0} → Encoding R → R → Result (Option IpldBlock) ActorError
maybe_into_block unit v = ok none
maybe_into_block (serialize_cbor f) v = map_err ActorError.from_encoding_error (f v)

-- `FromPrimitive::from_u64` and the match on the method: the table pairs the numbers of the
-- enumeration with what they are dispatched to
unfoldable pub find_method {ℓ} : {M : Type ℓ} → List (ℕ × M) → ℕ → Option M
find_method [] n = none
find_method ((m, f) ∷ table) n = if nat_eq m n then some f else find_method table n

-- a method of an actor, as it is dispatched to
abbrev pub Method : Type 0 → Type 0
Method S = Option IpldBlock → Action S (Option IpldBlock)

-- `Dispatcher`, without the marker of the type of the arguments
pub record Dispatcher (F : Type 0) : Type 0 where
  pub func : F

-- the trait `Dispatch` of a dispatcher
pub record Dispatch (S F : Type 0) : Type 0 where
  pub call : Dispatcher F → Option IpldBlock → Action S (Option IpldBlock)

module _ ⦃p : Platform⦄ {S : Type 0} where
  -- `Dispatch for Dispatcher<F, ()>`
  unfoldable pub call_without :
      {R : Type 0} → Encoding R → Action S R → Option IpldBlock → Action S (Option IpldBlock)
  unfolding maybe_into_block
  call_without encoding func none = do v ← func; lift (maybe_into_block encoding v)
  call_without encoding func (some _) =
      raise (ActorError.illegal_argument "method expects no arguments")

  -- `Dispatch for Dispatcher<F, (A,)>`; `decode` is `IpldBlock::deserialize` at `A`
  unfoldable pub call_with :
      {A R : Type 0}
      → (IpldBlock → Result A String)
      → Encoding R
      → (A → Action S R)
      → Option IpldBlock
      → Action S (Option IpldBlock)
  unfolding maybe_into_block
  call_with decode encoding func none =
      raise (ActorError.illegal_argument "method expects arguments")
  call_with decode encoding func (some arg) = do
    a ← lift (map_err ActorError.from_encoding_error (decode arg))
    v ← func a
    lift (maybe_into_block encoding v)

  -- the implementations for methods without an argument and with one
  abbrev pub no_argument : {R : Type 0} → Encoding R → Dispatch S (Action S R)
  no_argument encoding = record { call = λ d args. call_without encoding d.func args }

  abbrev pub one_argument :
      {A R : Type 0} → (IpldBlock → Result A String) → Encoding R → Dispatch S (A → Action S R)
  one_argument decode encoding = record { call = λ d args. call_with decode encoding d.func args }

  unfoldable pub dispatch :
      {F : Type 0} → Dispatch S F → F → Option IpldBlock → Action S (Option IpldBlock)
  dispatch d func arg = d.call (record { func = func }) arg

  unfoldable pub run_method : Option (Method S) → ℕ → Option IpldBlock → Action S (Option IpldBlock)
  run_method (some f) n args = f args
  run_method none n args =
      raise (ActorError.unhandled_message (concat "invalid method: " (p.show_number n)))

  -- the `invoke_method` that `actor_dispatch!` writes
  unfoldable pub invoke_method :
      Runtime S → List (ℕ × Method S) → ℕ → Option IpldBlock → Action S (Option IpldBlock)
  unfolding run_method
  invoke_method rt table method args =
      restrict_internal_api rt method >>= λ _. run_method (find_method table method) method args
