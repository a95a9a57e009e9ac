-- ===== src/Downcast.antt =====
-- runtime/src/util/downcast.rs: dynamic errors, and how they are turned into actor errors. A dynamic
-- error is the tree of what the error types wrap; the text of an error is a parameter.
pub mod Laws
use fvm_utils.Base.{ℕ, zero, suc, ◌≡◌, Option, none, some, String, Result, ok, err, prefixed}
use fvm_utils.Platform.{ExitCodes}
use fvm_utils.ActorError.{ActorError, unchecked, wrap}

-- `anyhow::Error`: an actor error, an encoding error by its text, an AMT or HAMT error, or a text
mutual
  pub data AnyError : Type 0 where
    actor_error : ActorError → AnyError
    encoding_error : String → AnyError
    amt_error : AmtError → AnyError
    hamt_error : HamtError → AnyError
    message : String → AnyError

  pub data AmtError : Type 0 where
    amt_dynamic : AnyError → AmtError
    amt_cid_not_found : String → AmtError
    amt_other : String → AmtError

  pub data HamtError : Type 0 where
    hamt_dynamic : AnyError → HamtError
    hamt_cid_not_found : String → HamtError
    hamt_other : String → HamtError

-- `Display` of the dynamic errors; a text is shown as it is
pub record Texts : Type 0 where
  pub show : AnyError → String
  pub show-message : (s : String) → show (message s) ≡ s

abbrev pub Answer : Type 0
Answer = Result ActorError AnyError

-- The number of `Dynamic` layers round an error.
unfoldable mutual
  pub depth : AnyError → ℕ
  depth (actor_error a) = 0
  depth (encoding_error s) = 0
  depth (amt_error x) = depth_amt x
  depth (hamt_error x) = depth_hamt x
  depth (message s) = 0

  pub depth_amt : AmtError → ℕ
  depth_amt (amt_dynamic e) = suc (depth e)
  depth_amt (amt_cid_not_found s) = 0
  depth_amt (amt_other s) = 0

  pub depth_hamt : HamtError → ℕ
  depth_hamt (hamt_dynamic e) = suc (depth e)
  depth_hamt (hamt_cid_not_found s) = 0
  depth_hamt (hamt_other s) = 0

-- The blocks of `downcast_util` on `AmtError` and on `HamtError`; `rec` is the recursive call, an
-- error is what the function goes on with.
unfoldable pub amt_block : (AnyError → Option Answer) → AnyError → Option Answer
amt_block rec (amt_error (amt_dynamic de)) = rec de
amt_block rec e = some (err e)

unfoldable pub hamt_block : (AnyError → Option Answer) → AnyError → Option Answer
hamt_block rec (hamt_error (hamt_dynamic de)) = rec de
hamt_block rec e = some (err e)

abbrev pub or_else : Option Answer → (AnyError → Option Answer) → Option Answer
or_else none k = none
or_else (some (ok a)) k = some (ok a)
or_else (some (err e)) k = k e

module _ ⦃c : ExitCodes⦄ where
  unfoldable pub downcast_body : (AnyError → Option Answer) → AnyError → Option Answer
  unfolding amt_block hamt_block
  downcast_body rec (actor_error a) = some (ok a)
  downcast_body rec (encoding_error s) = some (ok (unchecked c.usr_serialization s))
  downcast_body rec e = or_else (amt_block rec e) (hamt_block rec)

  -- `none` where the fuel runs out
  unfoldable pub downcast_fuel : ℕ → AnyError → Option Answer
  unfolding downcast_body
  downcast_fuel zero e = none
  downcast_fuel (suc f) e = downcast_body (downcast_fuel f) e

  -- One more than the layers is enough fuel, so the last case is never taken.
  unfoldable pub downcast_util : AnyError → Answer
  unfolding downcast_fuel depth
  downcast_util e = elim (downcast_fuel (suc (depth e)) e) [ some r ↦ r | none ↦ err e ]

  module _ (t : Texts) where
    unfoldable pub downcast_default : AnyError → ℕ → String → ActorError
    downcast_default e code m = elim (downcast_util e) [
      | ok a ↦ wrap m a
      | err other ↦ unchecked code (prefixed m (t.show other))
    ]

    unfoldable pub downcast_wrap : AnyError → String → AnyError
    downcast_wrap e m = elim (downcast_util e) [
      | ok a ↦ actor_error (wrap m a)
      | err other ↦ message (prefixed m (t.show other))
    ]

    -- `ActorDowncast for AmtError` and `for HamtError`
    unfoldable pub amt_downcast_default : AmtError → ℕ → String → ActorError
    amt_downcast_default (amt_dynamic e) code m = downcast_default e code m
    amt_downcast_default other code m = unchecked code (prefixed m (t.show (amt_error other)))

    unfoldable pub amt_downcast_wrap : AmtError → String → AnyError
    amt_downcast_wrap (amt_dynamic e) m = downcast_wrap e m
    amt_downcast_wrap other m = message (prefixed m (t.show (amt_error other)))

    unfoldable pub hamt_downcast_default : HamtError → ℕ → String → ActorError
    hamt_downcast_default (hamt_dynamic e) code m = downcast_default e code m
    hamt_downcast_default other code m = unchecked code (prefixed m (t.show (hamt_error other)))

    unfoldable pub hamt_downcast_wrap : HamtError → String → AnyError
    hamt_downcast_wrap (hamt_dynamic e) m = downcast_wrap e m
    hamt_downcast_wrap other m = message (prefixed m (t.show (hamt_error other)))
