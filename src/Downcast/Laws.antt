-- ===== src/Downcast/Laws.antt =====
-- What the downcast of a dynamic error gives, in terms of the error at the root of its layers.
use fvm_utils.Base.{
  ℕ, zero, suc, ◌<◌, ◌≡◌, refl, ap, ◌∙◌, Option, some, String, ok, err, prefixed, arith,
  Result-cases, inl, inr,
}
use fvm_utils.Platform.{ExitCodes}
use fvm_utils.ActorError.{ActorError, unchecked, wrap}
use fvm_utils.Downcast.{
  AnyError, AmtError, HamtError, actor_error, encoding_error, amt_error, hamt_error, message,
  amt_dynamic, amt_cid_not_found, amt_other, hamt_dynamic, hamt_cid_not_found, hamt_other, Texts,
  Answer, depth, hamt_block, or_else, downcast_fuel, downcast_util, downcast_default, downcast_wrap,
  amt_downcast_default, hamt_downcast_default,
}

-- The error under all the `Dynamic` layers.
unfoldable mutual
  pub root : AnyError → AnyError
  root (actor_error a) = actor_error a
  root (encoding_error s) = encoding_error s
  root (amt_error x) = root_amt x
  root (hamt_error x) = root_hamt x
  root (message s) = message s

  pub root_amt : AmtError → AnyError
  root_amt (amt_dynamic e) = root e
  root_amt (amt_cid_not_found s) = amt_error (amt_cid_not_found s)
  root_amt (amt_other s) = amt_error (amt_other s)

  pub root_hamt : HamtError → AnyError
  root_hamt (hamt_dynamic e) = root e
  root_hamt (hamt_cid_not_found s) = hamt_error (hamt_cid_not_found s)
  root_hamt (hamt_other s) = hamt_error (hamt_other s)

module _ ⦃c : ExitCodes⦄ where
  -- An actor error is taken as it is, an encoding error becomes one, and nothing else does.
  unfoldable pub classify : AnyError → Answer
  classify (actor_error a) = ok a
  classify (encoding_error s) = ok (unchecked c.usr_serialization s)
  classify e = err e

  -- The block on HAMT errors lets a root pass.
  mutual
    unfolding root root_amt root_hamt classify hamt_block

    settled :
        (rec : AnyError → Option Answer) (e : AnyError)
        → or_else (some (classify (root e))) (hamt_block rec) ≡ some (classify (root e))
    settled rec (actor_error a) = refl
    settled rec (encoding_error s) = refl
    settled rec (amt_error x) = settled_amt rec x
    settled rec (hamt_error x) = settled_hamt rec x
    settled rec (message s) = refl

    settled_amt :
        (rec : AnyError → Option Answer) (x : AmtError)
        → or_else (some (classify (root_amt x))) (hamt_block rec) ≡ some (classify (root_amt x))
    settled_amt rec (amt_dynamic e) = settled rec e
    settled_amt rec (amt_cid_not_found s) = refl
    settled_amt rec (amt_other s) = refl

    settled_hamt :
        (rec : AnyError → Option Answer) (x : HamtError)
        → or_else (some (classify (root_hamt x))) (hamt_block rec) ≡ some (classify (root_hamt x))
    settled_hamt rec (hamt_dynamic e) = settled rec e
    settled_hamt rec (hamt_cid_not_found s) = refl
    settled_hamt rec (hamt_other s) = refl

  -- With more fuel than there are layers the downcast ends, with the class of the root error.
  pub downcast_fuel_enough :
      (f : ℕ) (e : AnyError) → depth e < f → downcast_fuel f e ≡ some (classify (root e))
  unfolding downcast_fuel depth root classify
  downcast_fuel_enough zero e h = elim h [ ]
  downcast_fuel_enough (suc f) (actor_error a) h = refl
  downcast_fuel_enough (suc f) (encoding_error s) h = refl
  downcast_fuel_enough (suc f) (amt_error (amt_dynamic e)) h =
      rw (downcast_fuel_enough f e (omega arith)) (settled (downcast_fuel f) e)
  downcast_fuel_enough (suc f) (amt_error (amt_cid_not_found s)) h = refl
  downcast_fuel_enough (suc f) (amt_error (amt_other s)) h = refl
  downcast_fuel_enough (suc f) (hamt_error (hamt_dynamic e)) h =
      downcast_fuel_enough f e (omega arith)
  downcast_fuel_enough (suc f) (hamt_error (hamt_cid_not_found s)) h = refl
  downcast_fuel_enough (suc f) (hamt_error (hamt_other s)) h = refl
  downcast_fuel_enough (suc f) (message s) h = refl

  -- `downcast_util` finds an actor or encoding error under any number of `Dynamic` layers, and
  -- otherwise hands back the error at the root of the layers.
  pub downcast_util-root : (e : AnyError) → downcast_util e ≡ classify (root e)
  unfolding downcast_util
  downcast_util-root e = rw (downcast_fuel_enough (suc (depth e)) e (omega arith), downcast_util)

  downcast_util-actor : (a : ActorError) → downcast_util (actor_error a) ≡ ok a
  unfolding downcast_util downcast_fuel
  downcast_util-actor a = refl

  downcast_util-message : (s : String) → downcast_util (message s) ≡ err (message s)
  unfolding downcast_util downcast_fuel depth
  downcast_util-message s = refl

  -- Where the root is not of the two kinds, what comes back is never a `Dynamic` layer: the
  -- wrapping is lost.
  pub downcast_util-strips :
      (s : String) (inner : AnyError)
      → root inner ≡ message s
      → (downcast_util (amt_error (amt_dynamic inner)) ≡ err (message s))
        × (downcast_util (hamt_error (hamt_dynamic inner)) ≡ err (message s))
  unfolding root classify
  downcast_util-strips s inner h =
      (downcast_util-root _ ∙ ap classify h, downcast_util-root _ ∙ ap classify h)

  module _ (t : Texts) where
    -- An actor error keeps its exit code and data through `downcast_default`, whatever wraps it and
    -- whatever the default code is: only the message gets the prefix. So from all three types.
    pub downcast_default_keeps_code :
        (e : AnyError) (a : ActorError) (code : ℕ) (m : String)
        → root e ≡ actor_error a
        → (downcast_default t e code m ≡ wrap m a)
          × (amt_downcast_default t (amt_dynamic e) code m ≡ wrap m a)
          × (hamt_downcast_default t (hamt_dynamic e) code m ≡ wrap m a)
    unfolding downcast_default amt_downcast_default hamt_downcast_default classify
    downcast_default_keeps_code e a code m h =
        let step = downcast_util-root e ∙ ap classify h in
        (rw (step, downcast_default), rw (step, downcast_default), rw (step, downcast_default))

    -- Wrapping first and downcasting later is downcasting first and then wrapping the actor error:
    -- the exit code that the default gives does not depend on the order.
    pub downcast_default-downcast_wrap :
        (e : AnyError) (code : ℕ) (inner outer : String)
        → downcast_default t (downcast_wrap t e inner) code outer
          ≡ wrap outer (downcast_default t e code inner)
    unfolding downcast_default downcast_wrap wrap unchecked
    downcast_default-downcast_wrap e code inner outer = elim (Result-cases (downcast_util e)) [
      | inl (a, found) ↦
          rw (found, downcast_default, downcast_wrap, downcast_util-actor (wrap inner a))
      | inr (other, lost) ↦
          rw (lost, downcast_default, downcast_wrap)
            (rw (downcast_util-message (prefixed inner (t.show other)), t.show-message))
    ]
