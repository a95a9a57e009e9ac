-- ===== src/TCid/Laws.antt =====
-- What `load` and `modify` do, for every kind of content.
use fvm_utils.Base.{
  ℕ, ◌≡◌, refl, ap, none, some, String, Result, ok, err, arith, Result-cases, inl, inr,
}
use fvm_utils.Platform.{ExitCodes}
use fvm_utils.Downcast.{AnyError, Texts, downcast_default}
use fvm_utils.Downcast.Laws.{root, downcast_default_keeps_code}
use fvm_utils.ActorError.{illegal_state, wrap}
use fvm_utils.Hamt.{Blocks}
use fvm_utils.TCid.{TCid, Names, Content, load, modify, modify_loaded, not_in_database, absence}

module _ ⦃c : ExitCodes⦄ {S : Type 0} {blocks : Blocks S} {Cid : Type 0} (names : Names Cid)
    (content : Content blocks Cid) where
  open content use {Item, View, maybe_load, flush, Has, Stored}

  pub loaded :
      (t : TCid Cid) (s : S) (i : Item)
      → load names content t s ≡ ok i
      → maybe_load t s ≡ ok (some i)
  unfolding load
  loaded t s i h = ground (arith, h)

  modify_parts :
      {R : Type 0} (f : Item → S → Result R AnyError × Item × S) (t t' : TCid Cid) (s s' : S)
      (r : R)
      → modify names content f t s ≡ (ok r, t', s')
      → (i : Item) × (i' : Item) × (i'' : Item) × (s1 : S) × (load names content t s ≡ ok i)
        × (f i s ≡ (ok r, i', s1))
        × (flush i' t s1 ≡ (ok i'', t', s'))
  unfolding modify modify_loaded
  modify_parts f t t' s s' r h = elim (Result-cases (load names content t s)) [
    | inr (e, bad) ↦ absurd (ground arith)
    | inl (i, read) ↦
        let (result, i', s1) = f i s in
        elim (Result-cases result) [
          | inr (e, bad) ↦ absurd (ground arith)
          | inl (x, ran) ↦ elim (Result-cases (flush i' t s1).0) [
            | inr (e, bad) ↦ absurd (ground arith)
            | inl (i'', wrote) ↦ (i, i', i'', s1, read, ground arith, ground arith)
          ]
        ]
  ]

  -- Where a closure turns content that stands for `x` into content that stands for `y`, a `modify`
  -- that succeeds on an identifier under which the store has `x` leaves one under which it has `y`,
  -- and its result is that of the closure on the content that was loaded.
  pub modify-Stored :
      {R : Type 0} (f : Item → S → Result R AnyError × Item × S) (t t' : TCid Cid) (s s' : S)
      (r : R)
      → (x y : View) → ((i i' : Item) (s1 : S) → Has i x s → f i s ≡ (ok r, i', s1) → Has i' y s1)
      → Stored t.cid x s
      → modify names content f t s ≡ (ok r, t', s')
      → Stored t'.cid y s'
        × ((i : Item) × Has i x s × (maybe_load t s ≡ ok (some i)) × ((f i s).0 ≡ ok r))
  modify-Stored f t t' s s' r x y step before h =
      let (i, i', i'', s1, read, ran, wrote) = modify_parts f t t' s s' r h in
      let found = loaded t s i read in
      let has = content.load-Has t i x s found before in
      (
        (content.flush-Stored i' i'' y t t' s1 s' wrote (step i i' s1 has ran)).0,
        (i, has, found, ap (λ q. q.0) ran),
      )

  -- A `modify` that fails, at the load, in the closure or at the flush, leaves the identifier as it
  -- was.
  pub modify_fails :
      {R : Type 0} (f : Item → S → Result R AnyError × Item × S) (t t' : TCid Cid) (s s' : S)
      → (e : AnyError) → modify names content f t s ≡ (err e, t', s')
      → t' ≡ t
  unfolding modify modify_loaded
  modify_fails f t t' s s' e h = elim (Result-cases (load names content t s)) [
    | inr (bad, unread) ↦ ground arith
    | inl (i, read) ↦
        let (result, i', s1) = f i s in
        elim (Result-cases result) [
          | inr (bad, failed) ↦ ground arith
          | inl (x, ran) ↦ elim (Result-cases (flush i' t s1).0) [
            | inl (i'', wrote) ↦ absurd (ground arith)
            | inr (bad, failed) ↦ content.flush_fails i' bad t t' s1 s' (ground arith)
          ]
        ]
  ]

  -- Content that the store does not have is an error of the illegal state, which keeps its code
  -- when it is downcast.
  pub load_absent :
      (texts : Texts) (t : TCid Cid) (s : S) (code : ℕ) (m : String)
      → maybe_load t s ≡ ok none
      → (load names content t s ≡ err (not_in_database names content t))
        × ((downcast_default texts (not_in_database names content t) code m).exit_code
            ≡ c.usr_illegal_state)
  unfolding load root wrap illegal_state
  load_absent texts t s code m h = (
    ground (arith, h),
    ap (λ a. a.exit_code)
        (downcast_default_keeps_code texts (not_in_database names content t) (absence names t) code
          m refl).0,
  )
