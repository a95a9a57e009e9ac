-- ===== src/TCid.antt =====
-- primitives/src/lib.rs: `TCid`, an identifier with the type of what it points at, and the operations
-- that `tcid_ops!` writes for each kind of content. A kind of content is the interface `Content`.
pub mod Link
pub mod Map
pub mod Array
pub mod Laws
pub mod SelfTests
use fvm_utils.Base.{
  ◌≡◌, Bool, Option, none, some, String, Result, ok, err, concat, map_err, PartialEq,
}
use fvm_utils.Platform.{ExitCodes}
use fvm_utils.ActorError.{ActorError, illegal_state}
use fvm_utils.Downcast.{AnyError, HamtError, AmtError, actor_error}
use fvm_utils.Hamt.{Blocks}

-- `TCid<T, C>`, of which the type parameters are phantoms
pub record TCid (Cid : Type 0) : Type 0 where
  pub cid : Cid

-- `From<Cid> for TCid`
abbrev pub from : {Cid : Type 0} → Cid → TCid Cid
from c = record { cid = c }

-- `Serialize` and `Deserialize`, over those of `Cid`
unfoldable pub serialize :
    {Cid Ok Error : Type 0} → (Cid → Result Ok Error) → TCid Cid → Result Ok Error
serialize serialize_cid t = serialize_cid t.cid

unfoldable pub deserialize :
    {Cid Wire Error : Type 0} → (Wire → Result Cid Error) → Wire → Result (TCid Cid) Error
deserialize deserialize_cid w = elim (deserialize_cid w) [ ok c ↦ ok (from c) | err e ↦ err e ]

-- `Display`
abbrev pub fmt : {Cid : Type 0} → (Cid → String) → TCid Cid → String
fmt show_cid t = show_cid t.cid

-- the texts in the messages: of an identifier and of errors, and the `type_name` of the `TCid`
pub record Names (Cid : Type 0) : Type 0 where
  pub show_cid : Cid → String
  pub type_name : String
  pub debug_hamt : HamtError → String
  pub show_amt : AmtError → String

-- What `tcid_ops!` assumes of a kind of content: the content as it is loaded, how it is loaded and
-- flushed, and what it stands for, which is a value of `View`.
pub record Content {S : Type 0} (blocks : Blocks S) (Cid : Type 0) : Type 1 where
  pub Item : Type 0
  pub View : Type 0
  pub maybe_load : TCid Cid → S → Result (Option Item) AnyError
  pub flush : Item → TCid Cid → S → Result Item AnyError × TCid Cid × S
  pub Has : Item → View → S → Type 0
  pub Stored : Cid → View → S → Type 0
  pub load-Has :
      (t : TCid Cid) (i : Item) (x : View) (s : S)
      → maybe_load t s ≡ ok (some i)
      → Stored t.cid x s
      → Has i x s
  pub flush-Stored :
      (i i' : Item) (x : View) (t t' : TCid Cid) (s s' : S)
      → flush i t s ≡ (ok i', t', s')
      → Has i x s
      → Stored t'.cid x s' × blocks.Extends s s'
  pub flush_fails :
      (i : Item) (e : AnyError) (t t' : TCid Cid) (s s' : S)
      → flush i t s ≡ (err e, t', s')
      → t' ≡ t

-- the error of `load` where the store has no content
abbrev pub absence : ⦃c : ExitCodes⦄ {Cid : Type 0} → Names Cid → TCid Cid → ActorError
absence names t = illegal_state (
    concat "error loading " (
      concat names.type_name
        (concat ": Cid (" (concat (names.show_cid t.cid) ") did not match any in database"))))

module _ ⦃c : ExitCodes⦄ {S : Type 0} {blocks : Blocks S} {Cid : Type 0} (names : Names Cid)
    (content : Content blocks Cid) where
  open content use {Item, maybe_load, flush}

  -- `default` is `None` where it panics
  unfoldable pub is_default : PartialEq Cid → Option (TCid Cid) → TCid Cid → Option Bool
  is_default cid_eq none t = none
  is_default cid_eq (some default) t = some (cid_eq.eq t.cid default.cid)

  abbrev pub not_in_database : TCid Cid → AnyError
  not_in_database t = actor_error (absence names t)

  unfoldable pub load : TCid Cid → S → Result Item AnyError
  load t s = elim (maybe_load t s) [
    | err e ↦ err e
    | ok (some i) ↦ ok i
    | ok none ↦ err (not_in_database t)
  ]

  -- what `modify` does once the content is loaded; the closure may use the store
  unfoldable pub modify_loaded :
      {R : Type 0}
      → (Item → S → Result R AnyError × Item × S)
      → Item
      → TCid Cid
      → S
      → Result R AnyError × TCid Cid × S
  modify_loaded f i t s =
      let (result, i', s') = f i s in
      elim result [
        | err e ↦ (err e, t, s')
        | ok r ↦
            let (flushed, t', s'') = flush i' t s' in
            elim flushed [ err e ↦ (err e, t', s'') | ok _ ↦ (ok r, t', s'') ]
      ]

  unfoldable pub modify :
      {R : Type 0}
      → (Item → S → Result R AnyError × Item × S)
      → TCid Cid
      → S
      → Result R AnyError × TCid Cid × S
  unfolding load modify_loaded
  modify f t s = elim (load t s) [ err e ↦ (err e, t, s) | ok i ↦ modify_loaded f i t s ]

  unfoldable pub update :
      (Item → S → Result (Unit {0}) AnyError × Item × S)
      → TCid Cid
      → S
      → Result (Unit {0}) AnyError × TCid Cid × S
  unfolding modify
  update f t s = modify f t s
