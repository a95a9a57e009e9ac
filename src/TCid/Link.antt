-- ===== src/TCid/Link.antt =====
-- primitives/src/link.rs: `TLink`, content that is one CBOR block.
use fvm_utils.Base.{◌≡◌, sym, Option, none, some, Result, ok, err, arith}
use fvm_utils.Downcast.{AnyError}
use fvm_utils.Hamt.{Blocks}
use fvm_utils.TCid.{TCid, from, Content}

-- `CborStore` at a type `T` of values and at the code of the `TCid`, which is a parameter of its type
pub record LinkStore {S : Type 0} (blocks : Blocks S) (Cid Code T : Type 0) : Type 1 where
  pub put_cbor : T → Code → S → Result Cid AnyError × S
  pub get_cbor : Cid → S → Result (Option T) AnyError
  pub Block : Cid → T → S → Type 0
  pub put-Block :
      (x : T) (code : Code) (c : Cid) (s s' : S)
      → put_cbor x code s ≡ (ok c, s')
      → Block c x s' × blocks.Extends s s'
  pub get-Block : (c : Cid) (x y : T) (s : S) → get_cbor c s ≡ ok (some y) → Block c x s → y ≡ x

-- the store of it is a reference
pub record StoreContent (T : Type 0) : Type 0 where
  pub content : T

abbrev pub deref : {T : Type 0} → StoreContent T → T
deref c = c.content

-- a write through `deref_mut`
abbrev pub deref_mut : {T : Type 0} → T → StoreContent T → StoreContent T
deref_mut x c = record c { content = x }

-- `Default`, over that of `Cid`
abbrev pub default : {Cid : Type 0} → Cid → TCid Cid
default default_cid = from default_cid

module _ {S : Type 0} {blocks : Blocks S} {Cid Code T : Type 0} (code : Code)
    (store : LinkStore blocks Cid Code T) where
  unfoldable pub new_link : T → S → Result (TCid Cid) AnyError × S
  new_link value s =
      let (r, s') = store.put_cbor value code s in
      elim r [ ok c ↦ (ok (from c), s') | err e ↦ (err e, s') ]

  unfoldable pub maybe_load : TCid Cid → S → Result (Option (StoreContent T)) AnyError
  maybe_load t s = elim (store.get_cbor t.cid s) [
    | err e ↦ err e
    | ok none ↦ ok none
    | ok (some content) ↦ ok (some (record { content = content }))
  ]

  unfoldable pub flush :
      StoreContent T → TCid Cid → S → Result (StoreContent T) AnyError × TCid Cid × S
  flush value t s =
      let (r, s') = store.put_cbor value.content code s in
      elim r [ ok c ↦ (ok value, record t { cid = c }, s') | err e ↦ (err e, t, s') ]

  abbrev pub Holds : StoreContent T → T → S → Type 0
  Holds i x s = i.content ≡ x

  pub load-Holds :
      (t : TCid Cid) (i : StoreContent T) (x : T) (s : S)
      → maybe_load t s ≡ ok (some i)
      → store.Block t.cid x s
      → Holds i x s
  unfolding maybe_load
  load-Holds t i x s h b = store.get-Block t.cid x i.content s (ground (arith, h)) b

  pub flush-Block :
      (i i' : StoreContent T) (x : T) (t t' : TCid Cid) (s s' : S)
      → flush i t s ≡ (ok i', t', s')
      → Holds i x s
      → store.Block t'.cid x s' × blocks.Extends s s'
  unfolding flush
  flush-Block i i' x t t' s s' h e =
      rw (sym e) (store.put-Block i.content code t'.cid s s' (ground (arith, h)))

  pub flush_fails :
      (i : StoreContent T) (e : AnyError) (t t' : TCid Cid) (s s' : S)
      → flush i t s ≡ (err e, t', s')
      → t' ≡ t
  unfolding flush
  flush_fails i e t t' s s' h = ground (arith, h)

  -- `TLink` as a kind of content: it stands for the value
  abbrev pub link_content : Content blocks Cid
  link_content = record {
    Item = StoreContent T;
    View = T;
    maybe_load = maybe_load;
    flush = flush;
    Has = Holds;
    Stored = store.Block;
    load-Has = load-Holds;
    flush-Stored = flush-Block;
    flush_fails = flush_fails;
  }
