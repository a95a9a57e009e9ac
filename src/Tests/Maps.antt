-- ===== src/Tests/Maps.antt =====
-- Maps for tests: a map is the function that it holds, and none is ever flushed or loaded.
use fvm_utils.Base.{
  ◌≡◌, refl, sym, ap, ◌∙◌, Bool, true, false, Option, none, some, Result, ok, err, arith,
}
use fvm_utils.Hamt.{Blocks, Hamt, BytesKey, Contents, put_entry}

abbrev pub is_some {ℓ} : {V : Type ℓ} → Option V → Bool
is_some (some v) = true
is_some none = false

module _ {S Error V : Type 0} where
  abbrev pub put_in : BytesKey → V → Contents V → S → Result (Option V) Error × Contents V
  put_in k v m s = (ok (m k), put_entry m k (some v))

  abbrev pub delete_in : BytesKey → Contents V → S → Result (Option V) Error × Contents V
  delete_in k m s = (ok (m k), put_entry m k none)

  pub put_in-Has :
      (k : BytesKey) (v : V) (m m' f : Contents V) (s : S) (old : Option V)
      → put_in k v m s ≡ (ok old, m')
      → m ≡ f
      → m' ≡ put_entry f k (some v)
  put_in-Has k v m m' f s old e h = sym (ap (λ q. q.1) e) ∙ ap (λ g. put_entry g k (some v)) h

  pub delete_in-Has :
      (k : BytesKey) (m m' f : Contents V) (s : S) (old : Option V)
      → delete_in k m s ≡ (ok old, m')
      → m ≡ f
      → (old ≡ f k) × (m' ≡ put_entry f k none)
  delete_in-Has k m m' f s old e h =
      let same : m k ≡ old = cc e in
      (sym same ∙ ap (λ g. g k) h, sym (ap (λ q. q.1) e) ∙ ap (λ g. put_entry g k none) h)

pub get_in-Has :
    {Error V : Type 0} (k : BytesKey) (m f : Contents V) (found : Option V)
    → ◌≡◌ {A = Result (Option V) Error} (ok (m k)) (ok found)
    → m ≡ f
    → found ≡ f k
get_in-Has k m f found e h = let same : m k ≡ found = cc e in sym same ∙ ap (λ g. g k) h

pub contains_in-Has :
    {Error V : Type 0} (k : BytesKey) (m f : Contents V) (b : Bool)
    → ◌≡◌ {A = Result Bool Error} (ok (is_some (m k))) (ok b)
    → m ≡ f
    → b ≡ is_some (f k)
contains_in-Has k m f b e h =
    let same : is_some (m k) ≡ b = cc e in sym same ∙ ap (λ g. is_some (g k)) h

pub unvisited :
    {Error E : Type 0} (bad : Error) (e e' : E)
    → ◌≡◌ {A = Result (Unit {0}) Error × E} (err bad, e) (ok tt, e')
    → ⊥
unvisited bad e e' h = ground arith

pub unflushed :
    {S Cid Error M : Type 0} (bad : Error) (m m' : M) (s s' : S) (c : Cid)
    → ◌≡◌ {A = Result Cid Error × M × S} (err bad, m, s) (ok c, m', s')
    → ⊥
unflushed bad m m' s s' c e = ground arith

module _ {S : Type 0} (blocks : Blocks S) (Cid Error V : Type 0) (unsupported : Error) where
  abbrev pub function_maps : Hamt blocks Cid Error V
  function_maps = record {
    Map = Contents V;
    new_with_bit_width = λ w k. none;
    load_with_bit_width = λ c w s. err unsupported;
    flush = λ m s. (err unsupported, m, s);
    set = put_in;
    get = λ k m s. ok (m k);
    contains_key = λ k m s. ok (is_some (m k));
    delete = delete_in;
    for_each = λ g m s e. (err unsupported, e);
    Has = λ w m f s. m ≡ f;
    Stored = λ w c f s. ⊥;
    new-Has = λ w s. refl;
    load-Has = λ c w m f s e h. absurd h;
    flush-Stored = λ m m' f s s' c e h. absurd (unflushed unsupported m m' s s' c e);
    set-Has = put_in-Has;
    get-Has = λ k m f s found e h. get_in-Has k m f found e h;
    contains-Has = λ k m f s b e h. contains_in-Has k m f b e h;
    delete-Has = delete_in-Has;
    for_each-Has = λ g m f s e e' h held. absurd (unvisited unsupported e e' h);
    Has-Extends = λ m f s s' x h. h;
    Stored-Extends = λ c f s s' x h. h;
  }
